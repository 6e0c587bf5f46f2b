-- ===== src/Reclaim/Rcu/Run.antt =====
-- Histories of calls on the reclaimer, by any threads in any order, and what each call leaves
-- alone.
use pop_setbench.Base.{ℕ, ◌+◌, ◌≤◌, ◌<◌, ◌≡◌, ◌≢◌, List, [], ◌∷◌, arith, u64_max}
use pop_setbench.Reclaim.Rcu.{
  State, start_op, end_op, update_alloc_counter_and_epoch, empty, push_retired, retire,
}

pub data Op : Type 0 where
  starts ends allocs : ℕ → Op
  retires : ℕ → ℕ → Op

unfoldable pub exec : Op → State → State
exec (starts tid) s = start_op tid s
exec (ends tid) s = end_op tid s
exec (allocs tid) s = update_alloc_counter_and_epoch tid s
exec (retires tid obj) s = retire tid obj s

unfoldable pub run : List Op → State → State
run [] s = s
run (o ∷ os) s = run os (exec o s)

-- The call neither starts nor ends an operation of thread `i`.
abbrev pub SparesOne : ℕ → Op → Type 0
SparesOne i (starts tid) = tid ≢ i
SparesOne i (ends tid) = tid ≢ i
SparesOne i (allocs tid) = Unit {0}
SparesOne i (retires tid obj) = Unit {0}

abbrev pub Spares : ℕ → List Op → Type 0
Spares i [] = Unit {0}
Spares i (o ∷ os) = SparesOne i o × Spares i os

-- What stays as it was, and how far the epoch moves.
pub record Frame (i : ℕ) (s t : State) : Type 0 where
  pub same_size : t.num_process ≡ s.num_process
  pub same_reservation : t.reservations i ≡ s.reservations i
  pub grows : s.epoch ≤ t.epoch
  pub slowly : t.epoch ≤ s.epoch + 1

pub exec-Frame :
    (o : Op) (i : ℕ) (s : State) → SparesOne i o → s.epoch < u64_max → Frame i s (exec o s)
unfolding exec start_op end_op update_alloc_counter_and_epoch retire push_retired empty
exec-Frame (starts tid) i s sp h = ground arith
exec-Frame (ends tid) i s sp h = ground arith
exec-Frame (allocs tid) i s sp h = ground arith
exec-Frame (retires tid obj) i s sp h = ground arith
