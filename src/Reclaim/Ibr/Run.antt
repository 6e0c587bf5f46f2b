-- ===== src/Reclaim/Ibr/Run.antt =====
-- Histories of calls, and what a call leaves alone.
use pop_setbench.Base.{ℕ, ◌+◌, ◌≤◌, ◌<◌, ◌≡◌, ◌≢◌, List, [], ◌∷◌, arith, u64_max}
use pop_setbench.Reclaim.Ibr.{
  State, start_op, end_op, update_alloc_counter_and_epoch, reserve_upper, empty, push_retired,
  flush, retire,
}

-- `reads tid e` is a call of `read` that ends with the epoch `e` reserved.
pub data Op : Type 0 where
  starts ends allocs : ℕ → Op
  reads : (tid e : ℕ) → Op
  retires : (tid obj birth_epoch : ℕ) → Op

unfoldable pub exec : Op → State → State
exec (starts tid) s = start_op tid s
exec (ends tid) s = end_op tid s
exec (allocs tid) s = update_alloc_counter_and_epoch tid s
exec (reads tid e) s = reserve_upper tid e s
exec (retires tid obj birth_epoch) s = retire tid obj birth_epoch s

unfoldable pub run : List Op → State → State
run [] s = s
run (o ∷ os) s = run os (exec o s)

-- The call does not change what thread `i` has reserved.
abbrev pub SparesOne : ℕ → Op → Type 0
SparesOne i (starts tid) = tid ≢ i
SparesOne i (ends tid) = tid ≢ i
SparesOne i (allocs tid) = Unit {0}
SparesOne i (reads tid e) = tid ≢ i
SparesOne i (retires tid obj birth_epoch) = Unit {0}

abbrev pub Spares : ℕ → List Op → Type 0
Spares i [] = Unit {0}
Spares i (o ∷ os) = SparesOne i o × Spares i os

-- What stays as it was, and how far the epoch moves.
pub record Frame (i : ℕ) (s t : State) : Type 0 where
  pub same_size : t.num_process ≡ s.num_process
  pub same_lower : t.lower_reservs i ≡ s.lower_reservs i
  pub same_upper : t.upper_reservs i ≡ s.upper_reservs i
  pub grows : s.epoch < u64_max → s.epoch ≤ t.epoch
  pub slowly : s.epoch < u64_max → t.epoch ≤ s.epoch + 1

pub exec-Frame : (o : Op) (i : ℕ) (s : State) → SparesOne i o → Frame i s (exec o s)
unfolding exec start_op end_op update_alloc_counter_and_epoch reserve_upper retire flush
    push_retired empty
exec-Frame (starts tid) i s sp = ground arith
exec-Frame (ends tid) i s sp = ground arith
exec-Frame (allocs tid) i s sp = ground arith
exec-Frame (reads tid e) i s sp = ground arith
exec-Frame (retires tid obj b) i s sp = ground arith
