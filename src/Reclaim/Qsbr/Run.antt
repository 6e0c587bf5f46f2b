-- ===== src/Reclaim/Qsbr/Run.antt =====
-- Histories of calls, and what each call leaves alone.
use pop_setbench.Base.{ℕ, ◌+◌, ◌≤◌, ◌<◌, ◌≡◌, ◌≢◌, ◌∙◌, refl, List, [], ◌∷◌, arith, u64_max}
use pop_setbench.Reclaim.Qsbr.{
  State, start_op, end_op, update_alloc_counter_and_epoch, empty, push_retired, flush, retire,
}

pub data Op : Type 0 where
  starts ends allocs : ℕ → Op
  retires : ℕ → ℕ → Op

unfoldable pub exec : Op → State → State
exec (starts tid) s = start_op tid s
exec (ends tid) s = end_op tid s
exec (allocs tid) s = update_alloc_counter_and_epoch tid s
exec (retires tid obj) s = retire tid obj s

unfoldable pub run : List Op → State → State
run [] s = s
run (o ∷ os) s = run os (exec o s)

-- Thread `i` ends no operation in the call.
abbrev pub SparesOne : ℕ → Op → Type 0
SparesOne i (starts tid) = Unit {0}
SparesOne i (ends tid) = tid ≢ i
SparesOne i (allocs tid) = Unit {0}
SparesOne i (retires tid obj) = Unit {0}

abbrev pub Spares : ℕ → List Op → Type 0
Spares i [] = Unit {0}
Spares i (o ∷ os) = SparesOne i o × Spares i os

-- What stays as it was, and how far the epoch moves.
pub record Frame (i : ℕ) (s t : State) : Type 0 where
  pub same_size : t.num_process ≡ s.num_process
  pub same_reservation : t.reservations i ≡ s.reservations i
  pub grows : s.epoch < u64_max → s.epoch ≤ t.epoch
  pub slowly : s.epoch < u64_max → t.epoch ≤ s.epoch + 1

pub exec-Frame : (o : Op) (i : ℕ) (s : State) → SparesOne i o → Frame i s (exec o s)
unfolding exec start_op end_op update_alloc_counter_and_epoch retire flush push_retired empty
exec-Frame (starts tid) i s sp = ground arith
exec-Frame (ends tid) i s sp = ground arith
exec-Frame (allocs tid) i s sp = ground arith
exec-Frame (retires tid obj) i s sp = ground arith

-- A history in which thread `i` ends no operation leaves its reservation as it was.
pub run-reservation :
    (os : List Op) (i : ℕ) (s : State)
    → Spares i os
    → ((run os s).num_process ≡ s.num_process) × ((run os s).reservations i ≡ s.reservations i)
unfolding run
run-reservation [] i s sp = (refl, refl)
run-reservation (o ∷ os) i s sp =
    let f = exec-Frame o i s sp.0 in
    let (n, r) = run-reservation os i (exec o s) sp.1 in (n ∙ f.same_size, r ∙ f.same_reservation)
