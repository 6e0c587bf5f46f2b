-- ===== src/Reclaim/He/Run.antt =====
-- Histories of calls, and what a call leaves alone.
use pop_setbench.Base.{ℕ, ◌+◌, ◌≤◌, ◌<◌, ◌≡◌, ◌≢◌, ◌⊎◌, inl, inr, List, [], ◌∷◌, arith, u64_max}
use pop_setbench.Reclaim.He.{
  State, end_op, update_alloc_counter_and_epoch, reserve_era, empty, push_retired, flush, retire,
}

-- `reads tid idx e` is a call of `read` that ends with the epoch `e` in slot `idx`.
pub data Op : Type 0 where
  ends allocs : ℕ → Op
  reads : (tid idx e : ℕ) → Op
  retires : (tid obj birth_epoch : ℕ) → Op

-- `globals tid` is the value of the thread-local `tid` in the thread that passes `tid`.
unfoldable pub exec : (globals : ℕ → ℕ) → Op → State → State
exec globals (ends tid) s = end_op tid s
exec globals (allocs tid) s = update_alloc_counter_and_epoch tid s
exec globals (reads tid idx e) s = reserve_era tid idx e s
exec globals (retires tid obj birth_epoch) s = retire globals tid obj birth_epoch s

unfoldable pub run : (globals : ℕ → ℕ) → List Op → State → State
run globals [] s = s
run globals (o ∷ os) s = run globals os (exec globals o s)

-- The call does not write slot `idx` of thread `i`.
abbrev pub SparesOne : ℕ → ℕ → Op → Type 0
SparesOne i idx (ends tid) = tid ≢ i
SparesOne i idx (allocs tid) = Unit {0}
SparesOne i idx (reads tid idx' e) = (tid ≢ i) ⊎ (idx' ≢ idx)
SparesOne i idx (retires tid obj birth_epoch) = Unit {0}

abbrev pub Spares : ℕ → ℕ → List Op → Type 0
Spares i idx [] = Unit {0}
Spares i idx (o ∷ os) = SparesOne i idx o × Spares i idx os

-- What stays as it was, and how far the epoch moves.
pub record Frame (i idx : ℕ) (s t : State) : Type 0 where
  pub same_size : t.num_process ≡ s.num_process
  pub same_width : t.num_he ≡ s.num_he
  pub same_era : t.reservations i idx ≡ s.reservations i idx
  pub grows : s.epoch < u64_max → s.epoch ≤ t.epoch
  pub slowly : s.epoch < u64_max → t.epoch ≤ s.epoch + 1

pub exec-Frame :
    (globals : ℕ → ℕ) (o : Op) (i idx : ℕ) (s : State)
    → SparesOne i idx o
    → Frame i idx s (exec globals o s)
unfolding exec end_op update_alloc_counter_and_epoch reserve_era retire flush push_retired empty
exec-Frame globals (ends tid) i idx s sp = ground arith
exec-Frame globals (allocs tid) i idx s sp = ground arith
exec-Frame globals (reads tid idx' e) i idx s (inl other) = ground arith
exec-Frame globals (reads tid idx' e) i idx s (inr other) = ground arith
exec-Frame globals (retires tid obj b) i idx s sp = ground arith
