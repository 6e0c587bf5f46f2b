-- ===== src/Reclaim/Hp/Run.antt =====
-- Histories of calls, and those that leave one slot alone.
use pop_setbench.Base.{ℕ, ◌+◌, ◌*◌, ◌<◌, ◌≡◌, ◌≢◌, refl, List, [], ◌∷◌, arith}
use pop_setbench.Reclaim.Slots.{clear_outside}
use pop_setbench.Reclaim.Hp.{State, end_op, reserve, empty, push_retired, flush, bump_cntr, retire}

pub data Op : Type 0 where
  ends : ℕ → Op
  reserves : (ptr slot tid : ℕ) → Op
  retires : (tid obj : ℕ) → Op

unfoldable pub exec : Op → State → State
exec (ends tid) s = end_op tid s
exec (reserves ptr slot tid) s = reserve ptr slot tid s
exec (retires tid obj) s = retire tid obj s

unfoldable pub run : List Op → State → State
run [] s = s
run (o ∷ os) s = run os (exec o s)

-- With `k` slots for each thread, the call does not write slot `q`.
abbrev pub SparesOne : ℕ → ℕ → Op → Type 0
SparesOne k q (ends tid) = (i : ℕ) → i < k → tid * k + i ≢ q
SparesOne k q (reserves ptr slot tid) = tid * k + slot ≢ q
SparesOne k q (retires tid obj) = Unit {0}

abbrev pub Spares : ℕ → ℕ → List Op → Type 0
Spares k q [] = Unit {0}
Spares k q (o ∷ os) = SparesOne k q o × Spares k q os

-- The sizes and slot `q` are as they were.
pub record Frame (q : ℕ) (s t : State) : Type 0 where
  pub same_size : t.num_process ≡ s.num_process
  pub same_width : t.slots_per_thread ≡ s.slots_per_thread
  pub same_freq : t.empty_freq ≡ s.empty_freq
  pub same_slot : t.slots q ≡ s.slots q

pub retire-Frame : (tid obj q : ℕ) (s : State) → Frame q s (retire tid obj s)
unfolding retire flush bump_cntr push_retired empty
retire-Frame tid obj q s = ground arith

pub exec-Frame :
    (o : Op) (q : ℕ) (s : State) → SparesOne s.slots_per_thread q o → Frame q s (exec o s)
unfolding exec end_op reserve
exec-Frame (ends tid) q s sp = record {
  same_size = refl;
  same_width = refl;
  same_freq = refl;
  same_slot = clear_outside _ _ s.slots q sp;
}
exec-Frame (reserves ptr slot tid) q s sp = ground arith
exec-Frame (retires tid obj) q s sp = retire-Frame tid obj q s
