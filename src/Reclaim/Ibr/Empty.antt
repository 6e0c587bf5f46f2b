-- ===== src/Reclaim/Ibr/Empty.antt =====
-- What `empty` frees, and that no object is lost or freed twice.
use pop_setbench.Base.{
  ℕ, ◌+◌, ◌%◌, ◌≤◌, ◌<◌, ◌≡◌, ◌≢◌, ◌↔◌, inl, inr, arith, false, ◌==◌, ==_refl, ◌&&◌, if◌then◌else◌,
  Bool-cases, In,
}
use pop_setbench.Reclaim.Bags.{held, held-swept, held-pushed}
use pop_setbench.Reclaim.Sweep.{In-kept, In-kept_inv}
use pop_setbench.Reclaim.Eras.{IntervalInfo, interval_info}
use pop_setbench.Reclaim.Ibr.{State, empty, push_retired, flush, retire}
use pop_setbench.Reclaim.Ibr.Reserve.{conflict_of_meet, meet_of_conflict}

-- An entry of the bag of tid is still there after empty exactly if its lifetime meets the
-- interval between the lower and the upper reservation of some thread.
pub empty_exact_ibr :
    (tid : ℕ) (s : State) (x : IntervalInfo)
    → In x (s.retired tid)
    → In x ((empty tid s).retired tid) ↔ (
        (i : ℕ) × (i < s.num_process)
        × (x.birth_epoch ≤ s.upper_reservs i)
        × (s.lower_reservs i ≤ x.retire_epoch))
unfolding empty
empty_exact_ibr tid s x m = rw ==_refl (
  λ h.
      let kept = In-kept_inv _ x (s.retired tid) h in
      meet_of_conflict s.num_process s.lower_reservs s.upper_reservs x.birth_epoch x.retire_epoch
        (ground (arith, kept.1)),
  λ (i, lt, born, alive). In-kept _ x (s.retired tid) m (
      rw (
        conflict_of_meet s.num_process s.lower_reservs s.upper_reservs x.birth_epoch x.retire_epoch
          i lt born alive)),
)

-- How often the address `p` stands in the bag and the pool of thread `j`.
abbrev pub held_by : ℕ → ℕ → State → ℕ
held_by p j s = held (λ x. x.obj) p j s.retired s.pool

module _ (p j tid obj birth : ℕ) (s : State) where
  flush-held : (t : State) → held_by p j (flush tid t) ≡ held_by p j t
  unfolding flush empty
  flush-held t = elim (Bool-cases (t.retire_counters tid % t.freq == 0)) [
    | inl full ↦ rw full (held-swept (λ x. x.obj) p j tid t.retired t.pool _)
    | inr room ↦ rw room
  ]

  -- Retiring a non-NULL object adds one to the number of times that it stands in the retired list
  -- or the pool of the retiring thread, and leaves that number as it was for every other object
  -- and thread.
  pub retire-held_ibr :
      obj ≢ 0
      → held_by p j (retire tid obj birth s)
        ≡ held_by p j s + (if tid == j && p == obj then 1 else 0)
  unfolding retire
  retire-held_ibr ne =
      let e : (obj == 0) ≡ false = ground arith in
      rw (e, flush-held (push_retired tid obj birth s))
        (unfold push_retired in
          (held-pushed (λ x. x.obj) p j tid s.retired s.pool (interval_info obj birth s.epoch)))
