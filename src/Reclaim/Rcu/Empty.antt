-- ===== src/Reclaim/Rcu/Empty.antt =====
-- What `empty` frees, and that no object is lost or freed twice.
use pop_setbench.Base.{
  ℕ, ◌+◌, ◌%◌, ◌≤◌, ◌<◌, ◌≡◌, ◌≢◌, ◌↔◌, inl, inr, arith, false, ◌==◌, ==_refl, ◌&&◌, if◌then◌else◌,
  Bool-cases, In, In-append_right, u64_max,
}
use pop_setbench.Reclaim.Bags.{held, held-swept, held-pushed}
use pop_setbench.Reclaim.Sweep.{In-kept, In-kept_inv, In-freed, In-map}
use pop_setbench.Reclaim.Epochs.{
  RcuInfo, rcu_info, min_epoch, min_epoch-le, lt-min_epoch, min_epoch_attained,
}
use pop_setbench.Reclaim.Rcu.{State, empty, push_retired, retire}

-- An entry of the bag of tid stamped below UINT64_MAX is still there after empty exactly if some
-- thread below num_process has a reservation that is at most its stamp.
pub empty_exact_ebr :
    (tid : ℕ) (s : State) (x : RcuInfo)
    → In x (s.retired tid)
    → x.epoch < u64_max
    → In x ((empty tid s).retired tid)
      ↔ ((i : ℕ) × (i < s.num_process) × (s.reservations i ≤ x.epoch))
unfolding empty
empty_exact_ebr tid s x m small =
    let e = ==_refl tid in
    let bound = min_epoch s.num_process s.reservations in
    rw e (
      λ h.
          let held = In-kept_inv _ x (s.retired tid) h in
          let low : bound ≤ x.epoch = ground (arith, held.1) in
          let (i, lt, at) = min_epoch_attained s.num_process s.reservations (omega arith) in
          (i, lt, omega arith),
      λ (i, lt, le).
          In-kept _ x (s.retired tid) m
            (ground (arith, min_epoch-le s.num_process s.reservations i lt)),
    )

-- An entry of the bag of tid stamped below UINT64_MAX, whose stamp lies below the reservation of
-- every thread below num_process, has its object in the pool of tid after empty.
pub empty-frees :
    (tid : ℕ) (s : State) (x : RcuInfo)
    → In x (s.retired tid)
    → x.epoch < u64_max
    → ((i : ℕ) → i < s.num_process → x.epoch < s.reservations i)
    → In x.obj ((empty tid s).pool tid)
unfolding empty
empty-frees tid s x m small young =
    let e = ==_refl tid in
    let young' = lt-min_epoch s.num_process s.reservations x.epoch small young in
    rw e (
      In-append_right x.obj (s.pool tid) _
        (In-map (λ y. y.obj) x _ (In-freed _ x (s.retired tid) m (ground arith))))

-- How often the address `p` stands in the bag and the pool of thread `j`.
abbrev pub held_by : ℕ → ℕ → State → ℕ
held_by p j s = held (λ x. x.obj) p j s.retired s.pool

module _ (p j tid obj : ℕ) (s : State) where
  empty-held : (t : State) → held_by p j (empty tid t) ≡ held_by p j t
  unfolding empty
  empty-held t = held-swept (λ x. x.obj) p j tid t.retired t.pool _

  push-held :
      held_by p j (push_retired tid obj s) ≡ held_by p j s + (if tid == j && p == obj then 1 else 0)
  unfolding push_retired
  push-held = held-pushed (λ x. x.obj) p j tid s.retired s.pool (rcu_info obj s.epoch)

  -- Retiring a non-NULL object adds one to the number of times that it stands in the retired list
  -- or the pool of the retiring thread, and leaves that number as it was for every other object
  -- and thread.
  pub retire-held_ebr :
      obj ≢ 0
      → held_by p j (retire tid obj s) ≡ held_by p j s + (if tid == j && p == obj then 1 else 0)
  unfolding retire
  retire-held_ebr ne =
      let e : (obj == 0) ≡ false = ground arith in
      rw e (elim (Bool-cases ((push_retired tid obj s).retire_counters tid % s.empty_freq == 0)) [
        | inl full ↦ rw (full, empty-held (push_retired tid obj s)) push-held
        | inr room ↦ rw room push-held
      ])
