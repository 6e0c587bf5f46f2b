-- ===== src/Reclaim/Hp/Bound.antt =====
-- The garbage of a thread is bounded by the number of slots and the frequency of the scans.
use pop_setbench.Base.{
  ℕ, ◌+◌, ◌*◌, ◌≤◌, ◌<◌, ◌≡◌, refl, inl, inr, not, Bool, [], ◌∷◌, arith, ◌==◌, ==_refl, Bool-cases,
  In, Distinct, Distinct-snoc, length, length-append, length-load, length-le_of_Distinct, load,
  update,
}
use pop_setbench.Reclaim.Sweep.{sweep, Distinct-kept, In-kept_inv}
use pop_setbench.Reclaim.Slots.{conflict, In-of_conflict}
use pop_setbench.Reclaim.Hp.{State, empty, push_retired, flush, bump_cntr, retire}
use pop_setbench.Reclaim.Hp.Run.{retire-Frame}

-- Thread `tid` has no object twice in its bag, which is no longer than all slots and the calls
-- since its last scan.
pub record IsBounded (tid : ℕ) (s : State) : Type 0 where
  pub distinct : Distinct (s.retired tid)
  pub counted : length (s.retired tid) ≤ s.num_process * s.slots_per_thread + s.cntrs tid
  pub in_time : s.cntrs tid ≤ s.empty_freq

-- After a scan no more objects are left than there are slots.
empty-length :
    (tid : ℕ) (s : State)
    → Distinct (s.retired tid)
    → Distinct ((empty tid s).retired tid)
      × (length ((empty tid s).retired tid) ≤ s.num_process * s.slots_per_thread)
unfolding empty
empty-length tid s d =
    let n = s.num_process * s.slots_per_thread in
    let free : ℕ → Bool = λ p. not (conflict (load n s.slots) p) in
    rw ==_refl (
      Distinct-kept free (s.retired tid) d,
      omega (
        arith,
        length-load n s.slots,
        length-le_of_Distinct (sweep free (s.retired tid)).kept (load n s.slots)
            (Distinct-kept free (s.retired tid) d)
            (λ p m.
              In-of_conflict (load n s.slots) p
                (ground (arith, (In-kept_inv free p (s.retired tid) m).1))),
      ),
    )

empty-same :
    (tid : ℕ) (s : State)
    → ((empty tid s).num_process ≡ s.num_process)
      × ((empty tid s).slots_per_thread ≡ s.slots_per_thread)
      × ((empty tid s).empty_freq ≡ s.empty_freq)
      × ((empty tid s).cntrs tid ≡ s.cntrs tid)
unfolding empty
empty-same tid s = (refl, refl, refl, refl)

-- The state in which `retire` tests the counter, with the new object in the bag.
flush-IsBounded :
    (tid : ℕ) (s : State)
    → Distinct (s.retired tid)
    → length (s.retired tid) ≤ s.num_process * s.slots_per_thread + s.cntrs tid + 1
    → s.cntrs tid ≤ s.empty_freq
    → 0 < s.empty_freq
    → IsBounded tid (bump_cntr tid (flush tid s))
unfolding flush bump_cntr
flush-IsBounded tid s d le time pos = elim (Bool-cases (s.cntrs tid == s.empty_freq)) [
  | inl full ↦
      let s' = record s { cntrs = update s.cntrs tid 0 } in
      let (d', le') = empty-length tid s' d in
      let c : update s.cntrs tid 0 tid ≡ 0 = rw ==_refl in
      let (np, spt, ef, same) = empty-same tid s' in
      rw full (record {
        distinct = d';
        counted = rw (np, spt, ==_refl, same, c) (omega arith);
        in_time = rw (ef, ==_refl, same, c) (omega arith);
      })
  | inr room ↦ rw room (record {
    distinct = d;
    counted = rw ==_refl (omega arith);
    in_time = rw ==_refl (ground arith);
  })
]

retire-Bounded :
    (tid obj : ℕ) (s : State)
    → 0 < s.empty_freq
    → ¬ In obj (s.retired tid)
    → IsBounded tid s
    → IsBounded tid (retire tid obj s)
unfolding retire push_retired
retire-Bounded tid obj s pos new b = elim (Bool-cases (obj == 0)) [
  | inl null ↦ rw null b
  | inr some_obj ↦ rw some_obj (
      flush-IsBounded tid (push_retired tid obj s)
        (rw ==_refl (Distinct-snoc obj (s.retired tid) b.distinct new))
        (rw ==_refl (omega (arith, length-append (s.retired tid) (obj ∷ []), b.counted))) b.in_time
        pos)
]

-- If a thread has no object twice in its bag, and the bag is no longer than all slots and the
-- calls since its last scan, then after it retires an object that is not in its bag this still
-- holds, and the bag is no longer than the number of slots of all threads plus empty_freq (which
-- is positive).
pub retire-IsBounded :
    (tid obj : ℕ) (s : State)
    → 0 < s.empty_freq
    → ¬ In obj (s.retired tid)
    → IsBounded tid s
    → IsBounded tid (retire tid obj s)
      × (length ((retire tid obj s).retired tid)
          ≤ s.num_process * s.slots_per_thread + s.empty_freq)
retire-IsBounded tid obj s pos new b =
    let t = retire tid obj s in
    let b' = retire-Bounded tid obj s pos new b in
    let f = retire-Frame tid obj 0 s in
    let size : t.num_process * t.slots_per_thread ≡ s.num_process * s.slots_per_thread =
      rw (f.same_size, f.same_width) in
    (b', omega (arith, size, f.same_freq, b'.counted, b'.in_time))
