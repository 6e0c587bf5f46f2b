-- ===== src/Reclaim/He/Empty.antt =====
-- What `empty` frees, and that no object is lost or freed twice.
use pop_setbench.Base.{
  ℕ, ◌+◌, ◌*◌, ◌%◌, ◌≡◌, ◌≢◌, ◌↔◌, inl, inr, arith, false, ◌==◌, ==_refl, if◌then◌else◌, Bool-cases,
  In, ◌&&◌, In-append_right, sym, ◌∙◌, ◌<◌, ◌≤◌, true,
}
use pop_setbench.Reclaim.Sweep.{In-kept_inv, In-freed, In-map}
use pop_setbench.Reclaim.Bags.{held, held-swept, held-pushed}
use pop_setbench.Reclaim.Eras.{IntervalInfo, interval_info}
use pop_setbench.Reclaim.He.{State, scan, freeable_loop, empty, push_retired, flush, retire}
use pop_setbench.Reclaim.He.Scan.{scan_at, place_of, era_of_not_freeable}
use pop_setbench.Reclaim.He.Reserve.{Pins, empty-keeps}

-- An entry of the bag of tid is still there after empty exactly if some slot of some thread holds
-- an epoch other than 0 between its birth and its retirement, provided that the thread-local
-- tid of the calling thread has the number tid.
pub empty_exact_he :
    (globals : ℕ → ℕ) (tid : ℕ) (s : State) (x : IntervalInfo)
    → globals tid ≡ tid
    → In x (s.retired tid)
    → In x ((empty globals tid s).retired tid) ↔ ((i : ℕ) × (idx : ℕ) × Pins i idx x s)
empty_exact_he globals tid s x own m = (
  unfold empty in
      (λ h.
        let kept = In-kept_inv _ x (s.retired tid) (rw (==_refl, own) at h) in
        let scanned = scan s.num_process s.num_he s.reservations (s.scanned_hes tid) in
        let (q, lt, pos, hb, hr) =
          era_of_not_freeable (s.num_process * s.num_he) scanned x.birth_epoch x.retire_epoch
            (rw ==_refl at kept.1) in
        let (i, idx, li, lj, e) = place_of s.num_process s.num_he q lt in
        let at : scanned q ≡ s.reservations i idx =
          rw e (scan_at s.num_process s.num_he s.reservations (s.scanned_hes tid) i idx li lj) in
        (
          i,
          idx,
          record {
            in_range = li;
            in_width = lj;
            reserved = rw at at pos;
            born = rw at at hb;
            alive = rw at at hr;
          },
        )),
  λ (i, idx, g). empty-keeps globals i idx tid x own tid s g m,
)

-- What a slot pins goes all the same when thread j empties its bag, if the thread-local tid of that
-- thread has another number than j, and the eras that the thread with that number has scanned are
-- outside the lifetime of the object or 0: the object is handed to the pool, and the slot still pins it.
pub unset_tid_frees :
    (globals : ℕ → ℕ) (i idx j : ℕ) (s : State) (x : IntervalInfo)
    → globals j ≢ j
    → Pins i idx x s
    → In x (s.retired j)
    → ((q : ℕ)
        → q < s.num_process * s.num_he
        → let e = s.scanned_hes (globals j) q in 0 < e → x.birth_epoch ≤ e → e ≤ x.retire_epoch → ⊥)
    → let s' = empty globals j s in Pins i idx x s' × In x.obj (s'.pool j) × ¬ In x (s'.retired j)
unfolding empty
unset_tid_frees globals i idx j s x other g m stale =
    let off : (j == globals j) ≡ false = ground (arith, other) in
    let scanned = s.scanned_hes (globals j) in
    let free : freeable_loop (s.num_process * s.num_he) scanned x.birth_epoch x.retire_epoch
        ≡ true =
      elim (Bool-cases
        (freeable_loop (s.num_process * s.num_he) scanned x.birth_epoch x.retire_epoch)) [
          | inl y ↦ y
          | inr f ↦
              let (q, lt, pos, hb, hr) =
                era_of_not_freeable (s.num_process * s.num_he) scanned x.birth_epoch x.retire_epoch
                  f in
              absurd (stale q lt pos hb hr)
        ] in
    (
      record {
        in_range = g.in_range;
        in_width = g.in_width;
        reserved = g.reserved;
        born = g.born;
        alive = g.alive;
      },
      rw (==_refl j, off)
          (In-append_right x.obj (s.pool j) _
            (In-map (λ y. y.obj) x _ (In-freed _ x (s.retired j) m free))),
      λ h.
          let kept = (In-kept_inv _ x (s.retired j) (rw (==_refl j, off) at h)).1 in
          let clash : false ≡ true = sym kept ∙ free in cc,
    )

-- How often the address `p` stands in the bag and the pool of thread `j`.
abbrev pub held_by : ℕ → ℕ → State → ℕ
held_by p j s = held (λ x. x.obj) p j s.retired s.pool

module _ (globals : ℕ → ℕ) (p j tid obj birth : ℕ) (s : State) where
  flush-held : (t : State) → held_by p j (flush globals tid t) ≡ held_by p j t
  unfolding flush empty
  flush-held t = elim (Bool-cases (t.retire_counters tid % t.freq == 0)) [
    | inl full ↦ rw full (held-swept (λ x. x.obj) p j tid t.retired t.pool _)
    | inr room ↦ rw room
  ]

  -- Retiring a non-NULL object adds one to the number of times that it stands in the retired list
  -- or the pool of the retiring thread, and leaves that number as it was for every other object
  -- and thread.
  pub retire-held_he :
      obj ≢ 0
      → held_by p j (retire globals tid obj birth s)
        ≡ held_by p j s + (if tid == j && p == obj then 1 else 0)
  unfolding retire
  retire-held_he ne =
      let e : (obj == 0) ≡ false = ground arith in
      rw (e, flush-held (push_retired tid obj birth s))
        (unfold push_retired in
          (held-pushed (λ x. x.obj) p j tid s.retired s.pool (interval_info obj birth s.epoch)))
