-- ===== src/Reclaim/Hp/Protect.antt =====
-- An object in a slot is not freed, whatever the other threads do; `empty` frees the others.
use pop_setbench.Base.{
  ℕ, ◌+◌, ◌*◌, ◌<◌, ◌≡◌, ◌≢◌, ◌↔◌, sym, ◌∙◌, inl, inr, false, some, List, [], ◌∷◌, arith, ◌==◌,
  ==_refl, ◌&&◌, if◌then◌else◌, Bool-cases, In, update, ℕ_discrete,
}
use pop_setbench.Reclaim.Sweep.{In-kept_inv}
use pop_setbench.Reclaim.Bags.{
  In-pushed_bag, In-pushed_bag_self, In-swept_bag, held, held-swept, held-pushed,
}
use pop_setbench.Reclaim.Slots.{conflict-load, conflict-load_inv, read_loop_ends}
use pop_setbench.Reclaim.Hp.{
  State, end_op, reserve, read, empty, push_retired, flush, bump_cntr, retire,
}
use pop_setbench.Reclaim.Hp.Run.{
  Op, ends, reserves, retires, exec, run, Spares, Frame, exec-Frame, retire-Frame,
}

-- Object `p` stands in slot `q`.
record Guards (q p : ℕ) (s : State) : Type 0 where
  in_range : q < s.num_process * s.slots_per_thread
  in_slot : s.slots q ≡ p

Guards-Frame : (q p : ℕ) (s t : State) → Frame q s t → Guards q p s → Guards q p t
Guards-Frame q p s t f g = record {
  in_range = rw (f.same_size, f.same_width) g.in_range;
  in_slot = f.same_slot ∙ g.in_slot;
}

module _ (q p j : ℕ) where
  empty-keeps :
      (tid : ℕ) (s : State) → Guards q p s → In p (s.retired j) → In p ((empty tid s).retired j)
  unfolding empty
  empty-keeps tid s g m =
      In-swept_bag _ p j tid s.retired m
        (rw (← g.in_slot, conflict-load (s.num_process * s.slots_per_thread) s.slots q g.in_range))

  flush-keeps :
      (tid : ℕ) (s : State)
      → Guards q p s
      → In p (s.retired j)
      → In p ((bump_cntr tid (flush tid s)).retired j)
  unfolding flush bump_cntr
  flush-keeps tid s g m = elim (Bool-cases (s.cntrs tid == s.empty_freq)) [
    | inl full ↦ rw full (
        empty-keeps tid (record s { cntrs = update s.cntrs tid 0 })
          (record { in_range = g.in_range; in_slot = g.in_slot }) m)
    | inr room ↦ rw room m
  ]

  retire-pushes :
      (tid obj : ℕ) (s : State)
      → obj ≢ 0
      → Guards q p s
      → In p ((push_retired tid obj s).retired j)
      → In p ((retire tid obj s).retired j)
  unfolding retire push_retired
  retire-pushes tid obj s ne g m =
      let e : (obj == 0) ≡ false = ground arith in
      rw e (
        flush-keeps tid (push_retired tid obj s)
          (record { in_range = g.in_range; in_slot = g.in_slot }) m)

  retire-keeps :
      (tid obj : ℕ) (s : State)
      → Guards q p s
      → In p (s.retired j)
      → In p ((retire tid obj s).retired j)
  retire-keeps tid obj s g m = elim (ℕ_discrete obj 0) [
    | yes null ↦ unfold retire in (rw null m)
    | no ne ↦
        retire-pushes tid obj s ne g
          (unfold push_retired in (In-pushed_bag p obj j tid s.retired m))
  ]

  exec-keeps :
      (o : Op) (s : State) → Guards q p s → In p (s.retired j) → In p ((exec o s).retired j)
  unfolding exec end_op reserve
  exec-keeps (ends tid) s g m = m
  exec-keeps (reserves ptr slot tid) s g m = m
  exec-keeps (retires tid obj) s g m = retire-keeps tid obj s g m

  run-keeps :
      (os : List Op) (s : State)
      → Spares s.slots_per_thread q os
      → Guards q p s
      → In p (s.retired j)
      → In p ((run os s).retired j)
  unfolding run
  run-keeps [] s sp g m = m
  run-keeps (o ∷ os) s sp g m =
      let f = exec-Frame o q s sp.0 in
      run-keeps os (exec o s) (rw f.same_width sp.1) (Guards-Frame q p s (exec o s) f g)
        (exec-keeps o s g m)

-- If the non-NULL object p stands in a slot q that is scanned when thread j retires it, and no
-- later call writes that slot, then p is still in the retired list of j.
pub protected_stays :
    (s : State) (q p j : ℕ) (after : List Op)
    → q < s.num_process * s.slots_per_thread
    → s.slots q ≡ p
    → p ≢ 0
    → Spares s.slots_per_thread q after
    → In p ((run after (retire j p s)).retired j)
protected_stays s q p j after lt e ne sp =
    let f = retire-Frame j p q s in
    let g : Guards q p s = record { in_range = lt; in_slot = e } in
    run-keeps q p j after (retire j p s) (rw f.same_width sp)
      (Guards-Frame q p s (retire j p s) f g)
      (retire-pushes q p j j p s ne g (unfold push_retired in (In-pushed_bag_self p j s.retired)))

-- An object of the bag of tid is still there after empty exactly if it stands in some slot below
-- num_process times slotsPerThread.
pub empty_exact_hp :
    (tid p : ℕ) (s : State)
    → In p (s.retired tid)
    → In p ((empty tid s).retired tid)
      ↔ ((q : ℕ) × (q < s.num_process * s.slots_per_thread) × (p ≡ s.slots q))
empty_exact_hp tid p s m = (
  unfold empty in
      (λ h.
        conflict-load_inv (s.num_process * s.slots_per_thread) s.slots p
          (ground (arith, (In-kept_inv _ p (s.retired tid) (rw ==_refl at h)).1))),
  λ (q, lt, e). empty-keeps q p tid tid s (record { in_range = lt; in_slot = sym e }) m,
)

-- How often the address `p` stands in the bag and the pool of thread `j`.
abbrev pub held_by : ℕ → ℕ → State → ℕ
held_by p j s = held (λ x. x) p j s.retired s.pool

module _ (p j tid obj : ℕ) (s : State) where
  flush-held : (t : State) → held_by p j (bump_cntr tid (flush tid t)) ≡ held_by p j t
  unfolding flush empty bump_cntr
  flush-held t = elim (Bool-cases (t.cntrs tid == t.empty_freq)) [
    | inl full ↦ rw full (held-swept (λ x. x) p j tid t.retired t.pool _)
    | inr room ↦ rw room
  ]

  -- Retiring a non-NULL object adds one to the number of times that it stands in the retired list
  -- or the pool of the retiring thread, and leaves that number as it was for every other object
  -- and thread.
  pub retire-held_hp :
      obj ≢ 0
      → held_by p j (retire tid obj s) ≡ held_by p j s + (if tid == j && p == obj then 1 else 0)
  unfolding retire
  retire-held_hp ne =
      let e : (obj == 0) ≡ false = ground arith in
      rw (e, flush-held (push_retired tid obj s))
        (unfold push_retired in (held-pushed (λ x. x) p j tid s.retired s.pool obj))

-- If in some round below the fuel both loads of the location give the same pointer, read returns.
pub read-returns_hp :
    (fuel tid idx rounds : ℕ) (loads : ℕ → ℕ) (s : State)
    → loads (2 * rounds) ≡ loads (2 * rounds + 1)
    → rounds < fuel
    → (ret : ℕ) × (t : State) × (read fuel tid idx loads s ≡ some (ret, t))
unfolding read
read-returns_hp fuel tid idx rounds loads s stable lt =
    let from_zero : 0 + 2 * rounds ≡ 2 * rounds = omega arith in
    let (r, e) =
      read_loop_ends (λ ptr. reserve ptr idx tid) fuel loads 0 rounds s (rw from_zero stable) lt in
    (r.0, r.1, e)
