-- ===== src/Reclaim/Ibr/Reserve.antt =====
-- An object whose lifetime meets a reserved interval is not freed.
use pop_setbench.Base.{
  ℕ, zero, suc, ◌+◌, ◌*◌, ◌%◌, ◌≤◌, ◌<◌, ◌≡◌, ◌≢◌, ◌∙◌, inl, inr, List, [], ◌∷◌, arith, true, false,
  Option, none, some, ◌==◌, Bool-cases, Option-cases, length, In, u64_mod, u64_max, ℕ_discrete,
  lt-suc_cases, ◌&&◌, leb,
}
use pop_setbench.Reclaim.Bags.{In-pushed_bag, In-pushed_bag_self, In-swept_bag}
use pop_setbench.Reclaim.Eras.{
  IntervalInfo, interval_info, era_loop, era_loop_validated, era_loop_ends,
}
use pop_setbench.Reclaim.Ibr.{
  State, start_op, end_op, update_alloc_counter_and_epoch, reserve_upper, read, conflict, empty,
  push_retired, flush, retire,
}
use pop_setbench.Reclaim.Ibr.Run.{
  Op, starts, ends, allocs, reads, retires, exec, run, Spares, Frame, exec-Frame,
}

pub conflict_of_meet :
    (n : ℕ) (lower upper : ℕ → ℕ) (b r i : ℕ)
    → i < n
    → b ≤ upper i
    → lower i ≤ r
    → conflict n lower upper b r ≡ true
unfolding conflict
conflict_of_meet zero lower upper b r i lt hb hr = elim lt [ ]
conflict_of_meet (suc n) lower upper b r i lt hb hr = elim (lt-suc_cases i n lt) [
  | inl below ↦ ground (arith, conflict_of_meet n lower upper b r i below hb hr)
  | inr e ↦
      let hb' : b ≤ upper n = rw (← e) hb in let hr' : lower n ≤ r = rw (← e) hr in ground arith
]

pub meet_of_conflict :
    (n : ℕ) (lower upper : ℕ → ℕ) (b r : ℕ)
    → conflict n lower upper b r ≡ true
    → (i : ℕ) × (i < n) × (b ≤ upper i) × (lower i ≤ r)
unfolding conflict
meet_of_conflict zero lower upper b r h = cc
meet_of_conflict (suc n) lower upper b r h =
    elim (Bool-cases (leb b (upper n) && leb (lower n) r)) [
      | inl t ↦ (n, omega arith, ground arith, ground arith)
      | inr f ↦
          let (i, lt, hb, hr) = meet_of_conflict n lower upper b r (rw f at h) in
          (i, omega arith, hb, hr)
    ]

-- The lifetime of `x` meets the interval that thread `i` has reserved.
record Meets (i : ℕ) (x : IntervalInfo) (s : State) : Type 0 where
  in_range : i < s.num_process
  born : x.birth_epoch ≤ s.upper_reservs i
  alive : s.lower_reservs i ≤ x.retire_epoch

Meets-Frame : (i : ℕ) (x : IntervalInfo) (s t : State) → Frame i s t → Meets i x s → Meets i x t
Meets-Frame i x s t f g = record {
  in_range = rw f.same_size g.in_range;
  born = rw f.same_upper g.born;
  alive = rw f.same_lower g.alive;
}

module _ (i j : ℕ) (x : IntervalInfo) where
  empty-keeps :
      (tid : ℕ) (s : State) → Meets i x s → In x (s.retired j) → In x ((empty tid s).retired j)
  unfolding empty
  empty-keeps tid s g m = In-swept_bag _ x j tid s.retired m (
      rw (
        conflict_of_meet s.num_process s.lower_reservs s.upper_reservs x.birth_epoch x.retire_epoch
          i g.in_range g.born g.alive))

  flush-keeps :
      (tid : ℕ) (s : State) → Meets i x s → In x (s.retired j) → In x ((flush tid s).retired j)
  unfolding flush
  flush-keeps tid s g m = elim (Bool-cases (s.retire_counters tid % s.freq == 0)) [
    | inl full ↦ rw full (empty-keeps tid s g m)
    | inr room ↦ rw room m
  ]

  push-Meets : (tid obj b : ℕ) (s : State) → Meets i x s → Meets i x (push_retired tid obj b s)
  unfolding push_retired
  push-Meets tid obj b s g = record { in_range = g.in_range; born = g.born; alive = g.alive }

  retire-pushes :
      (tid obj b : ℕ) (s : State)
      → obj ≢ 0
      → Meets i x s
      → In x ((push_retired tid obj b s).retired j)
      → In x ((retire tid obj b s).retired j)
  unfolding retire
  retire-pushes tid obj b s ne g m =
      let e : (obj == 0) ≡ false = ground arith in
      rw e (flush-keeps tid (push_retired tid obj b s) (push-Meets tid obj b s g) m)

  retire-keeps :
      (tid obj b : ℕ) (s : State)
      → Meets i x s
      → In x (s.retired j)
      → In x ((retire tid obj b s).retired j)
  retire-keeps tid obj b s g m = elim (ℕ_discrete obj 0) [
    | yes null ↦ unfold retire in (rw null m)
    | no ne ↦
        retire-pushes tid obj b s ne g
          (unfold push_retired in (In-pushed_bag x (interval_info obj b s.epoch) j tid s.retired m))
  ]

  exec-keeps : (o : Op) (s : State) → Meets i x s → In x (s.retired j) → In x ((exec o s).retired j)
  unfolding exec start_op end_op update_alloc_counter_and_epoch reserve_upper
  exec-keeps (starts tid) s g m = m
  exec-keeps (ends tid) s g m = m
  exec-keeps (allocs tid) s g m =
      elim (Bool-cases
        ((s.alloc_counters tid + 1) % u64_mod % (s.epoch_freq * s.num_process) == 0)) [
          | inl t ↦ rw t m
          | inr f ↦ rw f m
        ]
  exec-keeps (reads tid e) s g m = m
  exec-keeps (retires tid obj b) s g m = retire-keeps tid obj b s g m

  run-keeps :
      (os : List Op) (s : State)
      → Spares i os
      → Meets i x s
      → In x (s.retired j)
      → In x ((run os s).retired j)
  unfolding run
  run-keeps [] s sp g m = m
  run-keeps (o ∷ os) s sp g m =
      run-keeps os (exec o s) sp.1 (Meets-Frame i x s (exec o s) (exec-Frame o i s sp.0) g)
        (exec-keeps o s g m)

run-Frame :
    (os : List Op) (i : ℕ) (s : State)
    → Spares i os
    → s.epoch + length os < u64_max
    → ((run os s).num_process ≡ s.num_process)
      × ((run os s).lower_reservs i ≡ s.lower_reservs i)
      × ((run os s).upper_reservs i ≡ s.upper_reservs i)
      × (s.epoch ≤ (run os s).epoch)
unfolding run
run-Frame [] i s sp b = omega arith
run-Frame (o ∷ os) i s sp b =
    let f = exec-Frame o i s sp.0 in
    let g : s.epoch ≤ (exec o s).epoch = f.grows (omega arith) in
    let w : (exec o s).epoch ≤ s.epoch + 1 = f.slowly (omega arith) in
    let (a, l, u, e) = run-Frame os i (exec o s) sp.1 (omega arith) in
    (a ∙ f.same_size, l ∙ f.same_lower, u ∙ f.same_upper, omega arith)

push_retired-enters :
    (j p b : ℕ) (s : State) → In (interval_info p b s.epoch) ((push_retired j p b s).retired j)
unfolding push_retired
push_retired-enters j p b s = In-pushed_bag_self (interval_info p b s.epoch) j s.retired

-- Thread i, whose lower reservation is at most the global epoch, calls read, which returns the
-- pointer ret on some fuel. Then a non-NULL object p is retired, which was born no later than any
-- epoch that a round of that read loaded after it had loaded ret. If the other calls leave the
-- reservation of i alone, p stays in the retired list of the retiring thread. (i is below
-- num_process, and the calls before the retirement are too few to bring the epoch to UINT64_MAX.)
pub read_then_retire :
    (s t : State) (fuel i j p b ret : ℕ) (loads eras : ℕ → ℕ) (before after : List Op)
    → i < s.num_process
    → s.lower_reservs i ≤ s.epoch
    → read fuel i loads eras s ≡ some (ret, t)
    → ((m : ℕ) → loads m ≡ ret → b ≤ eras m)
    → Spares i before
    → Spares i after
    → s.epoch + length before < u64_max
    → p ≢ 0
    → In
        (interval_info p b (run before t).epoch)
        ((run after (retire j p b (run before t))).retired j)
read_then_retire s t fuel i j p b ret loads eras before after lt low h old sb sa bound ne =
    elim (Option-cases (era_loop fuel loads eras (s.upper_reservs i) 0)) [
      | inl e ↦
          let h' : ◌≡◌ {A = Option (ℕ × State)} none (some (ret, t)) =
            unfold read in (rw (e, read) at h) in
          absurd (cc)
      | inr (r, e) ↦
          let h' : ◌≡◌ {A = Option (ℕ × State)} (some (r.ret, reserve_upper i r.era s))
              (some (ret, t)) =
            unfold read in (rw (e, read) at h) in
          let (m, _, a, c) = era_loop_validated fuel loads eras (s.upper_reservs i) 0 r e in
          let same_ret : r.ret ≡ ret = cc in
          let same_t : reserve_upper i r.era s ≡ t = cc in
          let (np, lo, up, ep) : (t.num_process ≡ s.num_process)
              × (t.lower_reservs i ≡ s.lower_reservs i)
              × (t.upper_reservs i ≡ r.era)
              × (t.epoch ≡ s.epoch) =
            rw (← same_t) (unfold reserve_upper in ground arith) in
          let born : b ≤ eras m = old m (a ∙ same_ret) in
          stays t i j p b before after (rw np lt) (omega arith) (omega arith) sb sa (omega arith) ne
    ]
  where
    stays :
        (t : State) (i j p b : ℕ) (before after : List Op)
        → i < t.num_process
        → b ≤ t.upper_reservs i
        → t.lower_reservs i ≤ t.epoch
        → Spares i before
        → Spares i after
        → t.epoch + length before < u64_max
        → p ≢ 0
        → In
            (interval_info p b (run before t).epoch)
            ((run after (retire j p b (run before t))).retired j)
    stays t i j p b before after lt born low sb sa bound ne =
        let u = run before t in
        let x = interval_info p b u.epoch in
        let (np, lo, up, ep) = run-Frame before i t sb bound in
        let g : Meets i x u = record {
          in_range = rw np lt;
          born = rw up born;
          alive = omega arith;
        } in
        let f : Frame i u (retire j p b u) = unfold exec in (exec-Frame (retires j p b) i u tt) in
        run-keeps i j x after (retire j p b u) sa (Meets-Frame i x u (retire j p b u) f g)
          (retire-pushes i j x j p b u ne g (push_retired-enters j p b u))

-- If two successive rounds, both below the fuel, see the same epoch, read returns.
pub read-returns_ibr :
    (fuel tid rounds : ℕ) (loads eras : ℕ → ℕ) (s : State)
    → eras rounds ≡ eras (rounds + 1)
    → rounds + 1 < fuel
    → (ret : ℕ) × (t : State) × (read fuel tid loads eras s ≡ some (ret, t))
unfolding read
read-returns_ibr fuel tid rounds loads eras s stable lt =
    let from_zero : 0 + rounds ≡ rounds = omega arith in
    let (r, e) =
      era_loop_ends fuel loads eras (s.upper_reservs tid) 0 rounds (rw from_zero stable) lt in
    (r.ret, reserve_upper tid r.era s, rw (e, read))
