-- ===== src/Reclaim/He/Reserve.antt =====
-- An object with an era of its lifetime in a slot is not freed.
use pop_setbench.Base.{
  ℕ, suc, ◌+◌, ◌*◌, ◌%◌, ◌≤◌, ◌<◌, ◌≡◌, ◌≢◌, ◌∙◌, inl, inr, List, [], ◌∷◌, arith, false, Option,
  none, some, ◌==◌, Bool-cases, Option-cases, length, In, u64_mod, u64_max, ℕ_discrete, ==_iff,
  ==_refl,
}
use pop_setbench.Reclaim.Sweep.{In-kept}
use pop_setbench.Reclaim.Bags.{In-pushed_bag, In-pushed_bag_self}
use pop_setbench.Reclaim.Eras.{
  IntervalInfo, interval_info, era_loop, era_loop_validated, era_loop_ends,
}
use pop_setbench.Reclaim.He.{
  State, end_op, update_alloc_counter_and_epoch, reserve_era, read, freeable_loop, scan, empty,
  push_retired, flush, retire,
}
use pop_setbench.Reclaim.He.Scan.{scan_at, is_freeable_of_era}
use pop_setbench.Reclaim.He.Run.{
  Op, ends, allocs, reads, retires, exec, run, Spares, Frame, exec-Frame,
}

-- Slot `idx` of thread `i` holds an era of the lifetime of `x`.
pub record Pins (i idx : ℕ) (x : IntervalInfo) (s : State) : Type 0 where
  pub in_range : i < s.num_process
  pub in_width : idx < s.num_he
  pub reserved : 0 < s.reservations i idx
  pub born : x.birth_epoch ≤ s.reservations i idx
  pub alive : s.reservations i idx ≤ x.retire_epoch

Pins-Frame :
    (i idx : ℕ) (x : IntervalInfo) (s t : State) → Frame i idx s t → Pins i idx x s → Pins i idx x t
Pins-Frame i idx x s t f g = record {
  in_range = rw f.same_size g.in_range;
  in_width = rw f.same_width g.in_width;
  reserved = rw f.same_era g.reserved;
  born = rw f.same_era g.born;
  alive = rw f.same_era g.alive;
}

Pins-not_freeable :
    (i idx : ℕ) (x : IntervalInfo) (s : State) (junk : ℕ → ℕ)
    → Pins i idx x s
    → freeable_loop
        (s.num_process * s.num_he)
        (scan s.num_process s.num_he s.reservations junk)
        x.birth_epoch
        x.retire_epoch
      ≡ false
Pins-not_freeable i idx x s junk g =
    let k = s.num_he in
    let scanned = scan s.num_process k s.reservations junk in
    let at = scan_at s.num_process k s.reservations junk i idx g.in_range g.in_width in
    is_freeable_of_era (s.num_process * k) scanned x.birth_epoch x.retire_epoch (i * k + idx)
      (below s.num_process k i idx g.in_range g.in_width) (rw at g.reserved) (rw at g.born)
      (rw at g.alive)
  where
    below : (n k i j : ℕ) → i < n → j < k → i * k + j < n * k
    below n k i j li lj = let h : suc i * k ≤ n * k = grind arith in grind arith

module _ (globals : ℕ → ℕ) (i idx j : ℕ) (x : IntervalInfo) (own : globals j ≡ j) where
  pub empty-keeps :
      (tid : ℕ) (s : State)
      → Pins i idx x s
      → In x (s.retired j)
      → In x ((empty globals tid s).retired j)
  unfolding empty
  empty-keeps tid s g m = elim (Bool-cases (tid == j)) [
    | inr other ↦ rw other m
    | inl same ↦
        let at : tid ≡ j = (==_iff tid j).0 same in
        let pinned = Pins-not_freeable i idx x s (s.scanned_hes j) g in
        rw (at, own, ==_refl j) (In-kept _ x (s.retired j) m pinned)
  ]

  flush-keeps :
      (tid : ℕ) (s : State)
      → Pins i idx x s
      → In x (s.retired j)
      → In x ((flush globals tid s).retired j)
  unfolding flush
  flush-keeps tid s g m = elim (Bool-cases (s.retire_counters tid % s.freq == 0)) [
    | inl full ↦ rw full (empty-keeps tid s g m)
    | inr room ↦ rw room m
  ]

  push-Pins : (tid obj b : ℕ) (s : State) → Pins i idx x s → Pins i idx x (push_retired tid obj b s)
  unfolding push_retired
  push-Pins tid obj b s g = record {
    in_range = g.in_range;
    in_width = g.in_width;
    reserved = g.reserved;
    born = g.born;
    alive = g.alive;
  }

  retire-pushes :
      (tid obj b : ℕ) (s : State)
      → obj ≢ 0
      → Pins i idx x s
      → In x ((push_retired tid obj b s).retired j)
      → In x ((retire globals tid obj b s).retired j)
  unfolding retire
  retire-pushes tid obj b s ne g m =
      let e : (obj == 0) ≡ false = ground arith in
      rw e (flush-keeps tid (push_retired tid obj b s) (push-Pins tid obj b s g) m)

  retire-keeps :
      (tid obj b : ℕ) (s : State)
      → Pins i idx x s
      → In x (s.retired j)
      → In x ((retire globals tid obj b s).retired j)
  retire-keeps tid obj b s g m = elim (ℕ_discrete obj 0) [
    | yes null ↦ unfold retire in (rw null m)
    | no ne ↦
        retire-pushes tid obj b s ne g
          (unfold push_retired in (In-pushed_bag x (interval_info obj b s.epoch) j tid s.retired m))
  ]

  exec-keeps :
      (o : Op) (s : State)
      → Pins i idx x s
      → In x (s.retired j)
      → In x ((exec globals o s).retired j)
  unfolding exec end_op update_alloc_counter_and_epoch reserve_era
  exec-keeps (ends tid) s g m = m
  exec-keeps (allocs tid) s g m =
      elim (Bool-cases
        ((s.alloc_counters tid + 1) % u64_mod % (s.epoch_freq * s.num_process) == 0)) [
          | inl t ↦ rw t m
          | inr f ↦ rw f m
        ]
  exec-keeps (reads tid idx' e) s g m = m
  exec-keeps (retires tid obj b) s g m = retire-keeps tid obj b s g m

  run-keeps :
      (os : List Op) (s : State)
      → Spares i idx os
      → Pins i idx x s
      → In x (s.retired j)
      → In x ((run globals os s).retired j)
  unfolding run
  run-keeps [] s sp g m = m
  run-keeps (o ∷ os) s sp g m =
      run-keeps os (exec globals o s) sp.1
        (Pins-Frame i idx x s (exec globals o s) (exec-Frame globals o i idx s sp.0) g)
        (exec-keeps o s g m)

run-Frame :
    (globals : ℕ → ℕ) (os : List Op) (i idx : ℕ) (s : State)
    → Spares i idx os
    → s.epoch + length os < u64_max
    → ((run globals os s).num_process ≡ s.num_process)
      × ((run globals os s).num_he ≡ s.num_he)
      × ((run globals os s).reservations i idx ≡ s.reservations i idx)
      × (s.epoch ≤ (run globals os s).epoch)
unfolding run
run-Frame globals [] i idx s sp b = omega arith
run-Frame globals (o ∷ os) i idx s sp b =
    let f = exec-Frame globals o i idx s sp.0 in
    let g : s.epoch ≤ (exec globals o s).epoch = f.grows (omega arith) in
    let w : (exec globals o s).epoch ≤ s.epoch + 1 = f.slowly (omega arith) in
    let (a, l, u, e) = run-Frame globals os i idx (exec globals o s) sp.1 (omega arith) in
    (a ∙ f.same_size, l ∙ f.same_width, u ∙ f.same_era, omega arith)

push_retired-enters :
    (j p b : ℕ) (s : State) → In (interval_info p b s.epoch) ((push_retired j p b s).retired j)
unfolding push_retired
push_retired-enters j p b s = In-pushed_bag_self (interval_info p b s.epoch) j s.retired

stays :
    (globals : ℕ → ℕ) (t : State) (i idx j p b : ℕ) (before after : List Op)
    → globals j ≡ j
    → i < t.num_process
    → idx < t.num_he
    → 0 < t.reservations i idx
    → b ≤ t.reservations i idx
    → t.reservations i idx ≤ t.epoch
    → Spares i idx before
    → Spares i idx after
    → t.epoch + length before < u64_max
    → p ≢ 0
    → In
        (interval_info p b (run globals before t).epoch)
        ((run globals after (retire globals j p b (run globals before t))).retired j)
stays globals t i idx j p b before after own lt li pos born low sb sa bound ne =
    let u = run globals before t in
    let x = interval_info p b u.epoch in
    let (np, wi, er, ep) = run-Frame globals before i idx t sb bound in
    let g : Pins i idx x u = record {
      in_range = rw np lt;
      in_width = rw wi li;
      reserved = rw er pos;
      born = rw er born;
      alive = omega arith;
    } in
    let f : Frame i idx u (retire globals j p b u) =
      unfold exec in (exec-Frame globals (retires j p b) i idx u tt) in
    run-keeps globals i idx j x own after (retire globals j p b u) sa
      (Pins-Frame i idx x u (retire globals j p b u) f g)
      (retire-pushes globals i idx j x own j p b u ne g (push_retired-enters j p b u))

-- Thread i calls read for its slot idx, which returns the pointer ret on some fuel; the epochs that
-- it loads are positive and at most the global epoch at its end. Then a non-NULL object p is
-- retired, which was born no later than any epoch that a round of that read loaded after it had
-- loaded ret. If the other calls do not write that slot of i, p stays in the retired list of the
-- retiring thread, provided that the thread-local tid of that thread has the number under which it
-- calls retire. (i and idx are in range, and the calls before the retirement are too few to bring
-- the epoch to UINT64_MAX.)
pub read_then_retire_he :
    (globals : ℕ → ℕ) (s t : State) (fuel i idx j p b ret : ℕ) (loads eras : ℕ → ℕ)
    (before after : List Op)
    → globals j ≡ j
    → i < s.num_process
    → idx < s.num_he
    → read fuel i idx loads eras s ≡ some (ret, t)
    → ((m : ℕ) → (0 < eras m) × (eras m ≤ s.epoch))
    → ((m : ℕ) → loads m ≡ ret → b ≤ eras m)
    → Spares i idx before
    → Spares i idx after
    → s.epoch + length before < u64_max
    → p ≢ 0
    → In
        (interval_info p b (run globals before t).epoch)
        ((run globals after (retire globals j p b (run globals before t))).retired j)
read_then_retire_he globals s t fuel i idx j p b ret loads eras before after own lt li h past old sb
      sa bound ne =
    elim (Option-cases (era_loop fuel loads eras (s.reservations i idx) 0)) [
      | inl e ↦
          let h' : ◌≡◌ {A = Option (ℕ × State)} none (some (ret, t)) =
            unfold read in (rw (e, read) at h) in
          absurd (cc)
      | inr (r, e) ↦
          let h' : ◌≡◌ {A = Option (ℕ × State)} (some (r.ret, reserve_era i idx r.era s))
              (some (ret, t)) =
            unfold read in (rw (e, read) at h) in
          let (m, _, a, c) = era_loop_validated fuel loads eras (s.reservations i idx) 0 r e in
          let same_ret : r.ret ≡ ret = cc in
          let same_t : reserve_era i idx r.era s ≡ t = cc in
          let (np, wi, er, ep) : (t.num_process ≡ s.num_process)
              × (t.num_he ≡ s.num_he)
              × (t.reservations i idx ≡ r.era)
              × (t.epoch ≡ s.epoch) =
            rw (← same_t) (unfold reserve_era in ground arith) in
          let born : b ≤ eras m = old m (a ∙ same_ret) in
          let now = past m in
          stays globals t i idx j p b before after own (rw np lt) (rw wi li) (omega arith)
            (omega arith) (omega arith) sb sa (omega arith) ne
    ]

-- If two successive rounds, both below the fuel, see the same epoch, read returns.
pub read-returns_he :
    (fuel tid idx rounds : ℕ) (loads eras : ℕ → ℕ) (s : State)
    → eras rounds ≡ eras (rounds + 1)
    → rounds + 1 < fuel
    → (ret : ℕ) × (t : State) × (read fuel tid idx loads eras s ≡ some (ret, t))
unfolding read
read-returns_he fuel tid idx rounds loads eras s stable lt =
    let from_zero : 0 + rounds ≡ rounds = omega arith in
    let (r, e) =
      era_loop_ends fuel loads eras (s.reservations tid idx) 0 rounds (rw from_zero stable) lt in
    (r.ret, reserve_era tid idx r.era s, rw (e, read))
