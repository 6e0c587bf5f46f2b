-- ===== src/Reclaim/Qsbr/Quiesce.antt =====
-- What is retired after the last quiescent state of a thread outlives its operation, but for the
-- first operation of the thread.
use pop_setbench.Base.{
  ℕ, ◌+◌, ◌*◌, ◌%◌, ◌≤◌, ◌<◌, ◌≡◌, ◌≢◌, inl, inr, List, [], ◌∷◌, arith, false, ◌==◌, ==_refl, ◌&&◌,
  if◌then◌else◌, Bool-cases, length, In, In-append_right, u64_mod, u64_max, ℕ_discrete,
}
use pop_setbench.Reclaim.Sweep.{In-freed, In-map}
use pop_setbench.Reclaim.Bags.{
  In-pushed_bag, In-pushed_bag_self, In-swept_bag, held, held-swept, held-pushed,
}
use pop_setbench.Reclaim.Epochs.{RcuInfo, rcu_info, min_epoch-le, lt-min_epoch}
use pop_setbench.Reclaim.Qsbr.{
  State, create, start_op, end_op, update_alloc_counter_and_epoch, empty, push_retired, flush,
  retire,
}
use pop_setbench.Reclaim.Qsbr.Run.{
  Op, starts, ends, allocs, retires, exec, run, Spares, Frame, exec-Frame, run-reservation,
}

-- The last quiescent state of thread `i` was no later than `x`'s stamp.
record Pins (i : ℕ) (x : RcuInfo) (s : State) : Type 0 where
  in_range : i < s.num_process
  announced : s.reservations i ≤ x.epoch

Pins-Frame : (i : ℕ) (x : RcuInfo) (s t : State) → Frame i s t → Pins i x s → Pins i x t
Pins-Frame i x s t f g = record {
  in_range = rw f.same_size g.in_range;
  announced = rw f.same_reservation g.announced;
}

module _ (i j : ℕ) (x : RcuInfo) where
  empty-keeps :
      (tid : ℕ) (s : State) → Pins i x s → In x (s.retired j) → In x ((empty tid s).retired j)
  unfolding empty
  empty-keeps tid s g m =
      In-swept_bag _ x j tid s.retired m
        (ground (arith, g.announced, min_epoch-le s.num_process s.reservations i g.in_range))

  flush-keeps :
      (tid : ℕ) (s : State) → Pins i x s → In x (s.retired j) → In x ((flush tid s).retired j)
  unfolding flush
  flush-keeps tid s g m = elim (Bool-cases (s.retire_counters tid % s.empty_freq == 0)) [
    | inl full ↦ rw full (empty-keeps tid s g m)
    | inr room ↦ rw room m
  ]

  push-Pins : (tid obj : ℕ) (s : State) → Pins i x s → Pins i x (push_retired tid obj s)
  unfolding push_retired
  push-Pins tid obj s g = record { in_range = g.in_range; announced = g.announced }

  retire-pushes :
      (tid obj : ℕ) (s : State)
      → obj ≢ 0
      → Pins i x s
      → In x ((push_retired tid obj s).retired j)
      → In x ((retire tid obj s).retired j)
  unfolding retire
  retire-pushes tid obj s ne g m =
      let e : (obj == 0) ≡ false = ground arith in
      rw e (flush-keeps tid (push_retired tid obj s) (push-Pins tid obj s g) m)

  retire-keeps :
      (tid obj : ℕ) (s : State)
      → Pins i x s
      → In x (s.retired j)
      → In x ((retire tid obj s).retired j)
  retire-keeps tid obj s g m = elim (ℕ_discrete obj 0) [
    | yes null ↦ unfold retire in (rw null m)
    | no ne ↦
        retire-pushes tid obj s ne g
          (unfold push_retired in (In-pushed_bag x (rcu_info obj s.epoch) j tid s.retired m))
  ]

  exec-keeps : (o : Op) (s : State) → Pins i x s → In x (s.retired j) → In x ((exec o s).retired j)
  unfolding exec start_op end_op update_alloc_counter_and_epoch
  exec-keeps (starts tid) s g m = m
  exec-keeps (ends tid) s g m = m
  exec-keeps (allocs tid) s g m =
      elim (Bool-cases
        ((s.alloc_counters tid + 1) % u64_mod % (s.epoch_freq * s.num_process) == 0)) [
          | inl t ↦ rw t m
          | inr f ↦ rw f m
        ]
  exec-keeps (retires tid obj) s g m = retire-keeps tid obj s g m

  run-keeps :
      (os : List Op) (s : State)
      → Spares i os
      → Pins i x s
      → In x (s.retired j)
      → In x ((run os s).retired j)
  unfolding run
  run-keeps [] s sp g m = m
  run-keeps (o ∷ os) s sp g m =
      run-keeps os (exec o s) sp.1 (Pins-Frame i x s (exec o s) (exec-Frame o i s sp.0) g)
        (exec-keeps o s g m)

run-epoch :
    (os : List Op) (i : ℕ) (s : State)
    → Spares i os
    → s.epoch + length os < u64_max
    → s.epoch ≤ (run os s).epoch
unfolding run
run-epoch [] i s sp b = omega arith
run-epoch (o ∷ os) i s sp b =
    let f = exec-Frame o i s sp.0 in
    let g : s.epoch ≤ (exec o s).epoch = f.grows (omega arith) in
    let w : (exec o s).epoch ≤ s.epoch + 1 = f.slowly (omega arith) in
    omega (arith, run-epoch os i (exec o s) sp.1 (omega arith))

push_retired-enters :
    (j p : ℕ) (s : State) → In (rcu_info p s.epoch) ((push_retired j p s).retired j)
unfolding push_retired
push_retired-enters j p s = In-pushed_bag_self (rcu_info p s.epoch) j s.retired

-- Thread i ends an operation; threads run, and some thread j retires the non-NULL object p; threads
-- run on, and i ends no further operation in either history, whatever it starts. Then p is still in
-- the retired list of j with its stamp. (i is below num_process, and the calls before the retirement
-- are too few to bring the epoch to UINT64_MAX.)
pub outlives_operation :
    (s : State) (i j p : ℕ) (before after : List Op)
    → i < s.num_process
    → Spares i before
    → Spares i after
    → s.epoch + length before < u64_max
    → p ≢ 0
    → In
        (rcu_info p (run before (end_op i s)).epoch)
        ((run after (retire j p (run before (end_op i s)))).retired j)
outlives_operation s i j p before after lt sb sa b ne =
    let s1 = end_op i s in
    let u = run before s1 in
    let x = rcu_info p u.epoch in
    let (np, ep, re) : (s1.num_process ≡ s.num_process)
        × (s1.epoch ≡ s.epoch)
        × (s1.reservations i ≡ s.epoch) =
      unfold end_op in ground arith in
    let (n, r) = run-reservation before i s1 sb in
    let up : s1.epoch ≤ u.epoch = run-epoch before i s1 sb (omega arith) in
    let g : Pins i x u = record { in_range = omega arith; announced = omega arith } in
    let f : Frame i u (retire j p u) = unfold exec in (exec-Frame (retires j p) i u tt) in
    run-keeps i j x after (retire j p u) sa (Pins-Frame i x u (retire j p u) f g)
      (retire-pushes i j x j p u ne g (push_retired-enters j p u))

empty-frees :
    (tid : ℕ) (s : State) (x : RcuInfo)
    → In x (s.retired tid)
    → x.epoch < u64_max
    → ((i : ℕ) → i < s.num_process → x.epoch < s.reservations i)
    → In x.obj ((empty tid s).pool tid)
unfolding empty
empty-frees tid s x m small young =
    let e = ==_refl tid in
    let young' = lt-min_epoch s.num_process s.reservations x.epoch small young in
    rw e (
      In-append_right x.obj (s.pool tid) _
        (In-map (λ y. y.obj) x _ (In-freed _ x (s.retired tid) m (ground arith))))

-- From the constructor on, thread i ends no operation, so it may be inside its first. An entry of
-- the bag of tid (stamped below UINT64_MAX) that the reservations of all threads but i are younger
-- than is handed to the pool all the same.
pub first_operation_unprotected :
    (n i tid : ℕ) (os : List Op) (x : RcuInfo)
    → Spares i os
    → In x ((run os (create n)).retired tid)
    → x.epoch < u64_max
    → ((k : ℕ) → k < n → k ≢ i → x.epoch < (run os (create n)).reservations k)
    → In x.obj ((empty tid (run os (create n))).pool tid)
unfolding create
first_operation_unprotected n i tid os x sp m small young =
    let (np, re) = run-reservation os i (create n) sp in
    empty-frees tid (run os (create n)) x m small (λ k lt. elim (ℕ_discrete k i) [
      | yes e ↦ rw (e, re) small
      | no ne ↦ young k (rw np at lt) ne
    ])

-- How often the address `p` stands in the bag and the pool of thread `j`.
abbrev pub held_by : ℕ → ℕ → State → ℕ
held_by p j s = held (λ x. x.obj) p j s.retired s.pool

module _ (p j tid obj : ℕ) (s : State) where
  flush-held : (t : State) → held_by p j (flush tid t) ≡ held_by p j t
  unfolding flush empty
  flush-held t = elim (Bool-cases (t.retire_counters tid % t.empty_freq == 0)) [
    | inl full ↦ rw full (held-swept (λ x. x.obj) p j tid t.retired t.pool _)
    | inr room ↦ rw room
  ]

  -- Retiring a non-NULL object adds one to the number of times that it stands in the retired list
  -- or the pool of the retiring thread, and leaves that number as it was for every other object
  -- and thread.
  pub retire-held_qsbr :
      obj ≢ 0
      → held_by p j (retire tid obj s) ≡ held_by p j s + (if tid == j && p == obj then 1 else 0)
  unfolding retire
  retire-held_qsbr ne =
      let e : (obj == 0) ≡ false = ground arith in
      rw (e, flush-held (push_retired tid obj s))
        (unfold push_retired in
          (held-pushed (λ x. x.obj) p j tid s.retired s.pool (rcu_info obj s.epoch)))
