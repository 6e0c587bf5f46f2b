-- ===== src/Reclaim/Rcu/Grace.antt =====
-- The grace period: what is retired while an operation is under way outlives it.
use pop_setbench.Base.{
  ℕ, ◌+◌, ◌*◌, ◌%◌, ◌≤◌, ◌<◌, ◌≡◌, ◌≢◌, inl, inr, List, [], ◌∷◌, arith, false, ◌==◌, if◌then◌else◌,
  Bool-cases, length, In, u64_mod, u64_max, ℕ_discrete,
}
use pop_setbench.Reclaim.Bags.{In-pushed_bag, In-pushed_bag_self, In-swept_bag}
use pop_setbench.Reclaim.Epochs.{RcuInfo, rcu_info, min_epoch-le}
use pop_setbench.Reclaim.Rcu.{
  State, start_op, end_op, update_alloc_counter_and_epoch, empty, push_retired, retire,
}
use pop_setbench.Reclaim.Rcu.Run.{
  Op, starts, ends, allocs, retires, exec, run, Spares, Frame, exec-Frame,
}

-- Thread `i` is inside an operation that no later epoch than `x`'s stamp has started.
module _ (i j : ℕ) (x : RcuInfo) where
  empty-keeps :
      (tid : ℕ) (s : State)
      → i < s.num_process
      → s.reservations i ≤ x.epoch
      → In x (s.retired j)
      → In x ((empty tid s).retired j)
  unfolding empty
  empty-keeps tid s lt h m =
      In-swept_bag _ x j tid s.retired m
        (ground (arith, min_epoch-le s.num_process s.reservations i lt))

  push-keeps :
      (tid obj : ℕ) (s : State) → In x (s.retired j) → In x ((push_retired tid obj s).retired j)
  unfolding push_retired
  push-keeps tid obj s m = In-pushed_bag x (rcu_info obj s.epoch) j tid s.retired m

  -- The test behind the push, and `empty` if it holds.
  flush-keeps :
      (tid : ℕ) (s : State)
      → i < s.num_process
      → s.reservations i ≤ x.epoch
      → In x (s.retired j)
      → In x ((if s.retire_counters tid % s.empty_freq == 0 then empty tid s else s).retired j)
  flush-keeps tid s lt h m = elim (Bool-cases (s.retire_counters tid % s.empty_freq == 0)) [
    | inl full ↦ rw full (empty-keeps tid s lt h m)
    | inr room ↦ rw room m
  ]

  retire-pushes :
      (tid obj : ℕ) (s : State)
      → obj ≢ 0
      → i < s.num_process
      → s.reservations i ≤ x.epoch
      → In x ((push_retired tid obj s).retired j)
      → In x ((retire tid obj s).retired j)
  unfolding retire push_retired
  retire-pushes tid obj s ne lt h m =
      let e : (obj == 0) ≡ false = ground arith in
      rw e (flush-keeps tid (push_retired tid obj s) lt h m)

  retire-keeps :
      (tid obj : ℕ) (s : State)
      → i < s.num_process
      → s.reservations i ≤ x.epoch
      → In x (s.retired j)
      → In x ((retire tid obj s).retired j)
  retire-keeps tid obj s lt h m = elim (ℕ_discrete obj 0) [
    | yes null ↦ unfold retire in (rw null m)
    | no ne ↦ retire-pushes tid obj s ne lt h (push-keeps tid obj s m)
  ]

  exec-keeps :
      (o : Op) (s : State)
      → i < s.num_process
      → s.reservations i ≤ x.epoch
      → In x (s.retired j)
      → In x ((exec o s).retired j)
  unfolding exec start_op end_op update_alloc_counter_and_epoch
  exec-keeps (starts tid) s lt h m = m
  exec-keeps (ends tid) s lt h m = m
  exec-keeps (allocs tid) s lt h m =
      elim (Bool-cases
        ((s.alloc_counters tid + 1) % u64_mod % (s.epoch_freq * s.num_process) == 0)) [
          | inl t ↦ rw t m
          | inr f ↦ rw f m
        ]
  exec-keeps (retires tid obj) s lt h m = retire-keeps tid obj s lt h m

  run-keeps :
      (os : List Op) (s : State)
      → Spares i os
      → s.epoch + length os < u64_max
      → i < s.num_process
      → s.reservations i ≤ x.epoch
      → In x (s.retired j)
      → In x ((run os s).retired j)
  unfolding run
  run-keeps [] s sp b lt h m = m
  run-keeps (o ∷ os) s sp b lt h m =
      let f = exec-Frame o i s sp.0 (omega arith) in
      run-keeps os (exec o s) sp.1 (omega arith) (omega arith) (omega arith) (exec-keeps o s lt h m)

-- Over a history that spares thread `i`, its reservation stays and the epoch only grows.
run-Frame :
    (os : List Op) (i : ℕ) (s : State)
    → Spares i os
    → s.epoch + length os < u64_max
    → ((run os s).num_process ≡ s.num_process)
      × ((run os s).reservations i ≡ s.reservations i)
      × (s.epoch ≤ (run os s).epoch)
      × ((run os s).epoch ≤ s.epoch + length os)
unfolding run
run-Frame [] i s sp b = omega arith
run-Frame (o ∷ os) i s sp b =
    let f = exec-Frame o i s sp.0 (omega arith) in
    omega (arith, run-Frame os i (exec o s) sp.1 (omega arith))

-- `retire` pushes the object with the current epoch for a stamp.
push_retired-enters :
    (j p : ℕ) (s : State) → In (rcu_info p s.epoch) ((push_retired j p s).retired j)
unfolding push_retired
push_retired-enters j p s = In-pushed_bag_self (rcu_info p s.epoch) j s.retired

-- An operation of a thread i below num_process starts; other threads run; some thread j retires the
-- non-NULL object p; threads run on, and i neither ends its operation nor starts another. If the
-- epoch and the number of calls are so small that it stays below UINT64_MAX, p is still in the
-- retired list of j with the epoch at which it was retired.
pub grace_period :
    (s : State) (i j p : ℕ) (before after : List Op)
    → i < s.num_process
    → Spares i before
    → Spares i after
    → s.epoch + length before + length after + 1 < u64_max
    → p ≢ 0
    → In
        (rcu_info p (run before (start_op i s)).epoch)
        ((run after (retire j p (run before (start_op i s)))).retired j)
grace_period s i j p before after lt sb sa b ne =
    let s1 = start_op i s in
    let s2 = run before s1 in
    let x = rcu_info p s2.epoch in
    let started : (s1.num_process ≡ s.num_process)
        × (s1.epoch ≡ s.epoch)
        × (s1.reservations i ≡ s.epoch) =
      unfold start_op in ground arith in
    let f2 = run-Frame before i s1 sb (omega arith) in
    let f3 : Frame i s2 (retire j p s2) = exec-retires i j p s2 (omega arith) in
    run-keeps i j x after (retire j p s2) sa (omega arith) (omega arith) (omega arith)
      (retire-pushes i j x j p s2 ne (omega arith) (omega arith) (push_retired-enters j p s2))
  where
    exec-retires : (i j p : ℕ) (s : State) → s.epoch < u64_max → Frame i s (retire j p s)
    exec-retires i j p s h = unfold exec in (exec-Frame (retires j p) i s tt h)
