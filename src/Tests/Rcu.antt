-- ===== src/Tests/Rcu.antt =====
-- Runs of common/recordmgr/reclaimer_ibr_rcu.h with two threads.
use pop_setbench.Base.{ℕ, ◌≤◌, ◌<◌, ◌↔◌, refl, inl, inr, true, [], ◌∷◌, arith, In}
use pop_setbench.Reclaim.Epochs.{rcu_info}
use pop_setbench.Reclaim.Rcu.{State, create, start_op, empty, retire}
use pop_setbench.Reclaim.Rcu.Run.{starts, ends, allocs, retires, run}
use pop_setbench.Reclaim.Rcu.Grace.{grace_period}
use pop_setbench.Reclaim.Rcu.Empty.{empty_exact_ebr, empty-frees}

abbrev fresh : State
fresh = record (create true 2) { empty_freq = 1 }

-- Thread 1 retires 7 while thread 0 is in its operation, and 8 after another start and end.
grace_period_example : In (rcu_info 7 (run (starts 1 ∷ []) (start_op 0 fresh)).epoch) (
    (run
        (allocs 1 ∷ ends 1 ∷ retires 1 8 ∷ [])
        (retire 1 7 (run (starts 1 ∷ []) (start_op 0 fresh)))).retired
      1)
unfolding create
grace_period_example =
    grace_period fresh 0 1 7 (starts 1 ∷ []) (allocs 1 ∷ ends 1 ∷ retires 1 8 ∷ []) (omega arith)
      (omega arith) (omega arith) (omega arith) (omega arith)

-- Thread 1 has 7 in its bag from epoch 3, while both threads announce epoch 5.
abbrev waiting : State
waiting = record fresh {
  epoch = 5;
  reservations = λ _. 5;
  retired = λ _. rcu_info 7 3 ∷ rcu_info 8 5 ∷ [];
}

empty_exact_ebr_example :
    In (rcu_info 8 5) ((empty 1 waiting).retired 1)
    ↔ ((i : ℕ) × (i < waiting.num_process) × (waiting.reservations i ≤ 5))
empty_exact_ebr_example = empty_exact_ebr 1 waiting (rcu_info 8 5) (inr (inl refl)) (omega arith)

empty-frees_example : In 7 ((empty 1 waiting).pool 1)
empty-frees_example =
    empty-frees 1 waiting (rcu_info 7 3) (inl refl) (omega arith) (λ i lt. omega arith)
