-- ===== src/Tests/Qsbr.antt =====
-- Runs of common/recordmgr/reclaimer_qsbr.h with two threads.
use pop_setbench.Base.{refl, inl, [], ◌∷◌, arith, In}
use pop_setbench.Reclaim.Epochs.{rcu_info}
use pop_setbench.Reclaim.Qsbr.{State, create, start_op, end_op, push_retired, flush, empty, retire}
use pop_setbench.Reclaim.Qsbr.Run.{starts, ends, retires, exec, run}
use pop_setbench.Reclaim.Qsbr.Quiesce.{outlives_operation, first_operation_unprotected}

abbrev fresh : State
fresh = record (create 2) { empty_freq = 1 }

outlives_operation_example : In (rcu_info 7 (run (starts 0 ∷ ends 1 ∷ []) (end_op 0 fresh)).epoch) (
    (run
        (ends 1 ∷ retires 1 8 ∷ [])
        (retire 1 7 (run (starts 0 ∷ ends 1 ∷ []) (end_op 0 fresh)))).retired
      1)
unfolding create
outlives_operation_example =
    outlives_operation fresh 0 1 7 (starts 0 ∷ ends 1 ∷ []) (ends 1 ∷ retires 1 8 ∷ [])
      (omega arith) (omega arith) (omega arith) (omega arith) (omega arith)

-- Thread 0 is in its first operation, and thread 1 retires 7 in its own.
first_operation_unprotected_example :
    In 7 ((empty 1 (run (starts 0 ∷ starts 1 ∷ retires 1 7 ∷ []) (create 2))).pool 1)
unfolding create run exec start_op retire push_retired flush
first_operation_unprotected_example =
    first_operation_unprotected 2 0 1 (starts 0 ∷ starts 1 ∷ retires 1 7 ∷ []) (rcu_info 7 0)
      (omega arith) (inl refl) (omega arith) (λ k lt ne. omega arith)
