-- ===== src/Tests/Ibr.antt =====
-- Runs of common/recordmgr/reclaimer_2geibr.h with two threads.
use pop_setbench.Base.{ℕ, ◌≡◌, ◌≤◌, ◌<◌, ◌↔◌, inr, inl, refl, true, [], ◌∷◌, arith, In, some}
use pop_setbench.Reclaim.Eras.{interval_info, era_loop}
use pop_setbench.Reclaim.Ibr.{State, create, reserve_upper, read, retire, empty}
use pop_setbench.Reclaim.Ibr.Run.{starts, ends, retires, run}
use pop_setbench.Reclaim.Ibr.Empty.{empty_exact_ibr}
use pop_setbench.Reclaim.Ibr.Reserve.{read_then_retire}

-- Thread 0 has reserved epoch 3 by the start of its operation, and the global epoch is 4.
abbrev started : State
started = record (create true 2) {
  freq = 1;
  epoch = 4;
  lower_reservs = λ _. 3;
  upper_reservs = λ _. 3;
  retired = λ _. interval_info 6 1 2 ∷ interval_info 7 1 3 ∷ [];
}

reads_again : read 2 0 (λ _. 9) (λ _. 4) started ≡ some (9, reserve_upper 0 4 started)
unfolding read era_loop create
reads_again = refl

read_then_retire_example :
    In (interval_info 9 4 (run (starts 1 ∷ []) (reserve_upper 0 4 started)).epoch) (
      (run
          (ends 1 ∷ retires 1 8 2 ∷ [])
          (retire 1 9 4 (run (starts 1 ∷ []) (reserve_upper 0 4 started)))).retired
        1)
unfolding create
read_then_retire_example =
    read_then_retire started (reserve_upper 0 4 started) 2 0 1 9 4 9 (λ _. 9) (λ _. 4)
      (starts 1 ∷ []) (ends 1 ∷ retires 1 8 2 ∷ []) (omega arith) (omega arith) reads_again
      (λ m e. omega arith) (omega arith) (omega arith) (omega arith) (omega arith)

empty_exact_ibr_example : In (interval_info 7 1 3) ((empty 1 started).retired 1) ↔ (
    (i : ℕ) × (i < started.num_process)
    × (1 ≤ started.upper_reservs i)
    × (started.lower_reservs i ≤ 3))
empty_exact_ibr_example = empty_exact_ibr 1 started (interval_info 7 1 3) (inr (inl refl))
