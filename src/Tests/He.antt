-- ===== src/Tests/He.antt =====
-- Runs of common/recordmgr/reclaimer_he.h with two threads.
use pop_setbench.Base.{◌≡◌, ℕ, refl, ◌↔◌, inl, inr, true, [], ◌∷◌, arith, In, some}
use pop_setbench.Reclaim.Eras.{interval_info, era_loop}
use pop_setbench.Reclaim.He.{State, create, reserve_era, read, retire, empty}
use pop_setbench.Reclaim.He.Run.{ends, reads, retires, run}
use pop_setbench.Reclaim.He.Empty.{unset_tid_frees, empty_exact_he}
use pop_setbench.Reclaim.He.Reserve.{Pins, read_then_retire_he}

abbrev idle : State
idle = record (create true (λ _ _. 77) 2) {
  freq = 1;
  epoch = 4;
  retired = λ _. interval_info 6 1 2 ∷ interval_info 7 1 3 ∷ [];
}

reads_again : read 2 0 1 (λ _. 9) (λ _. 4) idle ≡ some (9, reserve_era 0 1 4 idle)
unfolding read era_loop create
reads_again = refl

read_then_retire_he_example :
    In (interval_info 9 4 (run (λ t. t) (reads 0 2 4 ∷ []) (reserve_era 0 1 4 idle)).epoch) (
      (run
          (λ t. t)
          (ends 1 ∷ retires 1 8 2 ∷ [])
          (retire
            (λ t. t)
            1
            9
            4
            (run (λ t. t) (reads 0 2 4 ∷ []) (reserve_era 0 1 4 idle)))).retired
        1)
unfolding create
read_then_retire_he_example =
    read_then_retire_he (λ t. t) idle (reserve_era 0 1 4 idle) 2 0 1 1 9 4 9 (λ _. 9) (λ _. 4)
      (reads 0 2 4 ∷ []) (ends 1 ∷ retires 1 8 2 ∷ []) refl (omega arith) (omega arith) reads_again
      (λ m. omega arith) (λ m e. omega arith) (inr (omega arith), tt) (omega arith) (omega arith)
      (omega arith)

-- Thread 0 has era 2 in its slots, in which object 6 lives; the thread-local tid of thread 1 is 0, and
-- thread 0 has scanned nothing but the unset era 77.
abbrev reserved_idle : State
reserved_idle = record idle { reservations = λ _ _. 2 }

unset_tid_frees_example :
    let s' = empty (λ _. 0) 1 reserved_idle in
    Pins 0 1 (interval_info 6 1 2) s' × In 6 (s'.pool 1) × ¬ In (interval_info 6 1 2) (s'.retired 1)
unfolding create
unset_tid_frees_example =
    unset_tid_frees (λ _. 0) 0 1 1 reserved_idle (interval_info 6 1 2) (λ e. omega (arith, e))
      (record {
        in_range = omega arith;
        in_width = omega arith;
        reserved = omega arith;
        born = omega arith;
        alive = omega arith;
      })
      (inl refl) (λ q lt pos low high. omega (arith, high))

empty_exact_he_example :
    In (interval_info 6 1 2) ((empty (λ t. t) 1 reserved_idle).retired 1)
    ↔ ((i : ℕ) × (idx : ℕ) × Pins i idx (interval_info 6 1 2) reserved_idle)
empty_exact_he_example =
    empty_exact_he (λ t. t) 1 reserved_idle (interval_info 6 1 2) refl (inl refl)
