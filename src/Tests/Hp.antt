-- ===== src/Tests/Hp.antt =====
-- Runs of common/recordmgr/reclaimer_ibr_hp.h with two threads of three slots.
use pop_setbench.Base.{
  if◌then◌else◌, ◌==◌, ℕ, ◌+◌, ◌*◌, ◌≤◌, ◌≡◌, refl, inl, ◌↔◌, ◌<◌, some, [], ◌∷◌, arith, In, length,
  ◌==◌, if◌then◌else◌,
}
use pop_setbench.Reclaim.Slots.{read_loop}
use pop_setbench.Reclaim.Hp.{State, reserve, read, retire, empty}
use pop_setbench.Reclaim.Hp.Run.{ends, reserves, retires, run}
use pop_setbench.Reclaim.Hp.Protect.{protected_stays, empty_exact_hp}
use pop_setbench.Reclaim.Hp.Bound.{IsBounded, retire-IsBounded}

-- Thread 0 has reserved 8 in its slot 1; thread 1 has 16 in its bag and is about to scan.
abbrev reserved : State
reserved = record {
  num_process = 2;
  empty_freq = 1;
  slots_per_thread = 3;
  slots = λ q. if q == 1 then 8 else 0;
  cntrs = λ _. 1;
  retired = λ _. 16 ∷ [];
  pool = λ _. [];
}

protected_stays_example :
    In 8 ((run (ends 1 ∷ reserves 24 0 0 ∷ retires 1 32 ∷ []) (retire 1 8 reserved)).retired 1)
protected_stays_example =
    protected_stays reserved 1 8 1 (ends 1 ∷ reserves 24 0 0 ∷ retires 1 32 ∷ []) (omega arith) refl
      (omega arith) ((λ i lt. omega arith), (omega arith, (tt, tt)))

retire-IsBounded_example :
    IsBounded 1 (retire 1 8 reserved) × (length ((retire 1 8 reserved).retired 1) ≤ 2 * 3 + 1)
retire-IsBounded_example =
    retire-IsBounded 1 8 reserved (omega arith) (omega arith)
      (record { distinct = (λ h. h, tt); counted = omega arith; in_time = omega arith })

-- The first round sees 8 and then 9, the second one 9 twice.
abbrev moving : ℕ → ℕ
moving k = if k == 0 then 8 else 9

read_again : read 2 1 2 moving reserved ≡ some (9, reserve 8 2 1 (reserve 8 2 1 reserved))
unfolding read read_loop
read_again = refl

empty_exact_hp_example :
    In 16 ((empty 1 reserved).retired 1) ↔ ((q : ℕ) × (q < 2 * 3) × (16 ≡ reserved.slots q))
empty_exact_hp_example = empty_exact_hp 1 16 reserved (inl refl)
