-- ===== src/Tests/Pop.antt =====
-- Runs of common/recordmgr/reclaimer_ibr_popplushp.h with two threads.
use pop_setbench.Base.{
  ℕ, ◌+◌, ◌≡◌, ◌≢◌, refl, inl, false, some, [], ◌∷◌, ◌++◌, List, arith, In, ◌==◌, if◌then◌else◌,
}
use pop_setbench.Reclaim.Pop.{
  State, create, Delivery, failed, handled, pending, push_retired, empty, retire,
}
use pop_setbench.Reclaim.Pop.Empty.{empty_late, held_by}
use pop_setbench.Reclaim.Pop.Retire.{ping_protects, unheard_freed, retire-total}
use pop_setbench.Reclaim.Pop.Conserve.{retire-held_pop}

-- Thread 0 has reserved 8 in its reservation 1 and has published nothing. Thread 1 has 8 in its
-- bag, and its next call reaches `empty_freq`.
abbrev reserved : State
reserved = record (create false 2) {
  empty_freq = 2;
  local_slots = λ tid i. if tid == 0 then 8 else 0;
  retired = λ _. 8 ∷ [];
}

abbrev heard : ℕ → Delivery
heard _ = handled

abbrev unheard : ℕ → Delivery
unheard _ = pending

heard-ne-failed : (m : ℕ) → heard m ≢ failed
heard-ne-failed m = cc

unheard-ne-failed : (m : ℕ) → unheard m ≢ failed
unheard-ne-failed m = cc

retire-total_example : (u : State) × (retire 0 unheard 1 16 reserved ≡ some u)
retire-total_example = retire-total 0 unheard 1 16 reserved unheard-ne-failed

-- The states after the call, with the signal handled and not.
abbrev after_heard : (u : State) × (retire 0 heard 1 16 reserved ≡ some u)
after_heard = retire-total 0 heard 1 16 reserved heard-ne-failed

abbrev after_unheard : (u : State) × (retire 0 unheard 1 16 reserved ≡ some u)
after_unheard = retire-total 0 unheard 1 16 reserved unheard-ne-failed

ping_protects_example : In 8 (after_heard.0.retired 1)
unfolding create push_retired
ping_protects_example =
    ping_protects 0 heard 1 16 0 1 1 reserved after_heard.0 (omega arith) (omega arith)
      (omega arith) (omega arith) (λ _. refl) after_heard.1 (inl refl)

unheard_freed_example : In 8 (after_unheard.0.pool 1) × (after_unheard.0.local_slots 0 1 ≡ 8)
unfolding create push_retired
unheard_freed_example =
    unheard_freed 0 unheard 1 16 0 1 8 reserved after_unheard.0 (omega arith) (omega arith) refl
      refl (λ q. omega arith) (λ i lt. omega arith) (λ o q. cc) after_unheard.1 (inl refl)

retire-held_pop_example : held_by 16 1 after_unheard.0 ≡ held_by 16 1 reserved + 1
retire-held_pop_example =
    retire-held_pop 16 1 0 unheard 1 16 reserved after_unheard.0 (omega arith) after_unheard.1

-- On the low watermark's path, entered with one object in the bag.
abbrev entered : State
entered = record reserved {
  first_lo_entry_flag = λ _. false;
  retire_bag_size_when_entered_lo_wm = λ _. 1;
  retired = λ _. 8 ∷ 16 ∷ 24 ∷ [];
}

empty_late_example : (zs : List ℕ) × ((empty 1 entered).retired 1 ≡ zs ++ 16 ∷ 24 ∷ [])
unfolding create
empty_late_example =
    empty_late 1 entered (8 ∷ []) (16 ∷ 24 ∷ []) refl refl (omega arith) (omega arith) refl
