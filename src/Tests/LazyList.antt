-- ===== src/Tests/LazyList.antt =====
-- Runs of ds/herlihy_lazylist/lazylist_impl.h: thread 1 inserts 9 for the key 5, thread 0 erases it, and
-- thread 2 waits for a lock that thread 0 has.
use pop_setbench.Base.{ℕ, zero, suc, ◌≤◌, ◌≡◌, ◌≢◌, refl, true, inl, arith, ◌∷◌, []}
use pop_setbench.Ds.HmList.{Config}
use pop_setbench.Ds.HmList.Runs.{Fresh}
use pop_setbench.Ds.HmList.Shape.{Shape}
use pop_setbench.Ds.HmList.Spec.{remove, Map, Represents}
use pop_setbench.Ds.LazyList.{
  State, returned, erase, insert, create, advance, act, work, arrives, joins, marks, cuts,
  call_update, call_contains, answered,
}
use pop_setbench.Ds.LazyList.Words.{words}
use pop_setbench.Ds.LazyList.Threads.{Stores, holds_pred}
use pop_setbench.Ds.LazyList.Act.Work.{Allocated}
use pop_setbench.Ds.LazyList.Runs.{rests, Step, advances, calls_update, Run, done, further}
use pop_setbench.Ds.LazyList.Runs.Start.{lazy-Shape}
use pop_setbench.Ds.LazyList.Hindsight.{begins_update, During, begun, more}
use pop_setbench.Ds.LazyList.Moments.{Sometime, Does, answer}
use pop_setbench.Ds.LazyList.Linear.{lazy_linearizable}
use pop_setbench.Ds.LazyList.Locks.Holding.{LocksAt}
use pop_setbench.Ds.LazyList.Map.{lazy_map}
use pop_setbench.Ds.LazyList.Pace.{own_steps, lazy_wait_free}
use pop_setbench.Ds.LazyList.Locks.{waits, Unblocked, lazy_exclusive, lazy-Unblocked}

abbrev lazy_cf : Config
lazy_cf = record { key_min = 0; key_max = 100; no_value = 0; tail = 2 }

lazy_addresses : Fresh lazy_cf 4
lazy_addresses = record {
  head_even = refl;
  tail_even = refl;
  head_node = λ e. omega (arith, e);
  tail_node = λ e. omega (arith, e);
  two = λ e. omega (arith, e);
  keys = omega arith;
}

abbrev lazy_steps : (n tid a : ℕ) → State → State
lazy_steps zero tid a s = s
lazy_steps (suc n) tid a s = advance lazy_cf tid a (lazy_steps n tid a s)

-- The allocator can return `a` at each of the steps.
unfoldable pub Served : (n tid a : ℕ) → State → Type 0
Served zero tid a s = Unit
Served (suc n) tid a s =
    Served n tid a s × Allocated a ((lazy_steps n tid a s).pc tid) (lazy_steps n tid a s).mem

lazy-Run :
    (s0 s : State) (n tid a : ℕ)
    → Run lazy_cf s0 s
    → Served n tid a s
    → Run lazy_cf s0 (lazy_steps n tid a s)
unfolding Served
lazy-Run s0 s zero tid a r al = r
lazy-Run s0 s (suc n) tid a r al =
    further (lazy-Run s0 s n tid a r al.0) (advances (lazy_steps n tid a s) tid a al.1)

abbrev fresh_list : State
fresh_list = create lazy_cf 4

abbrev lazy_inserted : State
lazy_inserted = lazy_steps 9 1 6 (call_update 1 (insert 9) 5 fresh_list)

one_no_value : Stores lazy_cf (insert 9)
one_no_value e = omega (arith, e)

lazy_insert-Run : Run lazy_cf fresh_list lazy_inserted
unfolding create call_update advance act work arrives Allocated Served rests
lazy_insert-Run =
    lazy-Run fresh_list (call_update 1 (insert 9) 5 fresh_list) 9 1 6
      (further done
        (calls_update fresh_list 1 (insert 9) 5 refl (omega arith, omega arith) one_no_value))
      (((((((((tt, tt), tt), tt), tt), tt), tt), tt), (refl, refl)), tt)

lazy_insert_returns : (lazy_inserted.pc 1 ≡ returned 0) × (lazy_inserted.mem.next 4 ≡ 6)
unfolding create call_update advance act work arrives joins
lazy_insert_returns = (refl, refl)

abbrev lazy_erasing : State
lazy_erasing = call_update 0 erase 5 lazy_inserted

lazy_rests_0 : rests (lazy_inserted.pc 0) ≡ true
unfolding create call_update advance act work arrives joins rests
lazy_rests_0 = refl

lazy_erase-Run : Run lazy_cf fresh_list lazy_erasing
lazy_erase-Run =
    further lazy_insert-Run
      (calls_update lazy_inserted 0 erase 5 lazy_rests_0 (omega arith, omega arith) tt)

lazy-Served : Served 14 0 8 lazy_erasing
unfolding create call_update advance act work arrives joins marks cuts Allocated Served
lazy-Served = ((((((((((((((tt, tt), tt), tt), tt), tt), tt), tt), tt), tt), tt), tt), tt), tt), tt)

abbrev lazy_erased : State
lazy_erased = lazy_steps 14 0 8 lazy_erasing

lazy_erase_returns : lazy_erased.pc 0 ≡ returned 9
unfolding create call_update advance act work arrives joins marks cuts
lazy_erase_returns = refl

lazy_erase_retires : lazy_erased.mem.retired ≡ 6 ∷ []
unfolding create call_update advance act work arrives joins marks cuts
lazy_erase_retires = refl

lazy-Shape_example : Shape lazy_cf (words lazy_erased.mem)
lazy-Shape_example =
    lazy-Shape lazy_cf 4 lazy_addresses lazy_erased
      (lazy-Run fresh_list lazy_erasing 14 0 8 lazy_erase-Run lazy-Served)

lazy_erase_during : During lazy_cf 0 lazy_erasing lazy_erased
unfolding create call_update advance act work arrives joins marks cuts Allocated rests
lazy_erase_during =
    let on : (n : ℕ)
        → Allocated 8 ((lazy_steps n 0 8 lazy_erasing).pc 0) (lazy_steps n 0 8 lazy_erasing).mem
        → Step lazy_cf (lazy_steps n 0 8 lazy_erasing) (lazy_steps (suc n) 0 8 lazy_erasing) =
      λ n al. advances (lazy_steps n 0 8 lazy_erasing) 0 8 al in
    more
      (more
        (more
          (more
            (more
              (more
                (more
                  (more
                    (more
                      (more
                        (more
                          (more (more (more (begun) refl (on 0 (tt))) refl (on 1 (tt))) refl
                            (on 2 (tt)))
                          refl (on 3 (tt)))
                        refl (on 4 (tt)))
                      refl (on 5 (tt)))
                    refl (on 6 (tt)))
                  refl (on 7 (tt)))
                refl (on 8 (tt)))
              refl (on 9 (tt)))
            refl (on 10 (tt)))
          refl (on 11 (tt)))
        refl (on 12 (tt)))
      refl (on 13 (tt))

lazy_erase_rests : rests (lazy_erased.pc 0) ≡ true
unfolding create call_update advance act work arrives joins marks cuts rests
lazy_erase_rests = refl

lazy_linearizable_example :
    Sometime lazy_cf 0
      (Does lazy_cf 0 (remove 5) (answer (lazy_erased.pc 0)))
      lazy_erasing
      lazy_erased
      lazy_erase_during
lazy_linearizable_example =
    lazy_linearizable lazy_cf 0 4 lazy_addresses lazy_inserted lazy_insert-Run (remove 5)
      lazy_erasing (begins_update erase 5 lazy_rests_0 (omega arith, omega arith) tt) lazy_erased
      lazy_erase_during lazy_erase_rests

-- Thread 0 has locked the head node, and thread 2 comes to it.
abbrev one_locks : State
one_locks = lazy_steps 4 0 8 lazy_erasing

abbrev other_calls : State
other_calls = call_update 2 erase 5 one_locks

abbrev other_waits : State
other_waits = lazy_steps 2 2 8 other_calls

lazy_wait-Run : Run lazy_cf fresh_list other_waits
unfolding create call_update advance act work arrives joins Allocated Served rests
lazy_wait-Run =
    lazy-Run fresh_list other_calls 2 2 8
      (further (lazy-Run fresh_list lazy_erasing 4 0 8 lazy_erase-Run ((((tt, tt), tt), tt), tt))
        (calls_update one_locks 2 erase 5 refl (omega arith, omega arith) tt))
      ((tt, tt), tt)

waits_it : waits other_waits.mem (other_waits.pc 2) ≡ true
unfolding create call_update advance act work arrives joins waits
waits_it = refl

has_it : LocksAt (other_waits.pc 0) 4
unfolding create call_update advance act work arrives joins LocksAt holds_pred
has_it = inl (refl, refl)

lazy-Unblocked_example : Unblocked other_waits
lazy-Unblocked_example =
    lazy-Unblocked lazy_cf 4 lazy_addresses other_waits lazy_wait-Run 2 waits_it

abbrev thread_0 : ℕ
thread_0 = 0

abbrev thread_2 : ℕ
thread_2 = 2

two_threads : thread_0 ≢ thread_2
two_threads e = omega (arith, e)

lazy_exclusive_example : ¬ LocksAt (other_waits.pc 2) 4
lazy_exclusive_example =
    lazy_exclusive lazy_cf 4 lazy_addresses other_waits lazy_wait-Run 0 2 4 two_threads has_it

-- Thread 3 looks for 5.
abbrev finding : State
finding = call_contains 3 5 lazy_inserted

finding_during : During lazy_cf 3 finding (lazy_steps 4 3 8 finding)
unfolding create call_contains call_update advance act work arrives joins Allocated rests
finding_during =
    let on : (n : ℕ)
        → Allocated 8 ((lazy_steps n 3 8 finding).pc 3) (lazy_steps n 3 8 finding).mem
        → Step lazy_cf (lazy_steps n 3 8 finding) (lazy_steps (suc n) 3 8 finding) =
      λ n al. advances (lazy_steps n 3 8 finding) 3 8 al in
    more (more (more (more begun refl (on 0 tt)) refl (on 1 tt)) refl (on 2 tt)) refl (on 3 tt)

finding_rests : rests (lazy_inserted.pc 3) ≡ true
unfolding create call_update advance act work arrives joins rests
finding_rests = refl

finding_answers : (lazy_steps 4 3 8 finding).pc 3 ≡ answered true
unfolding create call_contains call_update advance act work arrives joins
finding_answers = refl

lazy_wait_free_example : own_steps lazy_cf 3 finding_during ≤ 103
lazy_wait_free_example =
    lazy_wait_free lazy_cf 3 4 lazy_addresses lazy_inserted lazy_insert-Run 5 finding_rests
      (omega arith, omega arith) (lazy_steps 4 3 8 finding) finding_during

lazy_map_example : (f : Map) × Represents (words lazy_inserted.mem) f
lazy_map_example = lazy_map lazy_cf 4 lazy_addresses lazy_inserted lazy_insert-Run
