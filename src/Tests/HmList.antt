-- ===== src/Tests/HmList.antt =====
-- Runs of ds/hmlist/hmlist_impl.h: thread 1 inserts 9 for the key 5, and thread 0 erases it.
use pop_setbench.Base.{
  not, ℕ, zero, suc, ◌+◌, ◌≤◌, ◌≡◌, ◌≢◌, refl, true, false, [], ◌∷◌, arith, In, Distinct, ◌*◌, ◌%◌,
  ◌<◌, ◌↔◌, List, some, ◌==◌,
}
use pop_setbench.Ds.HmList.{
  Config, State, create, advance, act, respond, call_insert, call_erase, new_node, unlinks, links,
  reading, returned, in_list,
}
use pop_setbench.Ds.HmList.Shape.{Reached, Shape, Linked, rank}
use pop_setbench.Ds.HmList.Quiet.{rest-unmarked}
use pop_setbench.Ds.HmList.Sums.{in_range, total, sum_loop, debug_key_sum, get_ds_size, rest-sums}
use pop_setbench.Ds.HmList.Safety.{Run-Shape}
use pop_setbench.Ds.HmList.Runs.{
  rests, Step, advances, calls_erase, calls_insert, Run, done, further, Fresh,
}
use pop_setbench.Ds.HmList.Spec.{Map, Represents, Applies, remove}
use pop_setbench.Ds.HmList.Linear.{
  Begins, begins_erase, During, begun, more, Sometime, linearizable,
}
use pop_setbench.Ds.HmList.Solo.{after}
use pop_setbench.Ds.HmList.Solo.Finish.{solo_finishes}
use pop_setbench.Ds.HmList.Protected.{reads_value, is_inside, Run-protected}
use pop_setbench.Ds.HmList.Refines.{Effect, advance-Effect, Run-map}

abbrev cf : Config
cf = record { key_min = 0; key_max = 100; no_value = 0; tail = 2 }

addresses : Fresh cf 4
addresses = record {
  head_even = refl;
  tail_even = refl;
  head_node = λ e. omega (arith, e);
  tail_node = λ e. omega (arith, e);
  two = λ e. omega (arith, e);
  keys = omega arith;
}

abbrev steps : (n tid : ℕ) → State → State
steps zero tid s = s
steps (suc n) tid s = advance cf tid (steps n tid s)

Run-on : (s0 s : State) (n tid : ℕ) → Run cf s0 s → Run cf s0 (steps n tid s)
Run-on s0 s zero tid r = r
Run-on s0 s (suc n) tid r = further (Run-on s0 s n tid r) (advances (steps n tid s) tid)

abbrev inserting : State
inserting = call_insert 1 5 9 6 (create cf 4)

start_insert : Run cf (create cf 4) inserting
unfolding create rests
start_insert = further done (calls_insert (create cf 4) 1 5 9 6 refl (omega arith) refl refl)

abbrev inserted : State
inserted = steps 9 1 inserting

insert-Run : Run cf (create cf 4) inserted
insert-Run = Run-on (create cf 4) inserting 9 1 start_insert

inserted_returns : inserted.pc 1 ≡ returned 0
unfolding create call_insert advance act respond new_node links
inserted_returns = refl

abbrev erasing : State
erasing = call_erase 0 5 inserted

rests_0 : rests (inserted.pc 0) ≡ true
unfolding create call_insert advance act respond new_node links rests
rests_0 = refl

erase-Begins : Begins cf 0 inserted (remove 5) erasing
erase-Begins = begins_erase 5 rests_0 (omega arith)

erase-Run : Run cf (create cf 4) erasing
erase-Run = further insert-Run (calls_erase inserted 0 5 rests_0 (omega arith))

erase_during : During cf 0 erasing (steps 9 0 erasing)
unfolding create call_insert call_erase advance act respond new_node links unlinks rests
erase_during =
    let on : (n : ℕ) → Step cf (steps n 0 erasing) (steps (suc n) 0 erasing) =
      λ n. advances (steps n 0 erasing) 0 in
    more
      (more
        (more
          (more
            (more (more (more (more (more begun refl (on 0)) refl (on 1)) refl (on 2)) refl (on 3))
              refl (on 4))
            refl (on 5))
          refl (on 6))
        refl (on 7))
      refl (on 8)

erase_answers : (steps 9 0 erasing).pc 0 ≡ returned 9
unfolding create call_insert call_erase advance act respond new_node links unlinks
erase_answers = refl

erase_rests : rests ((steps 9 0 erasing).pc 0) ≡ true
unfolding create call_insert call_erase advance act respond new_node links unlinks rests
erase_rests = refl

linearizable_example :
    Sometime cf 0
      (Applies 0 (remove 5) ((steps 9 0 erasing).pc 0))
      erasing
      (steps 9 0 erasing)
      erase_during
linearizable_example =
    linearizable cf 0 4 addresses inserted insert-Run (remove 5) erasing erase-Begins
      (steps 9 0 erasing) erase_during erase_rests

Run-Shape_example : Shape cf (steps 9 0 erasing).mem
Run-Shape_example =
    Run-Shape cf 4 addresses (steps 9 0 erasing) (Run-on (create cf 4) erasing 9 0 erase-Run)

-- The node 6 has been retired.
erase_retires : (steps 9 0 erasing).mem.retired ≡ 6 ∷ []
unfolding create call_insert call_erase advance act respond new_node links unlinks
erase_retires = refl

-- The step that marks it.
advance-Effect_example :
    Effect 0
      (steps 7 0 erasing).mem
      (steps 8 0 erasing).mem
      ((steps 7 0 erasing).pc 0)
      ((steps 8 0 erasing).pc 0)
advance-Effect_example =
    advance-Effect cf 0 4 addresses (steps 7 0 erasing) (Run-on (create cf 4) erasing 7 0 erase-Run)

Run-map_example : (f : Map) × Represents inserted.mem f
Run-map_example = Run-map cf 4 addresses inserted insert-Run

-- Thread 0 in the middle of its search.
solo_finishes_example :
    (n : ℕ) × (n ≤ 4 * cf.key_max + 14) × (rests ((after cf 0 n (steps 4 0 erasing)).pc 0) ≡ true)
solo_finishes_example =
    solo_finishes cf 0 4 addresses (steps 4 0 erasing) (Run-on (create cf 4) erasing 4 0 erase-Run)

-- Thread 0 has found that the key is there, and is about to read its value.
abbrev finding : State
finding = steps 7 0 (call_insert 0 5 7 8 inserted)

finding-Run : Run cf (create cf 4) finding
unfolding create call_insert advance act respond new_node links
finding-Run =
    Run-on (create cf 4) (call_insert 0 5 7 8 inserted) 7 0
      (further insert-Run (calls_insert inserted 0 5 7 8 rests_0 (omega arith) refl refl))

is_in : is_inside (finding.pc 0) ≡ true
unfolding create call_insert advance act respond new_node links is_inside
is_in = refl

about_to_read : finding.pc 0 ≡ reading 6
unfolding create call_insert advance act respond new_node links
about_to_read = refl

Run-protected_example : finding.active 0 ≡ not (reads_value (finding.pc 0))
Run-protected_example = Run-protected cf 0 4 finding finding-Run is_in

not_0 : (n : ℕ) → (0 == suc (suc n)) ≡ false
not_0 n = ground arith

not_1 : (n : ℕ) → (1 == suc (suc n)) ≡ false
not_1 n = ground arith

-- Behind the erasure both threads are at rest, and so are all the others.
all_rest : (tid : ℕ) → rests ((steps 9 0 erasing).pc tid) ≡ true
unfolding create call_insert call_erase advance act respond new_node links unlinks rests
all_rest zero = refl
all_rest (suc zero) = refl
all_rest (suc (suc n)) = rw (not_0 n, not_1 n) refl

marked_6 : (steps 9 0 erasing).mem.link 6 % 2 ≡ 1
unfolding create call_insert call_erase advance act respond new_node links unlinks
marked_6 = refl

linked_6 : (steps 9 0 erasing).mem.status 6 ≡ in_list
unfolding create call_insert call_erase advance act respond new_node links unlinks
linked_6 = refl

rest-unmarked_example : ¬ Reached cf (steps 9 0 erasing).mem 6
rest-unmarked_example =
    rest-unmarked cf 4 addresses (steps 9 0 erasing) (Run-on (create cf 4) erasing 9 0 erase-Run)
      all_rest 6 linked_6 marked_6

-- The statistics of the list with the key 5.
inserted_rest : (tid : ℕ) → rests (inserted.pc tid) ≡ true
unfolding create call_insert advance act respond new_node links rests
inserted_rest zero = refl
inserted_rest (suc zero) = refl
inserted_rest (suc (suc n)) = rw (not_1 n) refl

first_node : inserted.mem.link 0 ≢ cf.tail
unfolding create call_insert advance act respond new_node links
first_node e = omega (arith, e)

key_sum_5 : debug_key_sum cf inserted.mem 101 ≡ some 5
unfolding create call_insert advance act respond new_node links debug_key_sum sum_loop
key_sum_5 = refl

rest-sums_example :
    (ns : List ℕ) × Distinct ns
    × (debug_key_sum cf inserted.mem 101 ≡ in_range (total inserted.mem.key ns))
    × (get_ds_size cf inserted.mem 101 ≡ in_range (total (λ _. 1) ns))
    × ((n : ℕ)
        → In n ns
          ↔ Linked inserted.mem n
            × (inserted.mem.link n % 2 ≡ 0)
            × (inserted.mem.key n < 100)
            × (rank inserted.mem (inserted.mem.link 0) < rank inserted.mem n))
rest-sums_example = rest-sums cf 4 addresses inserted insert-Run inserted_rest first_node
