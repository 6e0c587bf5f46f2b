-- ===== src/Tests/HashTable.antt =====
-- A run of ds/hm_hashtable/hmht_impl.h: thread 0 inserts 9 for the key 5 into the second of two buckets.
use pop_setbench.Base.{ℕ, zero, suc, ◌≡◌, refl, true, arith}
use pop_setbench.Ds.HmList.{create, advance, act, respond, call_insert, new_node, links}
use pop_setbench.Ds.HmList.Runs.{rests}
use pop_setbench.Ds.HmList.Spec.{put_if_absent}
use pop_setbench.Ds.HashTable.{Settings, Table, create_table, table_advance, table_insert}
use pop_setbench.Ds.HashTable.Projection.{
  TableStep, table_advances, stop, TableDuring, opened, longer, TableSometime,
}
use pop_setbench.Ds.HashTable.Keys.{Performs}
use pop_setbench.Ds.HashTable.Linear.{FreshTable, TableBegins, opens_insert, table_linearizable}

abbrev two : Settings
two = record {
  num_buckets = 2;
  key_min = 0;
  key_max = 100;
  no_value = 0;
  heads = λ _. 4;
  tails = λ _. 2;
}

table_addresses : FreshTable two
table_addresses = record {
  sentinels = λ bid. record {
    head_even = refl;
    tail_even = refl;
    head_node = λ e. omega (arith, e);
    tail_node = λ e. omega (arith, e);
    two = λ e. omega (arith, e);
    keys = omega arith;
  };
}

abbrev opening : Table
opening = table_insert two 0 5 9 6 (create_table two)

table_begins : TableBegins two 0 (create_table two) (put_if_absent 5 9) opening
unfolding create_table create rests
table_begins = opens_insert 5 9 6 (λ bid. refl) (omega arith) refl refl

abbrev goes_on : ℕ → Table
goes_on zero = opening
goes_on (suc n) = table_advance two 1 0 (goes_on n)

table_during : TableDuring two 0 1 opening (goes_on 9)
unfolding create_table create table_insert call_insert table_advance advance act respond new_node
    links rests
table_during =
    let on : (n : ℕ) → TableStep two (goes_on n) (goes_on (suc n)) =
      λ n. table_advances (goes_on n) 1 0 in
    longer
      (longer
        (longer
          (longer
            (longer
              (longer (longer (longer (longer opened refl (on 0)) refl (on 1)) refl (on 2)) refl
                (on 3))
              refl (on 4))
            refl (on 5))
          refl (on 6))
        refl (on 7))
      refl (on 8)

table_rests : rests (((goes_on 9).buckets 1).pc 0) ≡ true
unfolding create_table create table_insert call_insert table_advance advance act respond new_node
    links rests
table_rests = refl

table_linearizable_example :
    TableSometime two 0 1
      (Performs two (put_if_absent 5 9) (((goes_on 9).buckets 1).pc 0))
      opening
      (goes_on 9)
      table_during
table_linearizable_example =
    table_linearizable two table_addresses (create_table two) stop 0 (put_if_absent 5 9) opening
      table_begins (goes_on 9) table_during table_rests
