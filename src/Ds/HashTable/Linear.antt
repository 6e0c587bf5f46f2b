-- ===== src/Ds/HashTable/Linear.antt =====
-- The calls of contains, erase and insertIfAbsent of the hash table against single steps of its map.
use pop_setbench.Base.{ℕ, ◌%◌, ◌≡◌, ◌<◌, ==_refl, true}
use pop_setbench.Ds.HmList.{unused, create}
use pop_setbench.Ds.HmList.Runs.{rests, Fresh, Run}
use pop_setbench.Ds.HmList.Spec.{Op, look_up, remove, put_if_absent, Applies}
use pop_setbench.Ds.HmList.Linear.{
  Begins, begins_contains, begins_erase, begins_insert, linearizable,
}
use pop_setbench.Ds.HmList.Refines.{Run-map}
use pop_setbench.Ds.HashTable.{
  Settings, Table, in_bucket, bucketid, create_table, table_contains, table_erase, table_insert,
}
use pop_setbench.Ds.HashTable.Projection.{
  Free, TableStep, table_looks, table_removes, table_puts, TableRun, on_by, bucket-Run, TableDuring,
  TableSometime, Lift, bucket_during, TableSometime-map,
}
use pop_setbench.Ds.HashTable.Keys.{key_of, Performs, after_holds, answers}

module _ (st : Settings) where
  pub record FreshTable : Type 0 where
    pub sentinels : (bid : ℕ) → Fresh (in_bucket st bid) (st.heads bid)

  -- The thread calls an operation of the table.
  pub data TableBegins (tid : ℕ) (t : Table) : Op → Table → Type 0 where
    opens_contains :
        (k : ℕ)
        → Free st tid t
        → k < st.key_max
        → TableBegins tid t (look_up k) (table_contains st tid k t)
    opens_erase :
        (k : ℕ)
        → Free st tid t
        → k < st.key_max
        → TableBegins tid t (remove k) (table_erase st tid k t)
    opens_insert :
        (k value a : ℕ)
        → Free st tid t
        → k < st.key_max
        → (t.buckets (bucketid st k)).mem.status a ≡ unused
        → a % 2 ≡ 0
        → TableBegins tid t (put_if_absent k value) (table_insert st tid k value a t)

  -- The call in the bucket of its key.
  bucket-Begins :
      (tid : ℕ) (t : Table) (op : Op) (t0 : Table)
      → TableBegins tid t op t0
      → let b = bucketid st (key_of op) in
        Begins (in_bucket st b) tid (t.buckets b) op (t0.buckets b)
  unfolding table_contains table_erase table_insert
  bucket-Begins tid t _ _ (opens_contains k fr lt) =
      let b = bucketid st k in rw (==_refl b) (begins_contains k (fr b) lt)
  bucket-Begins tid t _ _ (opens_erase k fr lt) =
      let b = bucketid st k in rw (==_refl b) (begins_erase k (fr b) lt)
  bucket-Begins tid t _ _ (opens_insert k v a fr lt fresh even) =
      let b = bucketid st k in rw (==_refl b) (begins_insert k v a (fr b) lt fresh even)

  begins_step :
      (tid : ℕ) (t : Table) (op : Op) (t0 : Table) → TableBegins tid t op t0 → TableStep st t t0
  begins_step tid t _ _ (opens_contains k fr lt) = table_looks t tid k fr lt
  begins_step tid t _ _ (opens_erase k fr lt) = table_removes t tid k fr lt
  begins_step tid t _ _ (opens_insert k v a fr lt fresh even) =
      table_puts t tid k v a fr lt fresh even

  start_bucket :
      (t : Table) (bid : ℕ)
      → TableRun st (create_table st) t
      → Run (in_bucket st bid) (create (in_bucket st bid) (st.heads bid)) (t.buckets bid)
  unfolding create_table
  start_bucket t bid r = bucket-Run st bid (create_table st) t r

  -- A thread that calls contains, erase or insertIfAbsent of the table in a state of a run from a new
  -- table, and that is at rest in the bucket of the key behind the steps `d` of all threads: at one of
  -- these steps, which the thread made itself, every map that the table holds goes over as it does in
  -- the operation on the abstract map, whose answer is what the thread then answers.
  pub table_linearizable :
      FreshTable
      → (t : Table) → TableRun st (create_table st) t
      → (tid : ℕ) (op : Op) (t0 : Table) → TableBegins tid t op t0
      → (t1 : Table) (d : TableDuring st tid (bucketid st (key_of op)) t0 t1)
      → rests ((t1.buckets (bucketid st (key_of op))).pc tid) ≡ true
      → TableSometime st tid
          (bucketid st (key_of op))
          (Performs st op ((t1.buckets (bucketid st (key_of op))).pc tid))
          t0
          t1
          d
  table_linearizable fr t r tid op t0 h t1 d rest =
      let b = bucketid st (key_of op) in
      let p = (t1.buckets b).pc tid in
      let start = create_table st in
      let (e, lift) = bucket_during st tid b start t0 t1 (on_by r (begins_step tid t op t0 h)) d in
      let at =
        linearizable (in_bucket st b) tid (st.heads b) (fr.sentinels b) (t.buckets b)
          (start_bucket t b r) op (t0.buckets b) (bucket-Begins tid t op t0 h) (t1.buckets b) e
          rest in
      TableSometime-map st tid b (Lift st tid b (Applies st.no_value op p) start) (Performs st op p)
        t0
        (λ x x' (app, others, run) f holds.
          let (g, rep) =
            Run-map (in_bucket st b) (st.heads b) (fr.sentinels b) (x.buckets b)
              (start_bucket x b run) in
          (
            after_holds st op p x x' f g holds rep app others,
            answers st op p x x' f g holds rep app others,
          ))
        t1 d (lift (Applies st.no_value op p) at)
