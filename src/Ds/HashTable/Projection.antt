-- ===== src/Ds/HashTable/Projection.antt =====
-- Runs of a hash table, and the run of each bucket in them.
use pop_setbench.Base.{
  ℕ, ◌%◌, ◌≡◌, ◌≢◌, ◌<◌, ◌⊎◌, inl, inr, refl, subst, arith, ◌==◌, ==_iff, ==_refl, Bool-cases, true,
  false,
}
use pop_setbench.Ds.HmList.{State, Memory, unused}
use pop_setbench.Ds.HmList.Runs.{
  rests, Step, advances, calls_contains, calls_erase, calls_insert, Run, done, further,
}
use pop_setbench.Ds.HmList.Linear.{During, begun, more, Sometime, at_last, before, IsOwn}
use pop_setbench.Ds.HashTable.{
  Settings, Table, in_bucket, bucketid, with_bucket, table_advance, table_contains, table_erase,
  table_insert,
}

module _ (st : Settings) where
  -- A thread that is at rest in all buckets.
  abbrev pub Free : ℕ → Table → Type 0
  Free tid t = (bid : ℕ) → rests ((t.buckets bid).pc tid) ≡ true

  -- What can happen next, as in a list.
  pub data TableStep : Table → Table → Type 0 where
    table_advances : (t : Table) (bid tid : ℕ) → TableStep t (table_advance st bid tid t)
    table_looks :
        (t : Table) (tid k : ℕ)
        → Free tid t
        → k < st.key_max
        → TableStep t (table_contains st tid k t)
    table_removes :
        (t : Table) (tid k : ℕ) → Free tid t → k < st.key_max → TableStep t (table_erase st tid k t)
    table_puts :
        (t : Table) (tid k value a : ℕ)
        → Free tid t
        → k < st.key_max
        → (t.buckets (bucketid st k)).mem.status a ≡ unused
        → a % 2 ≡ 0
        → TableStep t (table_insert st tid k value a t)

  pub data TableRun (t : Table) : Table → Type 0 where
    stop : TableRun t t
    on_by : {t1 t2 : Table} → TableRun t t1 → TableStep t1 t2 → TableRun t t2

  -- The step is one that the thread makes in its operation.
  abbrev IsOwnTable : ℕ → {t t' : Table} → TableStep t t' → Type 0
  IsOwnTable tid (table_advances t bid t') = t' ≡ tid
  IsOwnTable tid (table_looks t t' k fr lt) = ⊥
  IsOwnTable tid (table_removes t t' k fr lt) = ⊥
  IsOwnTable tid (table_puts t t' k value a fr lt fresh even) = ⊥

  -- A step is a step of one bucket, and leaves the others as they are; `P` holds if thread `tid`
  -- makes it in its operation on the bucket.
  abbrev pub Inside : (tid : ℕ) (P : Type 0) (bid : ℕ) → Table → Table → Type 0
  Inside tid P bid t t' =
      ((h : Step (in_bucket st bid) (t.buckets bid) (t'.buckets bid)) × (IsOwn (in_bucket st bid)
            tid h
          → P))
      × ((b : ℕ) → b ≢ bid → t.buckets b ≡ t'.buckets b)

  inside :
      (tid : ℕ) (P : Type 0) (bid : ℕ) (t : Table) (s : State)
      (h : Step (in_bucket st bid) (t.buckets bid) s)
      → (IsOwn (in_bucket st bid) tid h → P)
      → Inside tid P bid t (with_bucket st bid s t)
  inside tid P bid t s h f = (
    subst
        (λ x.
          (h' : Step (in_bucket st bid) (t.buckets bid) x) × (IsOwn (in_bucket st bid) tid h' → P))
        (rw (==_refl bid) refl) (h, f),
    λ b ne. let off : (bid == b) ≡ false = ground (arith, ne) in rw off refl,
  )

  step-Inside :
      (tid : ℕ) (t t' : Table) (h : TableStep t t')
      → (bid : ℕ) × Inside tid (IsOwnTable tid h) bid t t'
  unfolding table_advance table_contains table_erase table_insert
  step-Inside own t _ (table_advances _ bid tid) =
      (bid, inside own (tid ≡ own) bid t _ (advances (t.buckets bid) tid) (λ e. e))
  step-Inside own t _ (table_looks _ tid k fr lt) =
      let b = bucketid st k in
      (b, inside own ⊥ b t _ (calls_contains (t.buckets b) tid k (fr b) lt) (λ e. e))
  step-Inside own t _ (table_removes _ tid k fr lt) =
      let b = bucketid st k in
      (b, inside own ⊥ b t _ (calls_erase (t.buckets b) tid k (fr b) lt) (λ e. e))
  step-Inside own t _ (table_puts _ tid k value a fr lt fresh even) =
      let b = bucketid st k in
      (
        b,
        inside own ⊥ b t _ (calls_insert (t.buckets b) tid k value a (fr b) lt fresh even) (λ e. e),
      )

  -- For a bucket, a step of the table is one of its own or none.
  project :
      (tid bid : ℕ) (t t' : Table) (h : TableStep t t')
      → Inside tid (IsOwnTable tid h) bid t t' ⊎ (t.buckets bid ≡ t'.buckets bid)
  project tid bid t t' h =
      let (b, ins) = step-Inside tid t t' h in
      elim (Bool-cases (b == bid)) [
        | inl e ↦ inl (subst (λ x. Inside tid (IsOwnTable tid h) x t t') ((==_iff b bid).0 e) ins)
        | inr f ↦ let ne : bid ≢ b = ground (arith, f) in inr (ins.1 bid ne)
      ]

  pub bucket-Run :
      (bid : ℕ) (t t' : Table)
      → TableRun t t'
      → Run (in_bucket st bid) (t.buckets bid) (t'.buckets bid)
  bucket-Run bid t _ stop = done
  bucket-Run bid t _ (on_by {t1} {t2} r h) = elim (project 0 bid t1 t2 h) [
    | inl ins ↦ further (bucket-Run bid t t1 r) ins.0.0
    | inr same ↦ subst (Run (in_bucket st bid) (t.buckets bid)) same (bucket-Run bid t t1 r)
  ]

  module _ (tid bid : ℕ) where
    -- The steps of all threads for as long as the thread is in its operation on the bucket.
    pub data TableDuring (t0 : Table) : Table → Type 0 where
      opened : TableDuring t0 t0
      longer :
          {t1 t2 : Table}
          → TableDuring t0 t1
          → rests ((t1.buckets bid).pc tid) ≡ false
          → TableStep t1 t2
          → TableDuring t0 t2

    -- At some step of these, which the thread made itself, the table changed as `Q` says.
    pub data TableSometime (Q : Table → Table → Type 0) (t0 : Table)
        : (t1 : Table) → TableDuring t0 t1 → Type 0 where
      just_now :
          {t1 t2 : Table} (d : TableDuring t0 t1) (q : rests ((t1.buckets bid).pc tid) ≡ false)
          (h : TableStep t1 t2)
          → IsOwnTable tid h
          → Q t1 t2
          → TableSometime Q t0 t2 (longer d q h)
      earlier :
          {t1 t2 : Table} (d : TableDuring t0 t1) (q : rests ((t1.buckets bid).pc tid) ≡ false)
          (h : TableStep t1 t2)
          → TableSometime Q t0 t1 d
          → TableSometime Q t0 t2 (longer d q h)

    pub during_run : (t t0 t1 : Table) → TableRun t t0 → TableDuring t0 t1 → TableRun t t1
    during_run t t0 _ r opened = r
    during_run t t0 _ r (longer {t1} {t2} d q h) = on_by (during_run t t0 t1 r d) h

    pub TableSometime-map :
        (Q Q' : Table → Table → Type 0) (t0 : Table)
        → ((t t' : Table) → Q t t' → Q' t t')
        → (t1 : Table) (d : TableDuring t0 t1) → TableSometime Q t0 t1 d
        → TableSometime Q' t0 t1 d
    TableSometime-map Q Q' t0 f _ _ (just_now d q h own r) = just_now d q h own (f _ _ r)
    TableSometime-map Q Q' t0 f _ _ (earlier d q h x) =
        earlier d q h (TableSometime-map Q Q' t0 f _ d x)

    none_yet :
        (R : Memory → Memory → Type 0) (s0 : State)
        → ¬ Sometime (in_bucket st bid) tid R s0 s0 begun
    none_yet R s0 h = elim h [ ]

    peel :
        (R : Memory → Memory → Type 0) (s0 s1 s2 : State) (d : During (in_bucket st bid) tid s0 s1)
        (q : rests (s1.pc tid) ≡ false) (h : Step (in_bucket st bid) s1 s2)
        → Sometime (in_bucket st bid) tid R s0 s2 (more d q h)
        → (IsOwn (in_bucket st bid) tid h × R s1.mem s2.mem)
          ⊎ Sometime (in_bucket st bid) tid R s0 s1 d
    peel R s0 s1 s2 d q h (at_last _ _ _ own r) = inl (own, r)
    peel R s0 s1 s2 d q h (before _ _ _ x) = inr x

    -- The change of one bucket, in a state that a run from `t` leads to, while the others stay.
    abbrev pub Lift : (R : Memory → Memory → Type 0) → Table → Table → Table → Type 0
    Lift R t t1 t2 =
        R (t1.buckets bid).mem (t2.buckets bid).mem
        × ((b : ℕ) → b ≢ bid → t1.buckets b ≡ t2.buckets b)
        × TableRun t t1

    -- What happens to the bucket meanwhile; what is true of a step of it is so of one of the table.
    abbrev Seen : (t t0 t1 : Table) → TableDuring t0 t1 → State → Type 1
    Seen t t0 t1 d s =
        (e : During (in_bucket st bid) tid (t0.buckets bid) s) × ((R : Memory → Memory → Type 0)
          → Sometime (in_bucket st bid) tid R (t0.buckets bid) s e
          → TableSometime (Lift R t) t0 t1 d)

    pub bucket_during :
        (t t0 t1 : Table)
        → TableRun t t0
        → (d : TableDuring t0 t1) → Seen t t0 t1 d (t1.buckets bid)
    bucket_during t t0 _ r opened = (begun, λ R h. absurd (none_yet R (t0.buckets bid) h))
    bucket_during t t0 _ r (longer {t1} {t2} d q h) =
        let (e, f) = bucket_during t t0 t1 r d in
        let run = during_run t t0 t1 r d in
        elim (project tid bid t1 t2 h) [
          | inl ins ↦ (
            more e q ins.0.0,
            λ R x. elim (peel R (t0.buckets bid) (t1.buckets bid) (t2.buckets bid) e q ins.0.0 x) [
              | inl y ↦ just_now d q h (ins.0.1 y.0) (y.1, ins.1, run)
              | inr y ↦ earlier d q h (f R y)
            ],
          )
          | inr same ↦ subst (Seen t t0 t2 (longer d q h)) same (e, λ R x. earlier d q h (f R x))
        ]
