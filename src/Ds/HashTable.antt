-- ===== src/Ds/HashTable.antt =====
-- ds/hm_hashtable/hmht_impl.h: a hash table of Harris-Michael lists. Its list_search, contains,
-- doInsert and erase are those of ds/hmlist/hmlist_impl.h, begun at `&buckets[key % num_buckets]` in
-- place of `&head`; no link leads from one bucket to another, so each has a memory of its own.
pub mod Projection
pub mod Keys
pub mod Linear
use pop_setbench.Base.{ℕ, ◌%◌, ◌≡◌, ◌==◌, if◌then◌else◌, true, false, update}
use pop_setbench.Ds.HmList.{Config, State, create, advance, call_contains, call_erase, call_insert}
use pop_setbench.Ds.HmList.Runs.{rests}
use pop_setbench.Ds.HmList.Spec.{Op, look_up, remove, put_if_absent}

-- The constants, and the addresses of the two sentinels of each bucket.
pub record Settings : Type 0 where
  pub num_buckets : ℕ
  pub key_min : ℕ
  pub key_max : ℕ
  pub no_value : ℕ
  pub heads : ℕ → ℕ
  pub tails : ℕ → ℕ

-- The states of the lists, one for each bucket.
pub record Table : Type 0 where
  pub buckets : ℕ → State

module _ (st : Settings) where
  -- The constants of the list of a bucket.
  abbrev pub in_bucket : ℕ → Config
  in_bucket bid = record {
    key_min = st.key_min;
    key_max = st.key_max;
    no_value = st.no_value;
    tail = st.tails bid;
  }

  -- `key % num_buckets`
  abbrev pub bucketid : ℕ → ℕ
  bucketid key = key % st.num_buckets

  abbrev pub with_bucket : ℕ → State → Table → Table
  with_bucket bid s t = record t { buckets = update t.buckets bid s }

  unfoldable pub create_table : Table
  create_table = record { buckets = λ bid. create (in_bucket bid) (st.heads bid) }

  -- An atomic step of a thread that is in an operation on a bucket.
  unfoldable pub table_advance : (bid tid : ℕ) → Table → Table
  table_advance bid tid t = with_bucket bid (advance (in_bucket bid) tid (t.buckets bid)) t

  -- The calls of contains, erase and insertIfAbsent.
  unfoldable pub table_contains : (tid k : ℕ) → Table → Table
  table_contains tid k t = with_bucket (bucketid k) (call_contains tid k (t.buckets (bucketid k))) t

  unfoldable pub table_erase : (tid k : ℕ) → Table → Table
  table_erase tid k t = with_bucket (bucketid k) (call_erase tid k (t.buckets (bucketid k))) t

  unfoldable pub table_insert : (tid k value a : ℕ) → Table → Table
  table_insert tid k value a t =
      with_bucket (bucketid k) (call_insert tid k value a (t.buckets (bucketid k))) t
