-- ===== src/Ds/HashTable/Keys.antt =====
-- The map of a hash table, put together from those of the buckets: an operation on the bucket of its
-- key is one on the whole map.
use pop_setbench.Base.{
  ℕ, ◌≡◌, ◌≢◌, ◌↔◌, inl, inr, refl, sym, ap, subst, ◌∙◌, arith, ◌==◌, ==_iff, ==_refl, Bool-cases,
  false, Option, some, none,
}
use pop_setbench.Ds.HmList.{Pc}
use pop_setbench.Ds.HmList.Contents.{Entry}
use pop_setbench.Ds.HmList.Spec.{Map, Op, look_up, remove, put_if_absent, spec, Represents, Applies}
use pop_setbench.Ds.HashTable.{Settings, Table, bucketid}

abbrev pub key_of : Op → ℕ
key_of (look_up k) = k
key_of (remove k) = k
key_of (put_if_absent k v) = k

-- What an operation does and answers depends on the map at its key, and it changes it there only.
module _ (no_value : ℕ) where
  same_spec :
      (op : Op) (f g : Map) (o : Option ℕ)
      → f (key_of op) ≡ o
      → g (key_of op) ≡ o
      → ((spec no_value op f).1 ≡ (spec no_value op g).1)
        × ((spec no_value op f).0 (key_of op) ≡ (spec no_value op g).0 (key_of op))
  unfolding spec
  same_spec (look_up k) f g none e e' = rw (e, e', spec) (refl, e ∙ sym e')
  same_spec (look_up k) f g (some w) e e' = rw (e, e', spec) (refl, e ∙ sym e')
  same_spec (remove k) f g none e e' = rw (e, e', spec) (refl, e ∙ sym e')
  same_spec (remove k) f g (some w) e e' = rw (e, e', spec, ==_refl k) (refl, refl)
  same_spec (put_if_absent k v) f g none e e' = rw (e, e', spec, ==_refl k) (refl, refl)
  same_spec (put_if_absent k v) f g (some w) e e' = rw (e, e', spec) (refl, e ∙ sym e')

  spec_off :
      (op : Op) (f : Map) (k : ℕ) (o : Option ℕ)
      → (key_of op == k) ≡ false
      → f (key_of op) ≡ o
      → (spec no_value op f).0 k ≡ f k
  unfolding spec
  spec_off (look_up j) f k none off e = rw (e, spec) refl
  spec_off (look_up j) f k (some w) off e = rw (e, spec) refl
  spec_off (remove j) f k none off e = rw (e, spec) refl
  spec_off (remove j) f k (some w) off e = rw (e, spec, off) refl
  spec_off (put_if_absent j v) f k none off e = rw (e, spec, off) refl
  spec_off (put_if_absent j v) f k (some w) off e = rw (e, spec) refl

-- Options with the same contents.
option_ext : (a b : Option ℕ) → ((v : ℕ) → (a ≡ some v) ↔ (b ≡ some v)) → a ≡ b
option_ext none none h = refl
option_ext none (some w) h = (h w).1 refl
option_ext (some w) b h = sym ((h w).0 refl)

module _ (st : Settings) where
  -- The table holds the entries of the map, each in the bucket of its key.
  abbrev pub HoldsMap : Table → Map → Type 0
  HoldsMap t f = (k v : ℕ) → Entry (t.buckets (bucketid st k)).mem k v ↔ (f k ≡ some v)

  -- From one table to the next the operation is done on every map that the first holds, and answers `p`.
  abbrev pub Performs : Op → Pc → Table → Table → Type 0
  Performs op p t t' =
      (f : Map)
      → HoldsMap t f
      → HoldsMap t' (spec st.no_value op f).0 × ((spec st.no_value op f).1 ≡ p)

  -- What a bucket does, the table does.
  module _ (op : Op) (p : Pc) (t t' : Table) (f g : Map) (holds : HoldsMap t f)
      (rep : Represents (t.buckets (bucketid st (key_of op))).mem g)
      (app : Applies st.no_value op p
        (t.buckets (bucketid st (key_of op))).mem
        (t'.buckets (bucketid st (key_of op))).mem)
      (others : (b : ℕ) → b ≢ bucketid st (key_of op) → t.buckets b ≡ t'.buckets b) where
    abbrev j : ℕ
    j = key_of op

    abbrev b : ℕ
    b = bucketid st j

    agree : (k : ℕ) → bucketid st k ≡ b → f k ≡ g k
    agree k e = option_ext (f k) (g k) (λ v.
        let h : Entry (t.buckets b).mem k v ↔ (f k ≡ some v) =
          subst (λ x. Entry (t.buckets x).mem k v ↔ (f k ≡ some v)) e (holds k v) in
        (λ y. (rep k v).0 (h.1 y), λ y. h.0 ((rep k v).1 y)))

    abbrev f' : Map
    f' = (spec st.no_value op f).0

    abbrev g' : Map
    g' = (spec st.no_value op g).0

    rep' : Represents (t'.buckets b).mem g'
    rep' = (app g rep).0

    -- In the bucket of the operation, and in another one.
    within : (k v : ℕ) → bucketid st k ≡ b → Entry (t'.buckets b).mem k v ↔ (f' k ≡ some v)
    within k v e = elim (Bool-cases (j == k)) [
      | inl y ↦
          let same : j ≡ k = (==_iff j k).0 y in
          let at_j : f' j ≡ g' j = (same_spec st.no_value op f g (g j) (agree j refl) refl).1 in
          subst (λ x. Entry (t'.buckets b).mem x v ↔ (f' x ≡ some v)) same
            (subst (λ x. Entry (t'.buckets b).mem j v ↔ (x ≡ some v)) (sym at_j) (rep' j v))
      | inr off ↦
          let to_f : f' k ≡ f k = spec_off st.no_value op f k (f j) off refl in
          let to_g : g' k ≡ g k = spec_off st.no_value op g k (g j) off refl in
          subst (λ x. Entry (t'.buckets b).mem k v ↔ (x ≡ some v))
            (to_g ∙ sym (agree k e) ∙ sym to_f) (rep' k v)
    ]

    elsewhere :
        (k v : ℕ) → bucketid st k ≢ b → Entry (t'.buckets (bucketid st k)).mem k v ↔ (f' k ≡ some v)
    elsewhere k v ne =
        let off : (j == k) ≡ false = elim (Bool-cases (j == k)) [
          | inl y ↦ absurd (ne (ap (bucketid st) (sym ((==_iff j k).0 y))))
          | inr o ↦ o
        ] in
        let to_f : f' k ≡ f k = spec_off st.no_value op f k (f j) off refl in
        subst (λ x. Entry (t'.buckets (bucketid st k)).mem k v ↔ (x ≡ some v)) (sym to_f)
          (subst (λ s. Entry s.mem k v ↔ (f k ≡ some v)) (others (bucketid st k) ne) (holds k v))

    pub after_holds : HoldsMap t' f'
    after_holds k v = elim (Bool-cases (bucketid st k == b)) [
      | inl y ↦
          let e : bucketid st k ≡ b = (==_iff (bucketid st k) b).0 y in
          subst (λ x. Entry (t'.buckets x).mem k v ↔ (f' k ≡ some v)) (sym e) (within k v e)
      | inr o ↦ let ne : bucketid st k ≢ b = ground (arith, o) in elsewhere k v ne
    ]

    pub answers : (spec st.no_value op f).1 ≡ p
    answers = (same_spec st.no_value op f g (g j) (agree j refl) refl).0 ∙ (app g rep).1
