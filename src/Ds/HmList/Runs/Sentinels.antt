-- ===== src/Ds/HmList/Runs/Sentinels.antt =====
-- The map of a new list: it holds 0 for the keys of the two sentinels.
use pop_setbench.Base.{
  ℕ, ◌%◌, ◌≡◌, ◌≢◌, refl, sym, ap, ◌∙◌, inl, inr, arith, false, ◌==◌, ==_iff, ==_refl, Bool-cases,
  update, some, none,
}
use pop_setbench.Ds.HmList.{Config, create}
use pop_setbench.Ds.HmList.Runs.{Fresh}
use pop_setbench.Ds.HmList.Runs.Start.{
  three, m0, link_head, link_tail, Linked-head, Linked-tail, key_tail,
}
use pop_setbench.Ds.HmList.Shape.{Linked}
use pop_setbench.Ds.HmList.Contents.{Entry}
use pop_setbench.Ds.HmList.Spec.{Map, Represents, some-inj}

module _ (cf : Config) where
  abbrev pub sentinels : Map
  sentinels = update (update (λ _. none) cf.key_max (some 0)) cf.key_min (some 0)

  module _ (head : ℕ) (fr : Fresh cf head) where
    key_of_head : (m0 cf head fr).key head ≡ cf.key_min
    unfolding create
    key_of_head = rw (==_refl head) refl

    no_val : (n : ℕ) → (m0 cf head fr).val n ≡ 0
    unfolding create
    no_val n = refl

    pub create-Represents : Represents (m0 cf head fr) sentinels
    create-Represents k v = (there k v, back k v)
      where
        there : (k v : ℕ) → Entry (m0 cf head fr) k v → sentinels k ≡ some v
        there k v e = elim (three cf head e.node e.is_linked) [
          | inl z ↦ absurd (e.is_node z)
          | inr (inl h) ↦
              let same : cf.key_min ≡ k =
                sym key_of_head ∙ ap (m0 cf head fr).key (sym h) ∙ e.has_key in
              let val : 0 ≡ v = sym (no_val e.node) ∙ e.has_val in
              rw (← same, ==_refl cf.key_min) (ap some val)
          | inr (inr t) ↦
              let same : cf.key_max ≡ k =
                sym (key_tail cf head fr) ∙ ap (m0 cf head fr).key (sym t) ∙ e.has_key in
              let val : 0 ≡ v = sym (no_val e.node) ∙ e.has_val in
              let lt = fr.keys in
              let apart : (cf.key_min == cf.key_max) ≡ false = ground (arith, lt) in
              rw (← same, apart, ==_refl cf.key_max) (ap some val)
        ]

        entry :
            (n k v : ℕ)
            → Linked (m0 cf head fr) n
            → n ≢ 0
            → (m0 cf head fr).link n % 2 ≡ 0
            → (m0 cf head fr).key n ≡ k
            → 0 ≡ v
            → Entry (m0 cf head fr) k v
        entry n k v l z u ky vl = record {
          node = n;
          is_linked = l;
          is_node = z;
          unmarked = u;
          has_key = ky;
          has_val = no_val n ∙ vl;
        }

        back : (k v : ℕ) → sentinels k ≡ some v → Entry (m0 cf head fr) k v
        back k v h = elim (Bool-cases (cf.key_min == k)) [
          | inl e ↦
              let val : 0 ≡ v = some-inj (rw e at h) in
              entry head k v (Linked-head cf head fr) fr.head_node
                (rw (link_head cf head fr) fr.tail_even) (key_of_head ∙ (==_iff cf.key_min k).0 e)
                val
          | inr f ↦ elim (Bool-cases (cf.key_max == k)) [
            | inl e ↦
                let val : 0 ≡ v = some-inj (rw (f, e) at h) in
                entry cf.tail k v (Linked-tail cf head fr) fr.tail_node
                  (rw (link_tail cf head fr) refl) (key_tail cf head fr ∙ (==_iff cf.key_max k).0 e)
                  val
            | inr g ↦ absurd (let clash : none ≡ some v = rw (f, g) at h in cc)
          ]
        ]
