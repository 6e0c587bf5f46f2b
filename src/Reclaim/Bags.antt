-- ===== src/Reclaim/Bags.antt =====
-- The retired lists of all threads and their pools: a push at the end of one, a sweep of one.
use pop_setbench.Base.{
  ℕ, ◌+◌, ◌≡◌, inl, inr, refl, Bool, false, List, [], ◌∷◌, ◌++◌, map, arith, ◌==◌, ==_iff, ==_refl,
  ◌&&◌, if◌then◌else◌, Bool-cases, In, In-append_left, In-append_right, count, count-append, update,
}
use pop_setbench.Reclaim.Sweep.{sweep, In-kept, count-sweep}

module _ {A : Type 0} where
  pub In-pushed_bag :
      (x y : A) (j tid : ℕ) (bags : ℕ → List A)
      → In x (bags j)
      → In x (update bags tid (bags tid ++ y ∷ []) j)
  In-pushed_bag x y j tid bags m = elim (Bool-cases (tid == j)) [
    | inr f ↦ rw f m
    | inl t ↦ rw t (rw ((==_iff tid j).0 t) (In-append_left x (bags j) _ m))
  ]

  pub In-pushed_bag_self :
      (x : A) (j : ℕ) (bags : ℕ → List A) → In x (update bags j (bags j ++ x ∷ []) j)
  In-pushed_bag_self x j bags = rw ==_refl (In-append_right x (bags j) _ (inl refl))

  pub In-swept_bag :
      (free : A → Bool) (x : A) (j tid : ℕ) (bags : ℕ → List A)
      → In x (bags j)
      → free x ≡ false
      → In x (update bags tid (sweep free (bags tid)).kept j)
  In-swept_bag free x j tid bags m e = elim (Bool-cases (tid == j)) [
    | inr f ↦ rw f m
    | inl t ↦ rw t (rw ((==_iff tid j).0 t) (In-kept free x (bags j) m e))
  ]

  module _ (obj : A → ℕ) where
    -- How often the address `p` stands in what thread `j` holds: in its bag, or in its pool.
    abbrev pub held : ℕ → ℕ → (ℕ → List A) → (ℕ → List ℕ) → ℕ
    held p j bags pool = count p (map obj (bags j)) + count p (pool j)

    map-snoc : (x : A) (xs : List A) → map obj (xs ++ x ∷ []) ≡ map obj xs ++ obj x ∷ []
    map-snoc x [] = refl
    map-snoc x (y ∷ ys) = rw (map-snoc x ys)

    module _ (p j tid : ℕ) (bags : ℕ → List A) (pool : ℕ → List ℕ) where
      -- A sweep moves what it frees from the bag to the pool.
      pub held-swept :
          (free : A → Bool)
          → held p j
              (update bags tid (sweep free (bags tid)).kept)
              (update pool tid (pool tid ++ map obj (sweep free (bags tid)).freed))
            ≡ held p j bags pool
      held-swept free = elim (Bool-cases (tid == j)) [
        | inr f ↦ rw f
        | inl t ↦
            rw t (
              rw ((==_iff tid j).0 t, count-append)
                (omega (arith, count-sweep free obj p (bags j))))
      ]

      pub held-pushed :
          (x : A)
          → held p j (update bags tid (bags tid ++ x ∷ [])) pool
            ≡ held p j bags pool + (if tid == j && p == obj x then 1 else 0)
      unfolding count
      held-pushed x = elim (Bool-cases (tid == j)) [
        | inr f ↦ rw f (omega arith)
        | inl t ↦
            rw t (rw ((==_iff tid j).0 t, map-snoc, count-append) (unfold count in (omega arith)))
      ]
