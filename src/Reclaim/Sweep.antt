-- ===== src/Reclaim/Sweep.antt =====
-- The loop that every reclaimer's `empty` ends with: walk the retired list with an iterator, hand
-- what is free to the pool and erase it, and step over the rest.
use mathlib.Core.List.{perm_middle}
use mathlib.Core.List.Perm
use pop_setbench.Base.{
  ℕ, ap, map, count, ◌+◌, ◌≡◌, refl, inl, inr, Bool, true, false, List, [], ◌∷◌, ◌++◌, Perm, arith,
  Bool-cases, if◌then◌else◌, In, Distinct,
}

pub record Swept (A : Type 0) : Type 0 where
  pub kept : List A
  pub freed : List A

module _ {A : Type 0} where
  unfoldable pub sweep : (A → Bool) → List A → Swept A
  sweep free [] = record { kept = []; freed = [] }
  sweep free (x ∷ xs) =
      let rest = sweep free xs in
      if free x
      then record { kept = rest.kept; freed = x ∷ rest.freed }
      else record { kept = x ∷ rest.kept; freed = rest.freed }

  module _ (free : A → Bool) where
    -- What the test does not free stays.
    pub In-kept : (a : A) (xs : List A) → In a xs → free a ≡ false → In a (sweep free xs).kept
    unfolding sweep
    In-kept a [] h e = h
    In-kept a (x ∷ xs) (inl p) e = let e' : free x ≡ false = rw (← p) e in rw e' (inl p)
    In-kept a (x ∷ xs) (inr h) e = elim (Bool-cases (free x)) [
      | inl t ↦ rw t (In-kept a xs h e)
      | inr f ↦ rw f (inr (In-kept a xs h e))
    ]

    -- What stays was there, and the test does not free it.
    pub In-kept_inv : (a : A) (xs : List A) → In a (sweep free xs).kept → In a xs × (free a ≡ false)
    unfolding sweep
    In-kept_inv a [] h = absurd h
    In-kept_inv a (x ∷ xs) h = elim (Bool-cases (free x)) [
      | inl t ↦ let r = In-kept_inv a xs (rw t at h) in (inr r.0, r.1)
      | inr f ↦ elim (let h' : In a (x ∷ (sweep free xs).kept) = rw f at h in h') [
        | inl p ↦ (inl p, rw p f)
        | inr m ↦ let r = In-kept_inv a xs m in (inr r.0, r.1)
      ]
    ]

    pub In-freed : (a : A) (xs : List A) → In a xs → free a ≡ true → In a (sweep free xs).freed
    unfolding sweep
    In-freed a [] h e = h
    In-freed a (x ∷ xs) (inl p) e = let e' : free x ≡ true = rw (← p) e in rw e' (inl p)
    In-freed a (x ∷ xs) (inr h) e = elim (Bool-cases (free x)) [
      | inl t ↦ rw t (inr (In-freed a xs h e))
      | inr f ↦ rw f (In-freed a xs h e)
    ]

    pub Distinct-kept : (xs : List A) → Distinct xs → Distinct (sweep free xs).kept
    unfolding sweep
    Distinct-kept [] d = tt
    Distinct-kept (x ∷ xs) d = elim (Bool-cases (free x)) [
      | inl t ↦ rw t (Distinct-kept xs d.1)
      | inr f ↦ rw f ((λ m. d.0 (In-kept_inv x xs m).0), Distinct-kept xs d.1)
    ]

    -- What is kept and what is freed are together a permutation of the bag.
    pub sweep-perm : (xs : List A) → Perm xs ((sweep free xs).kept ++ (sweep free xs).freed)
    unfolding sweep
    sweep-perm [] = Perm.nil
    sweep-perm (x ∷ xs) = elim (Bool-cases (free x)) [
      | inl t ↦ rw t (Perm.trans (Perm.cons x (sweep-perm xs)) (Perm.symm (perm_middle _ _)))
      | inr f ↦ rw f (Perm.cons x (sweep-perm xs))
    ]

    -- The same by counting the addresses of the entries.
    pub count-sweep :
        (obj : A → ℕ) (p : ℕ) (xs : List A)
        → count p (map obj (sweep free xs).kept) + count p (map obj (sweep free xs).freed)
          ≡ count p (map obj xs)
    unfolding sweep count
    count-sweep obj p [] = refl
    count-sweep obj p (x ∷ xs) = elim (Bool-cases (free x)) [
      | inl t ↦ rw t (omega (arith, count-sweep obj p xs))
      | inr f ↦ rw f (omega (arith, count-sweep obj p xs))
    ]

pub In-map : {A : Type 0} (obj : A → ℕ) (a : A) (xs : List A) → In a xs → In (obj a) (map obj xs)
In-map obj a [] h = h
In-map obj a (x ∷ xs) (inl e) = inl (ap obj e)
In-map obj a (x ∷ xs) (inr h) = inr (In-map obj a xs h)
