-- ===== src/Base/Lists.antt =====
-- Lists measured by native numbers, membership and distinctness by recursion, and the bound that
-- a list without repetitions that draws on another one is no longer than it.
use Prim.Native.Nat.{ℕ, suc, ◌+◌, ◌≤◌, ◌<◌}
use mathlib.Core.Path.{◌≡◌, refl, sym}
use mathlib.Core.Logic.{◌⊎◌, inl, inr}
use mathlib.Core.List.{List, [], ◌∷◌, ◌++◌}
use native.Mathlib.Omega.{arith}
use pop_setbench.Base.Tests.{◌==◌, if◌then◌else◌}

module _ {ℓ} {A : Type ℓ} where
  abbrev pub length : List A → ℕ
  length [] = 0
  length (x ∷ xs) = suc (length xs)

  pub length-append : (xs ys : List A) → length (xs ++ ys) ≡ length xs + length ys
  length-append [] ys = omega arith
  length-append (x ∷ xs) ys = omega (arith, length-append xs ys)

-- How often an address stands in a list.
unfoldable pub count : ℕ → List ℕ → ℕ
count p [] = 0
count p (x ∷ xs) = (if p == x then 1 else 0) + count p xs

pub count-append : (p : ℕ) (xs ys : List ℕ) → count p (xs ++ ys) ≡ count p xs + count p ys
unfolding count
count-append p [] ys = omega arith
count-append p (x ∷ xs) ys = omega (arith, count-append p xs ys)

-- The last round of a loop, or an earlier one.
pub lt-suc_cases : (i n : ℕ) → i < suc n → (i < n) ⊎ (i ≡ n)
lt-suc_cases i n h = grind arith

module _ {A : Type 0} where
  abbrev pub In : A → List A → Type 0
  In a [] = ⊥
  In a (x ∷ xs) = (a ≡ x) ⊎ In a xs

  abbrev pub Distinct : List A → Type 0
  Distinct [] = Unit {0}
  Distinct (x ∷ xs) = (¬ In x xs) × Distinct xs

  pub In-append_left : (a : A) (xs ys : List A) → In a xs → In a (xs ++ ys)
  In-append_left a [] ys h = absurd h
  In-append_left a (x ∷ xs) ys (inl e) = inl e
  In-append_left a (x ∷ xs) ys (inr h) = inr (In-append_left a xs ys h)

  pub In-append_right : (a : A) (xs ys : List A) → In a ys → In a (xs ++ ys)
  In-append_right a [] ys h = h
  In-append_right a (x ∷ xs) ys h = inr (In-append_right a xs ys h)

  pub In-append : (a : A) (xs ys : List A) → In a (xs ++ ys) → In a xs ⊎ In a ys
  In-append a [] ys h = inr h
  In-append a (x ∷ xs) ys (inl e) = inl (inl e)
  In-append a (x ∷ xs) ys (inr h) = elim (In-append a xs ys h) [
    | inl l ↦ inl (inr l)
    | inr r ↦ inr r
  ]

  pub Distinct-snoc : (a : A) (xs : List A) → Distinct xs → ¬ In a xs → Distinct (xs ++ a ∷ [])
  Distinct-snoc a [] d out = (λ h. h, tt)
  Distinct-snoc a (x ∷ xs) d out = (
    λ h. elim (In-append x xs (a ∷ []) h) [
      | inl old ↦ d.0 old
      | inr last ↦ elim last [ inl e ↦ out (inl (sym e)) | inr no_more ↦ no_more ]
    ],
    Distinct-snoc a xs d.1 (λ h. out (inr h)),
  )

  -- The list without the entry that a membership proof points at.
  drop_at : (a : A) (xs : List A) → In a xs → List A
  drop_at a [] h = []
  drop_at a (x ∷ xs) (inl e) = xs
  drop_at a (x ∷ xs) (inr h) = x ∷ drop_at a xs h

  length-drop_at : (a : A) (xs : List A) (h : In a xs) → suc (length (drop_at a xs h)) ≡ length xs
  unfolding drop_at
  length-drop_at a [] h = absurd h
  length-drop_at a (x ∷ xs) (inl e) = refl
  length-drop_at a (x ∷ xs) (inr h) = omega (arith, length-drop_at a xs h)

  In-drop_at : (a b : A) (xs : List A) (h : In a xs) → ¬ (b ≡ a) → In b xs → In b (drop_at a xs h)
  unfolding drop_at
  In-drop_at a b [] h ne m = m
  In-drop_at a b (x ∷ xs) (inl e) ne (inl f) = absurd (ne (cc))
  In-drop_at a b (x ∷ xs) (inl e) ne (inr m) = m
  In-drop_at a b (x ∷ xs) (inr h) ne (inl f) = inl f
  In-drop_at a b (x ∷ xs) (inr h) ne (inr m) = inr (In-drop_at a b xs h ne m)

  -- Pigeonhole.
  pub length-le_of_Distinct :
      (xs ys : List A) → Distinct xs → ((a : A) → In a xs → In a ys) → length xs ≤ length ys
  length-le_of_Distinct [] ys d sub = omega arith
  length-le_of_Distinct (x ∷ xs) ys d sub =
      let here = sub x (inl refl) in
      omega (
        arith,
        length-drop_at x ys here,
        length-le_of_Distinct xs (drop_at x ys here) d.1
            (λ a m. In-drop_at x a ys here (λ (e : a ≡ x). d.0 (rw (← e) m)) (sub a (inr m))),
      )
