-- ===== src/Base/Arrays.antt =====
-- Arrays as functions from an index: one write, loops that read the first `n` cells.
use Prim.Native.Nat.{ℕ, zero, suc, ◌<◌}
use mathlib.Core.Path.{◌≡◌, refl}
use mathlib.Core.List.{List, [], ◌∷◌, ◌++◌}
use mathlib.Core.Logic.{inl, inr}
use native.Mathlib.Omega.{arith}
use pop_setbench.Base.Tests.{◌==◌, if◌then◌else◌}
use pop_setbench.Base.Lists.{
  length, lt-suc_cases, length-append, In, In-append_left, In-append_right, In-append,
}

-- `f[i] = a`
abbrev pub update {ℓ} : {A : Type ℓ} → (ℕ → A) → ℕ → A → ℕ → A
update f i a j = if i == j then a else f j

-- The values of the cells 0 … n-1, in order.
abbrev pub load {ℓ} : {A : Type ℓ} → ℕ → (ℕ → A) → List A
load zero f = []
load (suc n) f = load n f ++ f n ∷ []

pub length-load {ℓ} : {A : Type ℓ} (n : ℕ) (f : ℕ → A) → length (load n f) ≡ n
length-load zero f = refl
length-load (suc n) f = omega (arith, length-append (load n f) (f n ∷ []), length-load n f)

pub In-load : {A : Type 0} (n : ℕ) (f : ℕ → A) (i : ℕ) → i < n → In (f i) (load n f)
In-load zero f i h = elim h [ ]
In-load (suc n) f i h = elim (lt-suc_cases i n h) [
  | inl lt ↦ In-append_left (f i) (load n f) _ (In-load n f i lt)
  | inr e ↦ rw e (In-append_right (f n) (load n f) (f n ∷ []) (inl refl))
]

pub In-load_inv :
    {A : Type 0} (n : ℕ) (f : ℕ → A) (a : A) → In a (load n f) → (i : ℕ) × (i < n) × (a ≡ f i)
In-load_inv zero f a h = absurd h
In-load_inv (suc n) f a h = elim (In-append a (load n f) (f n ∷ []) h) [
  | inl old ↦ let (i, lt, e) = In-load_inv n f a old in (i, omega arith, e)
  | inr last ↦ elim last [ inl e ↦ (n, omega arith, e) | inr no_more ↦ absurd no_more ]
]
