-- ===== src/Reclaim/Slots.antt =====
-- What the reclaimers with hazard pointers share: the array of slots, the test against a copy of
-- it, the loop of `endOp`, and the loop of `read`.
use pop_setbench.Base.{
  ℕ, zero, suc, ◌+◌, ◌*◌, ◌/◌, ◌≤◌, ◌<◌, ◌≡◌, ◌≢◌, ◌⊎◌, sym, refl, inl, inr, Bool, true, false,
  Option, none, some, List, [], ◌∷◌, arith, ◌==◌, ==_iff, if◌then◌else◌, Bool-cases, In, load,
  In-load, In-load_inv, update,
}

-- `for (i = 0; i < n; i++) slots[base + i] = NULL;`
unfoldable pub clear : ℕ → ℕ → (ℕ → ℕ) → ℕ → ℕ
clear zero base slots = slots
clear (suc n) base slots = update (clear n base slots) (base + n) 0

pub clear_outside :
    (n base : ℕ) (slots : ℕ → ℕ) (q : ℕ)
    → ((i : ℕ) → i < n → base + i ≢ q)
    → clear n base slots q ≡ slots q
unfolding clear
clear_outside zero base slots q out = refl
clear_outside (suc n) base slots q out =
    ground (arith, out n (omega arith), clear_outside n base slots q (λ i lt. out i (omega arith)))

-- `conflict`: is the pointer in the copy of the slots?
unfoldable pub conflict : List ℕ → ℕ → Bool
conflict [] ptr = false
conflict (x ∷ scanned) ptr = if ptr == x then true else conflict scanned ptr

conflict_of_In : (xs : List ℕ) (p : ℕ) → In p xs → conflict xs p ≡ true
unfolding conflict
conflict_of_In [] p h = absurd h
conflict_of_In (x ∷ xs) p (inl e) = ground arith
conflict_of_In (x ∷ xs) p (inr h) = ground (arith, conflict_of_In xs p h)

pub In-of_conflict : (xs : List ℕ) (p : ℕ) → conflict xs p ≡ true → In p xs
unfolding conflict
In-of_conflict [] p h = cc
In-of_conflict (x ∷ xs) p h = elim (Bool-cases (p == x)) [
  | inl t ↦ inl ((==_iff p x).0 t)
  | inr f ↦ inr (In-of_conflict xs p (rw f at h))
]

-- A pointer in one of the `n` slots that are scanned conflicts, and only such a pointer.
pub conflict-load :
    (n : ℕ) (slots : ℕ → ℕ) (q : ℕ) → q < n → conflict (load n slots) (slots q) ≡ true
conflict-load n slots q lt = conflict_of_In (load n slots) (slots q) (In-load n slots q lt)

pub conflict-load_inv :
    (n : ℕ) (slots : ℕ → ℕ) (p : ℕ)
    → conflict (load n slots) p ≡ true
    → (q : ℕ) × (q < n) × (p ≡ slots q)
conflict-load_inv n slots p h = In-load_inv n slots p (In-of_conflict (load n slots) p h)

-- `(T*)((size_t)ret & 0xfffffffffffffffc)`
abbrev pub real_ptr : ℕ → ℕ
real_ptr ret = ret / 4 * 4

-- The loop of `read`, on fuel: `loads k` is the value that the k-th atomic load of `obj` returns,
-- which other threads decide. A round loads, reserves what it has loaded, and loads again.
unfoldable pub read_loop :
    {S : Type 0} → (reserve : ℕ → S → S) → ℕ → (loads : ℕ → ℕ) → (k : ℕ) → S → Option (ℕ × S)
read_loop reserve zero loads k s = none
read_loop reserve (suc fuel) loads k s =
    let ret = loads k in
    let s' = reserve (real_ptr ret) s in
    let again = read_loop reserve fuel loads (k + 2) s' in
    if ret == loads (k + 1) then some (ret, s') else again

-- Once the pointer stays the same for the two loads of one round, the loop ends.
pub read_loop_ends :
    {S : Type 0} (reserve : ℕ → S → S) (fuel : ℕ) (loads : ℕ → ℕ) (k rounds : ℕ) (s : S)
    → loads (k + 2 * rounds) ≡ loads (k + 2 * rounds + 1)
    → rounds < fuel
    → (r : ℕ × S) × (read_loop reserve fuel loads k s ≡ some r)
unfolding read_loop
read_loop_ends reserve zero loads k rounds s stable lt = elim lt [ ]
read_loop_ends reserve (suc fuel) loads k zero s stable lt =
    let at : k + 2 * 0 ≡ k = omega arith in
    let same : (loads k == loads (k + 1)) ≡ true = ground (arith, rw at at stable) in
    ((loads k, reserve (real_ptr (loads k)) s), rw same)
read_loop_ends reserve (suc fuel) loads k (suc rounds) s stable lt =
    elim (Bool-cases (loads k == loads (k + 1))) [
      | inl same ↦ ((loads k, reserve (real_ptr (loads k)) s), rw same)
      | inr moved ↦
          let e : k + 2 * suc rounds ≡ k + 2 + 2 * rounds = omega arith in
          rw moved (
            read_loop_ends reserve fuel loads (k + 2) rounds (reserve (real_ptr (loads k)) s)
              (rw e at stable) (omega arith))
    ]

-- `for (i = 0; i < n; i++) dst[base + i] = src[i];`
unfoldable pub copy : ℕ → ℕ → (ℕ → ℕ) → (ℕ → ℕ) → ℕ → ℕ
copy zero base src dst = dst
copy (suc n) base src dst = update (copy n base src dst) (base + n) (src n)

pub copy_outside :
    (n base : ℕ) (src dst : ℕ → ℕ) (q : ℕ)
    → ((i : ℕ) → i < n → base + i ≢ q)
    → copy n base src dst q ≡ dst q
unfolding copy
copy_outside zero base src dst q out = refl
copy_outside (suc n) base src dst q out =
    ground (arith, out n (omega arith), copy_outside n base src dst q (λ i lt. out i (omega arith)))

pub copy_inside :
    (n base : ℕ) (src dst : ℕ → ℕ) (i : ℕ) → i < n → copy n base src dst (base + i) ≡ src i
unfolding copy
copy_inside zero base src dst i lt = elim lt [ ]
copy_inside (suc n) base src dst i lt = ground (arith, copy_inside n base src dst i)

-- A value that is neither in the source nor in the target is not in the result.
pub copy_avoids :
    (n base : ℕ) (src dst : ℕ → ℕ) (p q : ℕ)
    → ((i : ℕ) → i < n → src i ≢ p)
    → dst q ≢ p
    → copy n base src dst q ≢ p
unfolding copy
copy_avoids zero base src dst p q no_src no_dst = no_dst
copy_avoids (suc n) base src dst p q no_src no_dst = ground (
  arith,
  no_src n (omega arith),
  copy_avoids n base src dst p q (λ i lt. no_src i (omega arith)) no_dst,
)

-- The slots of two threads do not overlap.
pub slot_ne : (k a b i j : ℕ) → a ≢ b → i < k → j < k → a * k + i ≢ b * k + j
slot_ne k a b i j ne li lj e = elim (order a b ne) [
  | inl lt ↦ apart a b i j lt li e
  | inr gt ↦ apart b a j i gt lj (sym e)
]
  where
    order : (a b : ℕ) → a ≢ b → (a < b) ⊎ (b < a)
    order a b ne = grind arith

    apart : (a b i j : ℕ) → a < b → i < k → a * k + i ≡ b * k + j → ⊥
    apart a b i j lt li e = let above : suc a * k ≤ b * k = grind arith in grind arith
