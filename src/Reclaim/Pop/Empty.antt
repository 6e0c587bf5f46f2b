-- ===== src/Reclaim/Pop/Empty.antt =====
-- What a scan frees: with the low watermark's limit, and without.
use pop_setbench.Base.{
  ℕ, suc, ◌+◌, ◌*◌, ◌<◌, ◌≡◌, refl, inl, inr, Bool, true, false, List, [], ◌∷◌, ◌++◌, arith, ◌==◌,
  ==_iff, ==_refl, Bool-cases, In, In-append_right, load, length, count, count-append,
}
use native.Mathlib.Nat.{add-zero}
use pop_setbench.Reclaim.Slots.{conflict, conflict-load}
use pop_setbench.Reclaim.Pop.{State, empty_loop, stops, empty, u32_mod}

module _ (stop : ℕ → Bool) (scanned : List ℕ) where
  loop-keeps :
      (p k : ℕ) (xs : List ℕ)
      → conflict scanned p ≡ true
      → In p xs
      → In p (empty_loop stop scanned k xs).kept
  unfolding empty_loop
  loop-keeps p k [] c m = m
  loop-keeps p k (x ∷ xs) c m = elim (Bool-cases (stop k)) [
    | inl t ↦ rw t m
    | inr f ↦ rw f (elim (Bool-cases (conflict scanned x)) [
      | inl here ↦ rw here (elim m [ inl e ↦ inl e | inr r ↦ inr (loop-keeps p (k + 1) xs c r) ])
      | inr free ↦ rw free (elim m [
        | inl e ↦ let c' : conflict scanned x ≡ true = rw (← e) c in absurd (clash c' free)
        | inr r ↦ loop-keeps p (k + 1) xs c r
      ])
    ])
  ]
    where
      clash : {b : Bool} → b ≡ true → b ≡ false → ⊥
      clash t f = cc

  loop-frees :
      ((k : ℕ) → stop k ≡ false)
      → (p k : ℕ) (xs : List ℕ) → conflict scanned p ≡ false
      → In p xs
      → In p (empty_loop stop scanned k xs).freed
  unfolding empty_loop
  loop-frees on p k [] c m = m
  loop-frees on p k (x ∷ xs) c m = rw (on k) (elim (Bool-cases (conflict scanned x)) [
    | inl here ↦ rw here (elim m [
      | inl e ↦ let c' : conflict scanned x ≡ false = rw (← e) c in absurd (clash here c')
      | inr r ↦ loop-frees on p (k + 1) xs c r
    ])
    | inr free ↦ rw free (elim m [ inl e ↦ inl e | inr r ↦ inr (loop-frees on p (k + 1) xs c r) ])
  ])
    where
      clash : {b : Bool} → b ≡ true → b ≡ false → ⊥
      clash t f = cc

  loop-count :
      (p k : ℕ) (xs : List ℕ)
      → count p (empty_loop stop scanned k xs).kept + count p (empty_loop stop scanned k xs).freed
        ≡ count p xs
  unfolding empty_loop count
  loop-count p k [] = refl
  loop-count p k (x ∷ xs) = elim (Bool-cases (stop k)) [
    | inl t ↦ rw t (omega arith)
    | inr f ↦ rw f (elim (Bool-cases (conflict scanned x)) [
      | inl here ↦ rw here (omega (arith, loop-count p (k + 1) xs))
      | inr free ↦ rw free (omega (arith, loop-count p (k + 1) xs))
    ])
  ]

  -- Behind the point at which the loop stops nothing is freed.
  loop-late :
      (xs ys : List ℕ) (k : ℕ)
      → stop (k + length xs) ≡ true
      → (zs : List ℕ) × ((empty_loop stop scanned k (xs ++ ys)).kept ≡ zs ++ ys)
  unfolding empty_loop
  loop-late [] [] k e = ([], refl)
  loop-late [] (y ∷ ys) k e = ([], let e' : stop k ≡ true = rw add-zero at e in rw e')
  loop-late (x ∷ xs) ys k e =
      let next : k + suc (length xs) ≡ k + 1 + length xs = omega arith in
      let (zs, q) = loop-late xs ys (k + 1) (rw next at e) in
      elim (Bool-cases (stop k)) [
        | inl t ↦ (x ∷ xs, rw t)
        | inr f ↦ elim (Bool-cases (conflict scanned x)) [
          | inl here ↦ (x ∷ zs, rw (f, here, q))
          | inr free ↦ (zs, rw (f, free, q))
        ]
      ]

-- An object that stands in a slot that is scanned stays in its bag.
pub empty-keeps :
    (tid j q p : ℕ) (s : State)
    → q < s.num_process * s.slots_per_thread
    → s.slots q ≡ p
    → In p (s.retired j)
    → In p ((empty tid s).retired j)
unfolding empty
empty-keeps tid j q p s lt e m = elim (Bool-cases (tid == j)) [
  | inr f ↦ rw f m
  | inl t ↦ rw t (
      loop-keeps (stops tid s) _ p 0 (s.retired tid)
        (rw (← e, conflict-load (s.num_process * s.slots_per_thread) s.slots q lt))
        (rw ((==_iff tid j).0 t) m))
]

-- Off the low watermark's path, an object in no slot is handed to the pool.
pub empty-frees :
    (tid p : ℕ) (s : State)
    → s.first_lo_entry_flag tid ≡ true
    → conflict (load (s.num_process * s.slots_per_thread) s.slots) p ≡ false
    → In p (s.retired tid)
    → In p ((empty tid s).pool tid)
unfolding empty
empty-frees tid p s off c m = rw ==_refl (
    In-append_right p (s.pool tid) _
      (loop-frees (stops tid s) _ (λ k. rw off) p 0 (s.retired tid) c m))

-- On the path of the low watermark, with a bag xs ++ ys of which xs is as long as the bag was
-- when the thread entered that path (positive and below 2^32), the bag still ends in ys after
-- empty.
pub empty_late :
    (tid : ℕ) (s : State) (xs ys : List ℕ)
    → s.first_lo_entry_flag tid ≡ false
    → s.retire_bag_size_when_entered_lo_wm tid ≡ length xs
    → 0 < length xs
    → length xs < u32_mod
    → s.retired tid ≡ xs ++ ys
    → (zs : List ℕ) × ((empty tid s).retired tid ≡ zs ++ ys)
unfolding empty
empty_late tid s xs ys on size pos small e =
    let scanned = load (s.num_process * s.slots_per_thread) s.slots in
    let over : stops tid s (0 + length xs) ≡ true = rw (on, size) (ground arith) in
    let (zs, q) = loop-late (stops tid s) scanned xs ys 0 over in (zs, rw (==_refl, e) q)

-- How often the address `p` stands in the bag and the pool of thread `j`.
abbrev pub held_by : ℕ → ℕ → State → ℕ
held_by p j s = count p (s.retired j) + count p (s.pool j)

pub empty-held : (p j tid : ℕ) (s : State) → held_by p j (empty tid s) ≡ held_by p j s
unfolding empty
empty-held p j tid s = elim (Bool-cases (tid == j)) [
  | inr f ↦ rw f
  | inl t ↦
      rw (t, (==_iff tid j).0 t, count-append)
        (omega (
          arith,
          loop-count (stops j s) (load (s.num_process * s.slots_per_thread) s.slots) p 0
              (s.retired j),
        ))
]
