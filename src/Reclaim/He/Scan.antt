-- ===== src/Reclaim/He/Scan.antt =====
-- The scan of the slots and the test against it.
use pop_setbench.Base.{
  ℕ, zero, suc, ◌+◌, ◌*◌, ◌-◌, ◌≤◌, ◌<◌, ◌≡◌, ◌⊎◌, inl, inr, arith, false, ltb, ◌||◌, ◌==◌,
  Bool-cases, lt-suc_cases,
}
use pop_setbench.Reclaim.Slots.{copy_inside, copy_outside, slot_ne}
use pop_setbench.Reclaim.He.{freeable_loop, scan}

-- Every slot of every thread is copied to its place.
pub scan_at :
    (n k : ℕ) (r : ℕ → ℕ → ℕ) (junk : ℕ → ℕ) (i j : ℕ)
    → i < n
    → j < k
    → scan n k r junk (i * k + j) ≡ r i j
unfolding scan
scan_at zero k r junk i j lt lj = elim lt [ ]
scan_at (suc n) k r junk i j lt lj = elim (lt-suc_cases i n lt) [
  | inr e ↦ rw e (copy_inside k (n * k) (r n) (scan n k r junk) j lj)
  | inl below ↦
      let out =
        copy_outside k (n * k) (r n) (scan n k r junk) (i * k + j)
          (λ a la. slot_ne k n i a j (λ e. absurd (omega arith)) la lj) in
      rw out (scan_at n k r junk i j below lj)
]

-- Every place that is looked at holds some slot.
pub place_of : (n k q : ℕ) → q < n * k → (i : ℕ) × (j : ℕ) × (i < n) × (j < k) × (q ≡ i * k + j)
place_of zero k q lt = absurd (omega arith)
place_of (suc n) k q lt = elim (split (n * k) q) [
  | inl below ↦ let (i, j, li, lj, e) = place_of n k q below in (i, j, omega arith, lj, e)
  | inr above ↦
      let step : suc n * k ≡ n * k + k = grind arith in
      (n, q - n * k, omega arith, omega arith, omega arith)
]
  where
    split : (a q : ℕ) → (q < a) ⊎ (a ≤ q)
    split a q = grind arith

-- An era of the lifetime keeps the object.
pub is_freeable_of_era :
    (n : ℕ) (scanned : ℕ → ℕ) (b r q : ℕ)
    → q < n
    → 0 < scanned q
    → b ≤ scanned q
    → scanned q ≤ r
    → freeable_loop n scanned b r ≡ false
unfolding freeable_loop
is_freeable_of_era zero scanned b r q lt pos hb hr = elim lt [ ]
is_freeable_of_era (suc n) scanned b r q lt pos hb hr = elim (lt-suc_cases q n lt) [
  | inl below ↦ ground (arith, is_freeable_of_era n scanned b r q below pos hb hr)
  | inr e ↦
      let pos' : 0 < scanned n = rw (← e) pos in
      let hb' : b ≤ scanned n = rw (← e) hb in let hr' : scanned n ≤ r = rw (← e) hr in ground arith
]

pub era_of_not_freeable :
    (n : ℕ) (scanned : ℕ → ℕ) (b r : ℕ)
    → freeable_loop n scanned b r ≡ false
    → (q : ℕ) × (q < n) × (0 < scanned q) × (b ≤ scanned q) × (scanned q ≤ r)
unfolding freeable_loop
era_of_not_freeable zero scanned b r h = cc
era_of_not_freeable (suc n) scanned b r h =
    elim (Bool-cases (ltb (scanned n) b || ltb r (scanned n) || (scanned n == 0))) [
      | inr f ↦ (n, omega arith, ground arith, ground arith, ground arith)
      | inl t ↦
          let (q, lt, pos, hb, hr) = era_of_not_freeable n scanned b r (rw t at h) in
          (q, omega arith, pos, hb, hr)
    ]
