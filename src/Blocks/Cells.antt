-- ===== src/Blocks/Cells.antt =====
-- An array and the number of its cells in use: what writes do to the values in use.
use pop_setbench.Base.{
  ℕ, zero, suc, ◌+◌, ◌<◌, ◌≤◌, ◌≡◌, refl, ap, inl, inr, Option, none, some, arith, ◌==◌, ==_refl,
  if◌then◌else◌, lt-suc_cases, load, update, count, count-append,
}

-- 1 if the values are the same.
abbrev pub hit : ℕ → ℕ → ℕ
hit p v = if p == v then 1 else 0

-- How often the value `p` stands in the first `n` cells.
unfoldable pub tally : ℕ → ℕ → (ℕ → ℕ) → ℕ
tally p n cells = count p (load n cells)

pub tally-suc :
    (p n : ℕ) (cells : ℕ → ℕ) → tally p (suc n) cells ≡ tally p n cells + hit p (cells n)
unfolding tally count
tally-suc p n cells = rw count-append (omega arith)

-- A write above the cells in use does not show.
load_above : (n i : ℕ) (cells : ℕ → ℕ) (v : ℕ) → n ≤ i → load n (update cells i v) ≡ load n cells
load_above zero i cells v le = refl
load_above (suc n) i cells v le =
    let e : update cells i v n ≡ cells n = ground arith in
    rw (e, load_above n i cells v (omega arith))

pub tally-above :
    (p n i : ℕ) (cells : ℕ → ℕ) (v : ℕ) → n ≤ i → tally p n (update cells i v) ≡ tally p n cells
unfolding tally
tally-above p n i cells v le = rw (load_above n i cells v le)

tally-update_last :
    (p n : ℕ) (cells : ℕ → ℕ) (v : ℕ)
    → tally p (suc n) (update cells n v) + hit p (cells n) ≡ tally p (suc n) cells + hit p v
tally-update_last p n cells v =
    let e : hit p (update cells n v n) ≡ hit p v = rw (==_refl n) in
    omega (
      arith,
      e,
      tally-suc p n cells,
      tally-suc p n (update cells n v),
      tally-above p n n cells v (omega arith),
    )

-- A write to a cell in use replaces its value.
pub tally-update :
    (p n i : ℕ) (cells : ℕ → ℕ) (v : ℕ)
    → i < n
    → tally p n (update cells i v) + hit p (cells i) ≡ tally p n cells + hit p v
tally-update p zero i cells v lt = elim lt [ ]
tally-update p (suc n) i cells v lt = elim (lt-suc_cases i n lt) [
  | inr same ↦ rw same (tally-update_last p n cells v)
  | inl below ↦
      let same : update cells i v n ≡ cells n = ground arith in
      let e : hit p (update cells i v n) ≡ hit p (cells n) = ap (hit p) same in
      omega (
        arith,
        e,
        tally-suc p n cells,
        tally-suc p n (update cells i v),
        tally-update p n i cells v below,
      )
]

-- The first cell below `n` that holds `obj`.
unfoldable pub find_index : ℕ → (ℕ → ℕ) → ℕ → Option ℕ
find_index zero cells obj = none
find_index (suc n) cells obj = elim (find_index n cells obj) [
  | some i ↦ some i
  | none ↦ if cells n == obj then some n else none
]
