-- ===== src/Reclaim/Epochs.antt =====
-- What the epoch based reclaimers share: a retired object stamped with an epoch, the loop at the
-- head of `empty` that takes the least reservation, and the epoch counter.
use pop_setbench.Base.{
  ◌≡◌, Bool-cases, ℕ, zero, suc, ◌≤◌, ◌<◌, inl, inr, arith, lt-suc_cases, ltb, if◌then◌else◌,
  u64_max,
}

-- `class RCUInfo`
pub record RcuInfo : Type 0 where
  pub obj : ℕ
  pub epoch : ℕ

abbrev pub rcu_info : ℕ → ℕ → RcuInfo
rcu_info o e = record { obj = o; epoch = e }

-- `for (i = 0; i < n; i++) if (reservations[i] < minEpoch) minEpoch = reservations[i];`
unfoldable pub min_epoch : ℕ → (ℕ → ℕ) → ℕ
min_epoch zero reservations = u64_max
min_epoch (suc n) reservations =
    let m = min_epoch n reservations in if ltb (reservations n) m then reservations n else m

pub min_epoch-le : (n : ℕ) (r : ℕ → ℕ) (i : ℕ) → i < n → min_epoch n r ≤ r i
unfolding min_epoch
min_epoch-le zero r i h = elim h [ ]
min_epoch-le (suc n) r i h = elim (lt-suc_cases i n h) [
  | inl lt ↦ ground (arith, min_epoch-le n r i lt)
  | inr e ↦ rw e (ground arith)
]

pub lt-min_epoch :
    (n : ℕ) (r : ℕ → ℕ) (e : ℕ) → e < u64_max → ((i : ℕ) → i < n → e < r i) → e < min_epoch n r
unfolding min_epoch
lt-min_epoch zero r e h all = h
lt-min_epoch (suc n) r e h all =
    ground (arith, lt-min_epoch n r e h (λ i lt. all i (omega arith)), all n (omega arith))

-- Below UINT64_MAX the least reservation is some thread's.
pub min_epoch_attained :
    (n : ℕ) (r : ℕ → ℕ) → min_epoch n r < u64_max → (i : ℕ) × (i < n) × (r i ≡ min_epoch n r)
unfolding min_epoch
min_epoch_attained zero r h = absurd (omega arith)
min_epoch_attained (suc n) r h = elim (Bool-cases (ltb (r n) (min_epoch n r))) [
  | inl t ↦ (n, omega arith, rw t)
  | inr f ↦ let (i, lt, e) = min_epoch_attained n r (ground arith) in (i, omega arith, rw f e)
]
