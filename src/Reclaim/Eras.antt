-- ===== src/Reclaim/Eras.antt =====
-- What the interval based reclaimers share: a retired object with the epochs of its birth and its
-- retirement, and the loop of their `read`.
use pop_setbench.Base.{
  ℕ, zero, suc, ◌+◌, ◌≤◌, ◌<◌, ◌≡◌, inl, inr, Option, none, some, arith, ◌==◌, if◌then◌else◌,
  Bool-cases,
}

-- `class IntervalInfo` and `class HeInfo`
pub record IntervalInfo : Type 0 where
  pub obj : ℕ
  pub birth_epoch : ℕ
  pub retire_epoch : ℕ

abbrev pub interval_info : ℕ → ℕ → ℕ → IntervalInfo
interval_info o b r = record { obj = o; birth_epoch = b; retire_epoch = r }

-- What `read` returns, and the epoch that the thread has reserved then.
pub record EraReading : Type 0 where
  pub ret : ℕ
  pub era : ℕ

-- The loop of `read`: in round `k` the load of `obj` returns `loads k` and then the load of the
-- global epoch returns `eras k`, which other threads decide. A round that sees another epoch than
-- the one reserved reserves it and goes round again.
unfoldable pub era_loop : ℕ → (ℕ → ℕ) → (ℕ → ℕ) → ℕ → ℕ → Option EraReading
era_loop zero loads eras prev_epoch k = none
era_loop (suc fuel) loads eras prev_epoch k =
    let again = era_loop fuel loads eras (eras k) (k + 1) in
    if eras k == prev_epoch then some (record { ret = loads k; era = prev_epoch }) else again

-- The epoch that is reserved is the one that was read after the pointer.
pub era_loop_validated :
    (fuel : ℕ) (loads eras : ℕ → ℕ) (prev k : ℕ) (r : EraReading)
    → era_loop fuel loads eras prev k ≡ some r
    → (m : ℕ) × (k ≤ m) × (loads m ≡ r.ret) × (eras m ≡ r.era)
unfolding era_loop
era_loop_validated zero loads eras prev k r h = cc
era_loop_validated (suc fuel) loads eras prev k r h = elim (Bool-cases (eras k == prev)) [
  | inl same ↦ (k, omega arith, ground arith, ground arith)
  | inr moved ↦
      let (m, le, a, b) = era_loop_validated fuel loads eras (eras k) (k + 1) r (ground arith) in
      (m, omega arith, a, b)
]

-- Once two successive rounds see the same epoch, the loop ends.
pub era_loop_ends :
    (fuel : ℕ) (loads eras : ℕ → ℕ) (prev k rounds : ℕ)
    → eras (k + rounds) ≡ eras (k + rounds + 1)
    → rounds + 1 < fuel
    → (r : EraReading) × (era_loop fuel loads eras prev k ≡ some r)
unfolding era_loop
era_loop_ends zero loads eras prev k rounds stable lt = elim lt [ ]
era_loop_ends (suc zero) loads eras prev k rounds stable lt = absurd (omega arith)
era_loop_ends (suc (suc fuel)) loads eras prev k zero stable lt =
    elim (Bool-cases (eras k == prev)) [
      | inl same ↦ (record { ret = loads k; era = prev }, rw same)
      | inr moved ↦ (record { ret = loads (k + 1); era = eras k }, ground arith)
    ]
era_loop_ends (suc (suc fuel)) loads eras prev k (suc rounds) stable lt =
    elim (Bool-cases (eras k == prev)) [
      | inl same ↦ (record { ret = loads k; era = prev }, rw same)
      | inr moved ↦
          let e : k + suc rounds ≡ k + 1 + rounds = omega arith in
          rw moved (
            era_loop_ends (suc fuel) loads eras (eras k) (k + 1) rounds (rw e at stable)
              (omega arith))
    ]
