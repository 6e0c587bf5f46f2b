-- ===== src/Base.antt =====
-- The names that the other modules share: the libraries', passed on, Boolean tests and the
-- conditional, 64-bit constants, and two children on lists and on arrays indexed by numbers.
mod Tests
pub mod Lists
pub mod Arrays
pub use Tests.*
unfoldable pub use Lists.{count}
pub use Lists.*
pub use Arrays.*
pub use Prim.Native.Nat.{ℕ, zero, suc, ◌+◌, ◌-◌, ◌*◌, ◌/◌, ◌%◌, ◌^◌, ◌≤◌, ◌<◌}
pub use mathlib.Core.Path.{◌≡◌, refl, sym, ap, ◌∙◌, subst}
pub use mathlib.Core.Logic.{◌≢◌, ◌↔◌, ◌⊎◌, inl, inr}
pub use mathlib.Core.Bool.{Bool, true, false, ◌&&◌, ◌||◌, not}
pub use mathlib.Core.Option.{Option, none, some}
pub use mathlib.Core.List.{List, [], ◌∷◌, ◌++◌, map, Perm}
pub use native.Mathlib.Omega.{arith}
unfoldable pub use native.Mathlib.Decide.{ℕ_discrete}

-- `uint64_t` arithmetic wraps at this modulus.
abbrev pub u64_mod : ℕ
u64_mod = 2 ^ 64

-- UINT64_MAX
abbrev pub u64_max : ℕ
u64_max = 2 ^ 64 - 1
