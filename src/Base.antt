-- ===== src/Base.antt =====
-- Shared names: numbers, lists, Boolean tests, byte strings and the conditional. A byte string
-- (`std::string`) is the list of its bytes, each below 256.
mod Tests
mod Lists
mod Bits
mod Texts
mod Conditions
pub use Tests.*
unfoldable pub use Lists.*
unfoldable pub use Bits.*
pub use Texts.*
unfoldable pub use Conditions.*
pub use Prim.Native.Nat.{ℕ, zero, suc, ◌+◌, ◌-◌, ◌*◌, ◌/◌, ◌%◌, ◌^◌, ◌≤◌, ◌<◌, min, bit_and, bit_or}
pub use mathlib.Core.Path.{◌≡◌, refl, sym, ap, ◌∙◌, subst}
pub use mathlib.Core.Logic.{◌≢◌, ◌↔◌, ◌⊎◌, inl, inr}
pub use mathlib.Core.Bool.{Bool, true, false, ◌&&◌, ◌||◌, not}
pub use mathlib.Core.Option.{Option, none, some}
pub use mathlib.Core.List.{List, [], ◌∷◌, ◌++◌, map}
pub use native.Mathlib.Omega.{arith}
