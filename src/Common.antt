-- ===== src/Common.antt =====
-- What the other modules share: the libraries' names passed on, Boolean tests and conditionals,
-- lists measured by native numbers, machine words, signed numbers and association lists.
mod Tests
mod Lists
mod Assoc
mod Num
mod Results
mod Text
mod Bits
mod Words
pub mod RoundTrip
pub use Tests.*
pub use Lists.*
unfoldable pub use Assoc.*
pub use Num.*
pub use Results.*
unfoldable pub use Text.*
pub use Bits.*
unfoldable pub use Words.*
pub use Prim.Native.Nat.{bit_or, bit_xor}
pub use Prim.Native.Nat.{ℕ, zero, suc, ◌+◌, ◌-◌, ◌*◌, ◌/◌, ◌%◌, ◌^◌, ◌≤◌, ◌<◌, min, max}
pub use Prim.Native.String.{String}
pub use mathlib.Core.Path.{◌≡◌, refl, sym, ap, ◌∙◌}
pub use mathlib.Core.Logic.{◌≢◌, ◌↔◌, ◌⊎◌, inl, inr}
pub use mathlib.Core.Bool.{Bool, true, false, ◌&&◌, ◌||◌, not}
pub use mathlib.Core.Option.{Option, none, some}
pub use mathlib.Core.List.{List, [], ◌∷◌, ◌++◌, map}
pub use native.Mathlib.Omega.{arith}
pub use text.Mathlib.Text.{◌==◌ as str_eq}
pub use text.Mathlib.TextEquality.{eq_iff}
pub use text.Mathlib.TextPositions.{eq_refl}
