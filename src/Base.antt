-- ===== src/Base.antt =====
-- Names shared by every module: the libraries', passed on, with Boolean tests, lists over the
-- native numbers and the equality of texts.
mod Tests
mod Lists
mod Sorting
mod Keys
mod Chosen
pub mod Bits
pub use Tests.*
unfoldable pub use Lists.*
unfoldable pub use Sorting.*
pub use Keys.*
unfoldable pub use Chosen.*
pub use Prim.Native.Nat.{ℕ, zero, suc, ◌+◌, ◌-◌, ◌*◌, ◌/◌, ◌%◌, ◌^◌, ◌≤◌, ◌<◌, min, max}
pub use Prim.Native.String.{String, len, ◌++◌ as text_append}
pub use Prim.Native.Char.{Char, code}
pub use mathlib.Core.Path.{◌≡◌, refl, sym, ap, subst, ◌∙◌}
pub use mathlib.Core.Logic.{◌≢◌, ◌↔◌, ◌⊎◌, inl, inr}
pub use mathlib.Core.Bool.{Bool, true, false, not, ◌&&◌, ◌||◌}
pub use mathlib.Core.Option.{Option, none, some}
pub use mathlib.Core.List.{List, [], ◌∷◌, ◌++◌, map}
pub use native.Mathlib.Omega.{arith}
pub use text.Mathlib.TextEquality.{eq_iff}
