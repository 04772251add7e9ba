-- ===== src/Base.antt =====
-- The names that the other modules share: those of the libraries, passed on, Boolean tests and
-- the conditional, and lists and byte strings measured by native numbers (in the child modules).
mod Tests
mod Lists
mod CString
mod Decimal
mod Numerals
pub mod Memory
pub use Tests.*
pub use Lists.*
unfoldable pub use CString.*
unfoldable pub use Decimal.*
unfoldable pub use Numerals.*
pub use Prim.Native.Nat.{ℕ, zero, suc, ◌+◌, ◌-◌, ◌*◌, ◌/◌, ◌%◌, ◌^◌, ◌≤◌, ◌<◌, min}
pub use mathlib.Core.Path.{◌≡◌, refl, sym, ap, ap₂, subst, ◌∙◌}
pub use mathlib.Core.Logic.{◌≢◌, ◌↔◌, ◌⊎◌, inl, inr}
pub use mathlib.Core.Bool.{Bool, true, false, not, ◌&&◌, ◌||◌, true≢false}
pub use mathlib.Core.Option.{Option, none, some, some-injective, none-ne-some}
pub use mathlib.Core.List.{List, [], ◌∷◌, ◌++◌, map, append_assoc, append-nil}
pub use native.Mathlib.Omega.{arith}
