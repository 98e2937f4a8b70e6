-- ===== src/Common.antt =====
-- Names that every part shares: the libraries' names passed on, the tests on numbers, lists
-- measured by native numbers, 32-bit positions and blocks of bytes.
mod Tests
mod Lists
mod Words
mod Block
mod Mask
mod Text
pub use Tests.*
pub use Lists.*
pub use Words.*
pub use Mask.*
pub use Text.*
unfoldable pub use Block.*
pub use Prim.Native.Nat.{ℕ, zero, suc, ◌+◌, ◌-◌, ◌*◌, ◌/◌, ◌%◌, ◌^◌, ◌≤◌, ◌<◌, min, max, bit_and}
pub use mathlib.Core.Path.{◌≡◌, refl, sym, ap, ap₂, ◌∙◌, subst}
pub use mathlib.Core.Logic.{◌≢◌, ◌↔◌, ◌⊎◌, inl, inr}
pub use mathlib.Core.Bool.{Bool, true, false, not, ◌&&◌, ◌||◌}
pub use mathlib.Core.Option.{Option, none, some}
pub use mathlib.Core.List.{List, [], ◌∷◌, ◌++◌, map, reverse, flatten, append-nil, append_assoc}
pub use native.Mathlib.Omega.{arith}
