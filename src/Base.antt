-- ===== src/Base.antt =====
-- The names that the other modules share: those of the libraries, passed on, and the tests, lists,
-- byte facts, copies and fields of the children.
mod Tests
mod Lists
mod Bytes
mod Overlay
mod Fields
mod Masks
pub use Tests.*
pub use Lists.*
unfoldable pub use Bytes.*
unfoldable pub use Overlay.*
pub use Masks.*
unfoldable pub use Fields.*
pub use Prim.Native.Nat.{
  ℕ, zero, suc, ◌+◌, ◌-◌, ◌*◌, ◌/◌, ◌%◌, ◌^◌, ◌≤◌, ◌<◌, min, bit_and, bit_or, bit_xor,
}
pub use mathlib.Core.Path.{◌≡◌, refl, sym, ap, ap₂, ◌∙◌, subst}
pub use mathlib.Core.Logic.{◌≢◌, ◌↔◌, ◌⊎◌, inl, inr}
pub use mathlib.Core.Bool.{Bool, true, false, not, ◌&&◌, ◌||◌}
pub use mathlib.Core.Option.{Option, none, some}
pub use mathlib.Core.List.{List, [], ◌∷◌, ◌++◌, map, append_assoc}
pub use native.Mathlib.Omega.{arith}
