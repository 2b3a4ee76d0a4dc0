-- ===== src/Base.antt =====
-- What the other modules share: the libraries' names passed on, and those of the children.
mod Tests
mod Lists
mod Digits
mod Bits
mod Word
mod Sign
mod Masks
mod Int
mod Sum
pub use Tests.*
pub use Lists.*
unfoldable pub use Bits.*
pub use Word.*
pub use Sign.*
pub use Masks.*
unfoldable pub use Int.*
unfoldable pub use Sum.*
pub use Prim.Native.Nat.{ℕ, zero, suc, ◌+◌, ◌-◌, ◌*◌, ◌/◌, ◌%◌, ◌^◌, ◌≤◌, ◌<◌, min, max}
pub use Prim.Native.Nat.{bit_and, bit_or, bit_xor}
pub use mathlib.Core.Path.{◌≡◌, refl, sym, ap, ap₂, ◌∙◌}
pub use mathlib.Core.Logic.{◌≢◌, ◌↔◌, ◌⊎◌, inl, inr}
pub use mathlib.Core.Bool.{Bool, true, false, ◌&&◌, ◌||◌, not}
pub use mathlib.Core.Option.{Option, none, some}
pub use mathlib.Core.List.{List, [], ◌∷◌, ◌++◌, map}
pub use native.Mathlib.Omega.{arith}
