-- ===== src/Prelude.antt =====
-- Names, tests, words, lists and bit laws that every module shares. No code of the program stands
-- here: the children are about C's integers and arrays.
mod Tests
mod Words
mod Lists
mod Bits
pub mod Fields
pub mod Int
pub mod Program
unfoldable pub use Tests.*
pub use Words.*
pub use Lists.*
pub use Fields.*
pub use Bits.*
pub use Prim.Native.Nat.{ℕ, zero, suc, ◌+◌, ◌-◌, ◌*◌, ◌/◌, ◌%◌, ◌^◌, ◌≤◌, ◌<◌, min, max}
pub use Prim.Native.Nat.{bit_and, bit_or, bit_xor}
pub use mathlib.Core.Path.{◌≡◌, refl, sym, ap, ap₂, ◌∙◌, subst}
pub use mathlib.Core.Logic.{◌≢◌, ◌↔◌, ◌⊎◌, inl, inr}
pub use mathlib.Core.Bool.{Bool, true, false, not, ◌&&◌, ◌||◌}
pub use mathlib.Core.Option.{Option, none, some}
pub use mathlib.Core.List.{List, [], ◌∷◌, ◌++◌, map}
pub use native.Mathlib.Omega.{arith}
