-- ===== src/Common.antt =====
-- Names that every component shares: numbers, lists, byte strings, exceptions, integers, bits.
-- A `std::string` or a byte vector of the code is a list of bytes, `Bytes`.
mod Tests
mod Lists
mod Exceptions
mod Text
mod Iff
pub mod Bits
pub mod Int
pub use Tests.*
pub use Lists.*
pub use Exceptions.*
unfoldable pub use Text.*
pub use Int.*
pub use Iff.*
pub use Prim.Native.Nat.{ℕ, zero, suc, ◌+◌, ◌-◌, ◌*◌, ◌/◌, ◌%◌, ◌^◌, ◌≤◌, ◌<◌, min}
pub use Prim.Native.Nat.{bit_and, bit_or, bit_xor}
pub use mathlib.Core.Path.{◌≡◌, refl, sym, ap, ◌∙◌, subst}
pub use mathlib.Core.Logic.{◌≢◌, ◌↔◌, ◌⊎◌, inl, inr}
pub use mathlib.Core.Bool.{Bool, true, false, not, ◌&&◌, ◌||◌}
pub use mathlib.Core.Option.{Option, none, some}
pub use mathlib.Core.List.{List, [], ◌∷◌, ◌++◌, append-nil, append_assoc}
pub use native.Mathlib.Omega.{arith}
