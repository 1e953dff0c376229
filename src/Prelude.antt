-- ===== src/Prelude.antt =====
-- The names that the other modules share: the libraries', passed on, and those of the children
-- below. Bytes, words and code points are native numbers; their widths are written out.
mod Tests
mod Lists
pub mod Bits
pub mod Map
pub mod Pack
pub mod Text
pub use Tests.*
pub use Lists.*
pub use Prim.Native.Nat.{
  ℕ, zero, suc, ◌+◌, ◌-◌, ◌*◌, ◌/◌, ◌%◌, ◌^◌, ◌≤◌, ◌<◌, min, bit_and, bit_or, bit_xor,
}
pub use Prim.Native.String.{String}
pub use mathlib.Core.Path.{◌≡◌, refl, sym, ap, ap₂, subst, ◌∙◌}
pub use mathlib.Core.Logic.{◌≢◌, ◌↔◌, ◌⊎◌, inl, inr}
pub use mathlib.Core.Bool.{Bool, true, false, not, ◌&&◌, ◌||◌}
pub use mathlib.Core.Option.{Option, none, some}
pub use mathlib.Core.List.{List, [], ◌∷◌, ◌++◌, map, append-nil, append_assoc}
pub use native.Mathlib.Omega.{arith}
