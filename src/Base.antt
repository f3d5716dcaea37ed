-- ===== src/Base.antt =====
-- The names that the other modules share: the libraries', passed on, and those of the children.
mod Tests
mod Lists
mod Text
mod Results
pub mod Int
pub mod Decimal
pub mod Order
pub mod Sort
pub use Tests.*
pub use Lists.*
unfoldable pub use Lists.{all}
unfoldable pub use Text.{bytes, equal, contains, has_prefix, trim_prefix, to_lower, lower_byte}
pub use Text.{
  Bytes, equal_iff, equal_refl, trim_prefix-append, trim_prefix_sound, Bytes-set, equal-ne,
}
pub use Results.*
pub use Prim.Native.Nat.{ℕ, zero, suc, ◌+◌, ◌-◌, ◌*◌, ◌/◌, ◌%◌, ◌^◌, ◌≤◌, ◌<◌}
pub use mathlib.Core.Path.{◌≡◌, refl, sym, ap, ◌∙◌, subst}
pub use mathlib.Core.Logic.{◌≢◌, ◌↔◌, ◌⊎◌, inl, inr}
pub use mathlib.Core.Bool.{Bool, true, false, not, ◌&&◌, ◌||◌}
pub use mathlib.Core.Option.{Option, none, some}
pub use mathlib.Core.List.{List, [], ◌∷◌, ◌++◌, map}
pub use native.Mathlib.Omega.{arith}
