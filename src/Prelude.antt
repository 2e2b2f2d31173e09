-- ===== src/Prelude.antt =====
-- The names that the other modules share: the libraries', passed on, and those of the children.
mod Tests
mod Lists
mod Keys
mod Text
pub mod Distinct
pub mod Sort
pub mod Hex
pub mod Space
pub mod Loop
pub use Tests.*
pub use Lists.*
unfoldable pub use Keys.{contains, lookup, insert, delete}
pub use Keys.{
  Eq, ◌==◌, list_beq, list_beq_iff, nat_eq, eq_self, eq_of_beq, contains-append, lookup-insert,
  lookup-delete, IsNodup,
}
unfoldable pub use Text.{bytes_beq, bytes_ltb, has_prefix}
pub use Text.{
  bytes_ltb_self, bytes_ltb_trans, bytes_ltb_split, Bytes, bytes_beq_iff, bytes_eq, codes, is_empty,
  is_empty_nil,
}
pub use Prim.Native.Nat.{ℕ, zero, suc, ◌+◌, ◌-◌, ◌*◌, ◌/◌, ◌%◌, ◌^◌, ◌≤◌, ◌<◌}
pub use Prim.Native.String.{String}
pub use mathlib.Core.Path.{◌≡◌, refl, sym, ap, ◌∙◌, subst}
pub use mathlib.Core.Logic.{◌≢◌, ◌↔◌, ◌⊎◌, inl, inr}
pub use mathlib.Core.Bool.{Bool, true, false, ◌&&◌, ◌||◌, not}
pub use mathlib.Core.Option.{Option, none, some}
pub use mathlib.Core.List.{List, [], ◌∷◌, ◌++◌, map}
pub use native.Mathlib.Omega.{arith}
