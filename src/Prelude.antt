-- ===== src/Prelude.antt =====
-- The names that all modules share: the libraries', passed on, and those of the children.
mod Tests
mod Lists
mod Calls
mod Int
mod Text
mod Maps
pub use Tests.*
pub use Lists.*
pub use Calls.*
unfoldable pub use Calls.{guard}
pub use Int.*
pub use Text.{Bytes, codes, same_iff, same_refl, same→eq, same_sound, slice}
unfoldable pub use Text.{same, has_prefix, has_byte}
pub use Maps.{
  Assoc, insert, lookup-erase_self, lookup-erase_ne, lookup-insert_self, lookup-insert_ne,
}
unfoldable pub use Maps.{lookup, erase}
pub use Prim.Native.Nat.{ℕ, zero, suc, ◌+◌, ◌-◌, ◌*◌, ◌/◌, ◌%◌, ◌^◌, ◌≤◌, ◌<◌, min}
pub use mathlib.Core.Path.{◌≡◌, refl, sym, ap, ◌∙◌, subst}
pub use mathlib.Core.Logic.{◌≢◌, ◌↔◌, ◌⊎◌, inl, inr}
pub use mathlib.Core.Bool.{Bool, true, false, not, ◌&&◌, ◌||◌}
pub use mathlib.Core.Option.{Option, none, some}
pub use mathlib.Core.List.{List, [], ◌∷◌, ◌++◌, map, append-nil, append_assoc}
pub use native.Mathlib.Omega.{arith}
