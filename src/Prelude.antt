-- ===== src/Prelude.antt =====
-- The names that the other modules share: the libraries', passed on, and those of the children.
mod Tests
mod Lists
mod Text
mod Fault
mod Arrays
mod Count
pub use Tests.*
pub use Lists.*
pub use Text.{CString, str_eq→eq, str_eq_refl, str_eq_iff, str_eq_comm, strn_eq_iff, strn_eq_refl}
pub use Fault.*
pub use Arrays.*
pub use Count.{count-append, count-range_from, length-range_from, perm_of_count, length-perm}
unfoldable pub use Count.{count, range_from}
unfoldable pub use Text.{str_eq, strn_eq}
pub use Prim.Native.Nat.{ℕ, zero, suc, ◌+◌, ◌-◌, ◌*◌, ◌/◌, ◌%◌, ◌^◌, ◌≤◌, ◌<◌, min}
pub use mathlib.Core.Path.{◌≡◌, refl, sym, ap, ap₂, subst, ◌∙◌}
pub use mathlib.Core.Logic.{◌≢◌, ◌↔◌, ◌⊎◌, inl, inr}
pub use mathlib.Core.Bool.{Bool, true, false, not, ◌&&◌, ◌||◌}
pub use mathlib.Core.Option.{Option, none, some}
pub use mathlib.Core.List.{List, [], ◌∷◌, ◌++◌, map, append-nil, append_assoc, map-append}
pub use native.Mathlib.Omega.{arith}
