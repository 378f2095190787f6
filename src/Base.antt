-- ===== src/Base.antt =====
-- The names that the other modules share: the libraries', passed on, and those of the children.
mod Tests
mod Lists
mod Dicts
mod Every
mod Writes
mod Results
mod Bytes
mod Int
mod Sort
mod Utf8
pub use Tests.*
pub use Lists.*
pub use Dicts.*
pub use Every.*
pub use Writes.*
pub use Results.*
pub use Bytes.*
pub use Int.*
pub use Sort.*
pub use Utf8.*
unfoldable pub use Bytes.{
  text_eq, text_lt, cut_prefix, matches, starts_class, has_prefix, has_suffix, contains,
}
unfoldable pub use Utf8.{runes_after, runes}
unfoldable pub use Sort.{insert_sorted, sort}
unfoldable pub use Dicts.{lookup, insert, delete, update_all, any_value, count_values, values_where}
pub use Prim.Native.Nat.{ℕ, zero, suc, ◌+◌, ◌-◌, ◌*◌, ◌/◌, ◌%◌, ◌^◌, ◌≤◌, ◌<◌}
pub use mathlib.Core.Path.{◌≡◌, refl, sym, ap, ◌∙◌}
pub use mathlib.Core.Logic.{◌≢◌, ◌↔◌, ◌⊎◌, inl, inr}
pub use mathlib.Core.Bool.{Bool, true, false, ◌&&◌, ◌||◌, not}
pub use mathlib.Core.Option.{Option, none, some}
pub use mathlib.Core.List.{List, [], ◌∷◌, ◌++◌, map}
pub use native.Mathlib.Omega.{arith}
pub use Prim.Native.String.{String}
