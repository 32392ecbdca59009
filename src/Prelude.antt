-- ===== src/Prelude.antt =====
-- The names that the other modules share: the libraries', passed on, and those of the children.
mod Tests
mod Lists
mod Equality
mod Membership
mod Text
mod Split
mod Words
mod Assoc
mod Counting
mod Outcome
mod Utf8
mod Unique
mod Pigeonhole
pub use Tests.*
pub use Lists.*
pub use Equality.*
pub use Membership.*
pub use Text.*
pub use Split.*
pub use Words.*
unfoldable pub use Assoc.{lookup, or_insert}
pub use Assoc.{lookup-or_insert, IsInverse, or_insert-IsInverse}
pub use Counting.{count, find_map}
unfoldable pub use Counting.{split_on}
pub use Outcome.*
unfoldable pub use Utf8.{from_utf8, is_utf8}
pub use Utf8.{is_whitespace}
unfoldable pub use Unique.{all_inserted}
pub use Unique.{Apart, all_inserted_iff, all_inserted_sound}
pub use Pigeonhole.{length-Distinct, all_of_Distinct}
pub use Prim.Native.Nat.{ℕ, zero, suc, ◌+◌, ◌-◌, ◌*◌, ◌/◌, ◌%◌, ◌^◌, ◌≤◌, ◌<◌, min}
pub use Prim.Native.String.{String}
pub use mathlib.Core.Path.{◌≡◌, refl, sym, ap, ◌∙◌, subst}
pub use mathlib.Core.Logic.{◌≢◌, ◌↔◌, ◌⊎◌, inl, inr}
pub use mathlib.Core.Bool.{Bool, true, false, not, ◌&&◌, ◌||◌}
pub use mathlib.Core.Option.{Option, none, some}
pub use mathlib.Core.List.{List, [], ◌∷◌, ◌++◌, map}
pub use native.Mathlib.Omega.{arith}
