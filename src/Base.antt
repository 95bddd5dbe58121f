-- ===== src/Base.antt =====
-- Names that the other modules share: the libraries', passed on, and those of the children.
-- `Equality` is Go's `==` and membership; `Numbers` the tests on native numbers; `Lists` lengths;
-- `Results` what a Go call may end in; `GoMap` and `Slice` stand for `map[string]V` and for a slice
-- that `make` has allocated and that is filled from the left; `Text` has `strings.Split` and `strings.Join`,
-- `Sorting` has `sort.Strings`; `Steps` chains calls that may fail.
mod Equality
mod Numbers
mod Lists
mod Results
pub mod GoMap
pub mod Slice
pub mod Text
pub mod Steps
pub mod Sorting
unfoldable pub use Equality.*
pub use Numbers.*
pub use Lists.*
pub use Results.*
pub use Prim.Native.Nat.{ℕ, zero, suc, ◌+◌, ◌-◌, ◌*◌, ◌≤◌, ◌<◌}
pub use Prim.Native.String.{String, ◌++◌ as ◌<>◌}
pub use mathlib.Core.Path.{◌≡◌, refl, sym, ap, ◌∙◌}
pub use mathlib.Core.Logic.{◌≢◌, ◌↔◌, ◌⊎◌, inl, inr}
pub use mathlib.Core.Bool.{Bool, true, false, not, ◌&&◌, ◌||◌}
pub use mathlib.Core.Option.{Option, none, some}
pub use mathlib.Core.List.{List, [], ◌∷◌, ◌++◌, map, append_assoc, append-nil}
pub use native.Mathlib.Omega.{arith}
unfoldable pub use mathlib.Core.Option.{or_else}
