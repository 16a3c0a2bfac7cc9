-- ===== src/Base.antt =====
-- The names that every component shares: the libraries', passed on, and those of the children.
mod Tests
mod Lists
mod Table
mod Keyed
mod Sort
mod Text
mod Session
mod Invariants
mod Time
mod Values
mod Samples
pub use Values.{Json, Items, Fields}
pub use Tests.*
pub use Lists.*
pub use Table.*
pub use Keyed.*
unfoldable pub use Sort.*
pub use Sort.Sorted.*
pub use Sort.Unique.*
unfoldable pub use Text.*
pub use Session.*
pub use Time.*
pub use Invariants.*
unfoldable pub use Samples.*
pub use Prim.Native.Nat.{ℕ, zero, suc, ◌+◌, ◌-◌, ◌*◌, ◌/◌, ◌%◌, ◌^◌, ◌≤◌, ◌<◌, min, max}
pub use mathlib.Core.Path.{◌≡◌, refl, sym, ap, ◌∙◌}
pub use mathlib.Core.Logic.{◌≢◌, ◌↔◌, ◌⊎◌, inl, inr}
pub use mathlib.Core.Bool.{Bool, true, false, not, ◌&&◌, ◌||◌}
pub use mathlib.Core.Option.{Option, none, some}
pub use mathlib.Core.List.{List, [], ◌∷◌, ◌++◌, map}
pub use native.Mathlib.Omega.{arith}
pub use Prim.Native.String.{String}
