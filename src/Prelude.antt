-- ===== src/Prelude.antt =====
-- The names that the other modules share: the libraries' passed on, and those of the children.
mod Tests
mod Lists
mod Bytes
mod Fallible
mod Sets
mod Maps
pub mod Maybe
mod Value
pub use Tests.*
pub use Lists.*
pub use Bytes.*
pub use Fallible.*
pub use Sets.*
pub use Maps.*
pub use Value.*
unfoldable pub use Tests.{String-discrete, ℤ-discrete}
unfoldable pub use Value.{value_of}
pub use Prim.Native.Nat.{ℕ, zero, suc, ◌+◌, ◌-◌, ◌*◌, ◌/◌, ◌%◌, ◌^◌, ◌≤◌, ◌<◌, min}
pub use Prim.Native.String.{String}
pub use mathlib.Core.Path.{◌≡◌, refl, sym, ap, ◌∙◌, subst}
pub use mathlib.Core.Logic.{◌≢◌, ◌↔◌, ◌⊎◌, inl, inr}
pub use mathlib.Core.Bool.{Bool, true, false, not, ◌&&◌, ◌||◌}
pub use mathlib.Core.Option.{Option, none, some}
pub use mathlib.Core.List.{List, [], ◌∷◌, ◌++◌, map, append_assoc, append-nil}
pub use native.Mathlib.Omega.{arith}
unfoldable pub use native.Mathlib.Decide.{ℕ_discrete}
