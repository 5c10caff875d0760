-- ===== src/Common.antt =====
-- The names that the other modules share: the libraries', passed on, with Boolean tests and lists
-- over the native numbers. Bytes are numbers below 256, and a text is the list of its UTF-8 bytes.
mod Tests
mod Lists
mod Panics
mod Results
mod Maps
pub mod Int
pub use Tests.*
unfoldable pub use Tests.{◌=?◌}
pub use Lists.*
pub use Panics.*
pub use Results.*
pub use Maps.*
unfoldable pub use Maps.{lookup, insert, from_pairs}
pub use Prim.Native.Nat.{ℕ, zero, suc, ◌+◌, ◌-◌, ◌*◌, ◌/◌, ◌%◌, ◌^◌, ◌≤◌, ◌<◌, min}
pub use mathlib.Core.Path.{◌≡◌, refl, sym, ap, subst, ◌∙◌}
pub use mathlib.Core.Logic.{◌≢◌, ◌↔◌, ◌⊎◌, inl, inr}
pub use mathlib.Core.Bool.{Bool, true, false, not, ◌&&◌, ◌||◌}
pub use mathlib.Core.Option.{Option, none, some}
pub use mathlib.Core.List.{List, [], ◌∷◌, ◌++◌, map, append-nil, append_assoc}
pub use native.Mathlib.Omega.{arith}
