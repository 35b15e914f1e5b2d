-- ===== src/Base.antt =====
-- Names that all parts share: the libraries', passed on, and those of the children: Boolean tests,
-- lists measured by native numbers, text as code points, and dicts.
mod Tests
mod Lists
mod Texts
mod Dicts
mod Results
pub mod Strings
pub mod Strip
pub mod Tables
pub mod Keys
pub mod Utf8
pub mod Unquote
pub mod Unquoted
pub use Tests.*
pub use Lists.*
pub use Results.*
unfoldable pub use Texts.*
unfoldable pub use Dicts.*
pub use Prim.Native.Nat.{ℕ, zero, suc, ◌+◌, ◌-◌, ◌*◌, ◌/◌, ◌%◌, ◌≤◌, ◌<◌}
pub use mathlib.Core.Path.{◌≡◌, refl, sym, ap, subst, ◌∙◌}
pub use mathlib.Core.Logic.{◌≢◌, ◌↔◌, ◌⊎◌, inl, inr, ⊎_elim}
pub use mathlib.Core.Bool.{Bool, true, false, not, ◌&&◌, ◌||◌}
pub use mathlib.Core.Option.{Option, none, some}
pub use mathlib.Core.List.{List, [], ◌∷◌, ◌++◌, map, foldl, append-nil, append_assoc, map-append}
pub use mathlib.Core.List.{Memᴰ, Sublistᴰ}
pub use native.Mathlib.Omega.{arith}
