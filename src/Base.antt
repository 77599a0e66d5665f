-- ===== src/Base.antt =====
-- What the modules share: library names, texts, lists, signed numbers and the conditional.
mod Bools
mod Lists
mod Strings
mod Lines
mod Int
mod PosixPath
mod Folds
unfoldable pub use Bools.*
unfoldable pub use Lists.*
unfoldable pub use Strings.*
unfoldable pub use Lines.*
unfoldable pub use Int.*
unfoldable pub use PosixPath.*
unfoldable pub use Folds.*
pub use Prim.Native.Nat.{ℕ, zero, suc, ◌+◌, ◌-◌, ◌*◌, ◌/◌, ◌%◌, ◌≤◌, ◌<◌}
pub use mathlib.Core.Path.{◌≡◌, refl, sym, ap, ◌∙◌, fun_ext, subst}
pub use mathlib.Core.Logic.{◌≢◌, ◌↔◌, ◌⊎◌, inl, inr}
pub use mathlib.Core.Bool.{Bool, true, false, not, ◌&&◌, ◌||◌}
pub use mathlib.Core.Option.{Option, none, some}
pub use mathlib.Core.List.{List, [], ◌∷◌}
unfoldable pub use mathlib.Core.List.{◌++◌, map, reverse, flatten}
pub use mathlib.Core.List.{append-nil, append_assoc, map-append}
pub use native.Mathlib.Omega.{arith}
