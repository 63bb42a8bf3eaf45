-- ===== src/Common.antt =====
-- Names, tests and list lemmas that every module of the library shares.
mod Tests
mod Lists
mod Counts
mod Slices
mod Int
pub use Tests.*
pub use Lists.*
pub use Slices.*
pub use Int.*
pub use Counts.{hit, count-append, count-snoc, total-set, total-append}
unfoldable pub use Counts.{count, total}
pub use Prim.Native.Nat.{ℕ, zero, suc, ◌+◌, ◌-◌, ◌*◌, ◌^◌, ◌%◌, ◌≤◌, ◌<◌, min}
pub use mathlib.Core.Path.{◌≡◌, refl, sym, ap, subst, ◌∙◌}
pub use mathlib.Core.Logic.{◌≢◌, ◌↔◌, ◌⊎◌, inl, inr}
pub use mathlib.Core.Bool.{Bool, true, false, not, ◌&&◌, ◌||◌}
pub use mathlib.Core.Option.{Option, none, some}
pub use mathlib.Core.List.{List, [], ◌∷◌, ◌++◌, map, append-nil, append_assoc}
pub use native.Mathlib.Omega.{arith}
