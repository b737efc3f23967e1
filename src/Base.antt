-- ===== src/Base.antt =====
-- The names that the other modules share: the libraries', passed on, and those of three children.
pub mod Tests
pub mod Lists
pub mod Int
pub mod Outcomes
pub use Tests.*
pub use Lists.*
pub use Int.*
pub use Outcomes.*
unfoldable pub use Lists.{remove, replicate}
unfoldable pub use Int.{◌==ℤ◌, ltb_ℤ}
pub use Prim.Native.Nat.{ℕ, zero, suc, ◌+◌, ◌-◌, ◌*◌, ◌/◌, ◌%◌, ◌^◌, ◌≤◌, ◌<◌}
pub use mathlib.Core.Path.{◌≡◌, refl, sym, ap, ◌∙◌, subst, fun_ext}
pub use mathlib.Core.Logic.{◌≢◌, ◌↔◌, ◌⊎◌, inl, inr}
pub use mathlib.Core.Bool.{Bool, true, false, not, ◌&&◌, ◌||◌}
pub use mathlib.Core.Option.{Option, none, some}
pub use mathlib.Core.List.{List, [], ◌∷◌, ◌++◌, map, reverse}
pub use native.Mathlib.Omega.{arith}
