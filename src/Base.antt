-- ===== src/Base.antt =====
-- The names that every part shares: the libraries', passed on, with the Boolean tests, the list
-- functions and the machine words of its children.
mod Tests
mod Lists
mod Words
mod Store
mod Int
mod Options
pub use Tests.*
pub use Lists.*
pub use Words.*
unfoldable pub use Store.{put}
pub use Store.{put_lem, put-ne}
pub use Int.*
pub use Options.*
pub use Prim.Native.Nat.{ℕ, zero, suc, ◌+◌, ◌-◌, ◌*◌, ◌/◌, ◌%◌, ◌^◌, ◌≤◌, ◌<◌}
pub use mathlib.Core.Path.{◌≡◌, refl, sym, ap, ◌∙◌, subst}
pub use mathlib.Core.Logic.{◌≢◌, ◌⊎◌, inl, inr}
pub use mathlib.Core.Bool.{Bool, true, false, ◌&&◌, ◌||◌, not}
pub use mathlib.Core.Option.{Option, none, some, some_inj}
pub use mathlib.Core.List.{List, [], ◌∷◌, ◌++◌}
pub use native.Mathlib.Omega.{arith}
