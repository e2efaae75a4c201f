-- ===== src/Prelude.antt =====
-- Names shared by every module: the libraries' names, passed on, the Boolean tests, the lists and
-- the results of the model.
mod Tests
mod Lists
mod Reads
mod Results
mod Texts
mod Families
pub use Tests.*
pub use Lists.*
pub use Reads.*
pub use Results.*
pub use Texts.*
pub use Families.*
pub use Prim.Native.Nat.{ℕ, zero, suc, ◌+◌, ◌-◌, ◌*◌, ◌/◌, ◌%◌, ◌^◌, ◌≤◌, ◌<◌}
pub use mathlib.Core.Path.{◌≡◌, refl, sym, ap, ◌∙◌, subst, fun_ext}
pub use mathlib.Core.Logic.{◌≢◌, ◌↔◌, ◌⊎◌, inl, inr}
pub use mathlib.Core.Bool.{Bool, true, false, not, ◌&&◌, ◌||◌}
pub use mathlib.Core.Option.{Option, none, some}
pub use mathlib.Core.List.{List, [], ◌∷◌, ◌++◌}
pub use native.Mathlib.Omega.{arith}
