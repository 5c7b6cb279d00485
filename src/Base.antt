-- ===== src/Base.antt =====
-- The names that the other modules share: the library's, passed on, and the helpers of the
-- children: tests on numbers, lists with native indices, signed integers, C strings, and the
-- results of steps that may fault.
mod Tests
mod Lists
mod Signed
mod Text
mod Outcomes
pub use Tests.*
pub use Lists.*
pub use Signed.*
pub use Text.*
pub use Outcomes.*
pub use Prim.Native.Nat.{ℕ, zero, suc, ◌+◌, ◌-◌, ◌*◌, ◌/◌, ◌%◌, ◌^◌, ◌≤◌, ◌<◌, min}
pub use mathlib.Core.Path.{◌≡◌, refl, sym, ap, ◌∙◌}
pub use mathlib.Core.Logic.{◌≢◌, ◌↔◌, ◌⊎◌, inl, inr}
pub use mathlib.Core.Bool.{Bool, true, false, not, ◌&&◌, ◌||◌}
pub use mathlib.Core.Option.{Option, none, some}
pub use mathlib.Core.List.{List, [], ◌∷◌, ◌++◌, append_assoc, append-nil}
pub use native.Mathlib.Omega.{arith}
