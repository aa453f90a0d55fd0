-- ===== src/Base.antt =====
-- The names that the other modules share: library names passed on, Boolean tests on native
-- numbers, integers, 256-bit words, and the result of a fallible computation.
mod Tests
mod Int
mod Ring
mod Word
mod Results
unfoldable pub use Tests.*
unfoldable pub use Int.*
unfoldable pub use Word.*
unfoldable pub use Results.*
pub use Prim.Native.Nat.{ℕ, zero, suc, ◌+◌, ◌-◌, ◌*◌, ◌/◌, ◌%◌, ◌^◌, ◌≤◌, ◌<◌}
pub use mathlib.Core.Path.{◌≡◌, refl, sym, ap, ◌∙◌}
pub use mathlib.Core.Logic.{◌≢◌, ◌↔◌, ◌⊎◌, inl, inr}
pub use mathlib.Core.Bool.{Bool, true, false, not, ◌&&◌, ◌||◌}
pub use mathlib.Core.List.{List, [], ◌∷◌}
pub use Ring.*
pub use native.Mathlib.Omega.{arith}
