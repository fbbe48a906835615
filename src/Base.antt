-- ===== src/Base.antt =====
-- What the other modules share: names of the libraries passed on, Boolean tests, lists measured by
-- native numbers, and the panics and errors of Rust as values.
mod Tests
mod Lists
mod Panic
pub mod Bytes
pub mod Bits
pub mod Text
pub mod Address
unfoldable pub use Tests.*
pub use Lists.*
unfoldable pub use Panic.*
pub use Prim.Native.Nat.{ℕ, zero, suc, ◌+◌, ◌-◌, ◌*◌, ◌/◌, ◌%◌, ◌^◌, ◌≤◌, ◌<◌, min, max}
pub use mathlib.Core.Path.{◌≡◌, refl, sym, ap, ◌∙◌, fun_ext}
pub use mathlib.Core.Logic.{◌≢◌, ◌↔◌, ◌⊎◌, inl, inr}
pub use mathlib.Core.Bool.{Bool, true, false, not, ◌&&◌, ◌||◌}
pub use mathlib.Core.Option.{Option, none, some}
pub use mathlib.Core.List.{List, [], ◌∷◌, ◌++◌, map, append-nil, append_assoc}
pub use native.Mathlib.Omega.{arith}
