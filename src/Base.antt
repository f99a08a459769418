-- ===== src/Base.antt =====
-- Names that the other modules share: those of the libraries, passed on, and the children's tests,
-- list functions and byte strings.
mod Tests
mod Lists
mod ByteStrings
pub mod Options
pub use Tests.*
pub use Lists.*
pub use ByteStrings.{Bytes, codes, bytes_eq_iff, bytes_eq_refl}
unfoldable pub use ByteStrings.{bytes_eq}
pub use Prim.Native.Nat.{ℕ, zero, suc, ◌+◌, ◌-◌, ◌*◌, ◌/◌, ◌%◌, ◌^◌, ◌≤◌, ◌<◌}
pub use mathlib.Core.Path.{◌≡◌, refl, sym, ap, ap₂, ◌∙◌}
pub use mathlib.Core.Logic.{◌≢◌, ◌↔◌, ◌⊎◌, inl, inr}
pub use mathlib.Core.Bool.{Bool, true, false, not, ◌&&◌, ◌||◌}
pub use mathlib.Core.Option.{Option, none, some}
pub use mathlib.Core.List.{List, [], ◌∷◌, ◌++◌, map, append-nil, append_assoc}
pub use native.Mathlib.Omega.{arith}
