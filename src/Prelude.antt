-- ===== src/Prelude.antt =====
-- The names that the other modules share: the libraries' names passed on, and those of the children.
pub mod Tests
pub mod Lists
pub mod Eq
pub mod Maps
pub mod Bits
pub mod Hash
pub mod Int
pub use Tests.*
pub use Lists.*
pub use Bits.*
unfoldable pub use broker.Prelude.Eq.{bytes_eq}
pub use broker.Prelude.Eq.{Bytes, codes, bytes_eq_self, bytes_eq_iff, nat_eq, bytes_eq_instance}
pub use Prim.Native.Nat.{ℕ, zero, suc, ◌+◌, ◌-◌, ◌*◌, ◌/◌, ◌%◌, ◌^◌, ◌≤◌, ◌<◌, bit_and, bit_or}
pub use mathlib.Core.Path.{◌≡◌, refl, sym, ap, ◌∙◌}
pub use mathlib.Core.Logic.{◌≢◌, ◌↔◌, ◌⊎◌, inl, inr}
pub use mathlib.Core.Bool.{Bool, true, false, not, ◌&&◌, ◌||◌}
pub use mathlib.Core.Option.{Option, none, some}
pub use mathlib.Core.List.{List, [], ◌∷◌, ◌++◌, map, append-nil, append_assoc}
pub use native.Mathlib.Omega.{arith}
