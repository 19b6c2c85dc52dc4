-- ===== src/Prelude.antt =====
-- The names that the other modules share: the libraries', passed on, and those of the children.
mod Tests
mod Lists
mod Bytes
mod Results
mod Strings
pub use Tests.*
pub use Lists.*
pub use Results.*
pub use Bytes.{◌>>=◌, IsByte, All, read_bytes-append, read_bytes-take, read_bytes-none, text}
unfoldable pub use Bytes.{read_bytes}
pub use Bytes.{read_bytes_self, list_eq_iff}
unfoldable pub use Bytes.{list_eq}
unfoldable pub use Strings.{c_string, string_copy, starts, strstr}
pub use Strings.{Fits, c_string-copy, length-string_copy, drop-behind}
pub use Prim.Native.Nat.{ℕ, zero, suc, ◌+◌, ◌-◌, ◌*◌, ◌/◌, ◌%◌, ◌^◌, ◌≤◌, ◌<◌, min}
pub use Prim.Native.Nat.{bit_and, bit_xor}
pub use mathlib.Core.Path.{◌≡◌, refl, sym, ap, ap₂, ◌∙◌, subst}
pub use mathlib.Core.Logic.{◌≢◌, ◌↔◌, ◌⊎◌, inl, inr}
pub use mathlib.Core.Bool.{Bool, true, false, not, ◌&&◌, ◌||◌}
pub use mathlib.Core.Option.{Option, none, some}
pub use mathlib.Core.List.{List, [], ◌∷◌, ◌++◌, append_assoc, append-nil}
pub use native.Mathlib.Omega.{arith}
