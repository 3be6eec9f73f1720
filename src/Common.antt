-- ===== src/Common.antt =====
-- The names that every component of the router uses: the libraries', passed on, and those of the
-- children (tests, lists, texts, dictionaries, fallible results).
mod Tests
mod Lists
mod Chars
mod Find
mod Assoc
mod Results
pub mod Search
mod Decimal
pub use Tests.*
pub use Lists.*
unfoldable pub use Chars.*
unfoldable pub use Find.*
unfoldable pub use Assoc.*
unfoldable pub use Decimal.*
pub use Results.*
pub use Prim.Native.Nat.{ℕ, zero, suc, ◌+◌, ◌-◌, ◌*◌, ◌/◌, ◌%◌, ◌^◌, ◌≤◌, ◌<◌}
pub use mathlib.Core.Path.{◌≡◌, refl, sym, ap, ◌∙◌}
pub use mathlib.Core.Logic.{◌≢◌, ◌↔◌, ◌⊎◌, inl, inr}
pub use mathlib.Core.Bool.{Bool, true, false, not, ◌&&◌, ◌||◌}
pub use mathlib.Core.Option.{Option, none, some}
pub use mathlib.Core.List.{List, [], ◌∷◌, ◌++◌, append_assoc, append-nil}
pub use native.Mathlib.Omega.{arith}
