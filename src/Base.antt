-- ===== src/Base.antt =====
-- The names that the other modules share: the libraries', passed on, and those of two children.
mod Tests
mod Lists
mod Keys
pub use Tests.{
  ltb, leb, ◌==◌, if◌then◌else◌, ltb→lt, lt→ltb, ne→eqb, ==_iff, Bool-cases, Option-cases,
  same_table_lem,
}
pub use Keys.*
pub use Lists.{
  length, take, drop, select, length-append, length-take_of_le, take-append_length,
  drop-append_length,
}
pub use Prim.Native.Nat.{ℕ, zero, suc, ◌+◌, ◌-◌, ◌*◌, ◌/◌, ◌%◌, ◌^◌, ◌≤◌, ◌<◌, bit_and, bit_or}
pub use Prim.Native.String.{String}
pub use mathlib.Core.Path.{◌≡◌, refl, sym, ap, ◌∙◌, subst}
pub use mathlib.Core.Logic.{◌≢◌, ◌↔◌, ◌⊎◌, inl, inr}
pub use mathlib.Core.Bool.{Bool, true, false, not, ◌&&◌, ◌||◌}
pub use mathlib.Core.Option.{Option, none, some}
pub use mathlib.Core.List.{List, [], ◌∷◌, ◌++◌, map, append-nil, append_assoc, Memᴰ}
pub use native.Mathlib.Omega.{arith}
unfoldable pub use Tests.{same_table}
