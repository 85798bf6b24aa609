-- ===== src/Prelude.antt =====
-- The names that the other modules share: those of the libraries, passed on, Boolean tests on the
-- native numbers, and the finite maps below.
pub mod Maps
pub mod Lists
pub mod Int
pub mod Tests
pub use Tests.{ltb, leb, ◌=ℕ◌, if◌then◌else◌, ltb→lt, leb→le, Bool-cases, Option-cases, =ℕ_refl}
pub use Lists.{length, take, length-append, keep, All, All-mono, All-apply}
pub use text.Mathlib.Text.{◌==◌}
pub use text.Mathlib.TextEquality.{eq_iff}
pub use text.Mathlib.TextPositions.{eq_refl}
pub use Prim.Native.Nat.{ℕ, zero, suc, ◌+◌, ◌-◌, ◌*◌, ◌/◌, ◌%◌, ◌^◌, ◌≤◌, ◌<◌}
pub use Prim.Native.String.{String}
pub use mathlib.Core.Path.{◌≡◌, refl, sym, ap, ◌∙◌, fun_ext, subst}
pub use mathlib.Core.Logic.{◌≢◌, ◌↔◌, ◌⊎◌, inl, inr}
pub use mathlib.Core.Bool.{Bool, true, false, not, ◌&&◌, ◌||◌, false≢true}
pub use mathlib.Core.Option.{Option, none, some}
pub use mathlib.Core.List.{List, [], ◌∷◌, ◌++◌, map, foldl, append-nil, append_assoc}
pub use native.Mathlib.Omega.{arith}
pub use Int.{ℤ, pos, negsuc, sub_ℕ, ltb_ℤ}
unfoldable pub use Int.{◌+ℤ◌, ◌*ℤ◌, int64}
pub use Maps.{
  Map, HasUniqueKeys, lookup-insert, insert-HasUniqueKeys, lookup-delete, delete-HasUniqueKeys,
  length-insert, length-delete, map_laws,
}
unfoldable pub use Maps.{lookup, insert, delete}
