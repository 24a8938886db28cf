-- ===== src/Base.antt =====
-- Names and lemmas that every part of the development shares.
mod Test
mod Lists
mod Strings
pub use Test.*
pub use Lists.*
pub use Strings.{
  Text, codes, text_eq, text_eq_refl, text_eq→eq, text_eq_iff, is_empty, Lacks, split_at-append,
  split_at-Lacks, split_at-some, split_at-none,
}
unfoldable pub use Strings.{split_at}
pub use Prim.Native.Nat.{ℕ, zero, suc, ◌+◌, ◌-◌, ◌*◌, ◌^◌, ◌≤◌, ◌<◌}
pub use mathlib.Core.Path.{◌≡◌, refl, sym, ap, ◌∙◌, subst}
pub use mathlib.Core.Logic.{◌≢◌, ◌⊎◌, ◌↔◌, inl, inr}
pub use mathlib.Core.Bool.{Bool, true, false, not, ◌&&◌, ◌||◌}
pub use mathlib.Core.Option.{Option, none, some}
pub use mathlib.Core.List.{List, [], ◌∷◌, ◌++◌, map, append_assoc, append-nil}
pub use native.Mathlib.Omega.{arith}
