-- ===== src/Common.antt =====
-- Names that every other module shares: the libraries', passed on, and those of the children.
mod Tests
mod Lists
mod Text
mod Split
pub use Tests.*
pub use Lists.*
pub use Text.{
  ◌==◌, eq_iff, eq_refl, includes, truthy, or_else, strip_prefix-append, strip_prefix_sound,
}
unfoldable pub use Text.{strip_prefix}
pub use Split.{Lacks, split_on_of_Lacks}
unfoldable pub use Split.{split_on, trim}
pub use Prim.Native.Nat.{ℕ, min, zero, suc, ◌+◌, ◌-◌, ◌*◌, ◌≤◌, ◌<◌}
pub use Prim.Native.String.{String}
pub use mathlib.Core.Path.{◌≡◌, refl, sym, ap, ◌∙◌}
pub use mathlib.Core.Logic.{◌≢◌, ◌↔◌, ◌⊎◌, inl, inr}
pub use mathlib.Core.Bool.{Bool, true, false, not, ◌&&◌, ◌||◌}
pub use mathlib.Core.Option.{Option, none, some}
pub use mathlib.Core.List.{List, [], ◌∷◌, ◌++◌, map}
pub use native.Mathlib.Omega.{arith}
