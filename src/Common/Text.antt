-- ===== src/Common/Text.antt =====
-- Text as the source uses it: `===`, `includes` on arrays of strings, truthiness, prefixes.
use Prim.Native.Char.{code}
use Prim.Native.String.{String, [], ◌∷◌, ◌++◌}
use mathlib.Core.Path.{◌≡◌}
use mathlib.Core.Logic.{ite}
use mathlib.Core.Bool.{Bool, false, not}
use mathlib.Core.Option.{Option, none, some}
use mathlib.Core.List.{List}
use native.Mathlib.Decide.{ℕ_discrete}
use native.Mathlib.Omega.{arith}
use text.Mathlib.TextEquality.{Char-path}
use text.Mathlib.TextLemmas.{nil-append, cons-append}
use tactix.Common.Tests.{if◌then◌else◌}
use tactix.Common.Lists.{any}
pub use text.Mathlib.Text.{◌==◌}
pub use text.Mathlib.TextEquality.{eq_iff}
pub use text.Mathlib.TextPositions.{eq_refl}

-- `array.includes(s)`
abbrev pub includes : String → List String → Bool
includes s xs = any (λ x. x == s) xs

-- Truthiness of a string that may be undefined or null: "" is falsy.
abbrev pub truthy : Option String → Bool
truthy none = false
truthy (some s) = not (s == "")

-- `s || d` on such a string
abbrev pub or_else : Option String → String → String
or_else none d = d
or_else (some s) d = if s == "" then d else s

-- `s.startsWith(p)` with `s.slice(p.length)`: the text behind the prefix.
unfoldable pub strip_prefix : String → String → Option String
unfolding ℕ_discrete
strip_prefix [] s = some s
strip_prefix (c ∷ p) [] = none
strip_prefix (c ∷ p) (d ∷ s) =
    let rest = strip_prefix p s in ite (ℕ_discrete (code c) (code d)) rest none

pub strip_prefix-append : (p s : String) → strip_prefix p (p ++ s) ≡ some s
unfolding strip_prefix
strip_prefix-append [] s = rw nil-append
strip_prefix-append (c ∷ p) s = rw cons-append (ground (arith, strip_prefix-append p s))

pub strip_prefix_sound : (p g s : String) → strip_prefix p g ≡ some s → g ≡ p ++ s
unfolding strip_prefix
strip_prefix_sound [] g s h = rw nil-append (ground arith)
strip_prefix_sound (c ∷ p) [] s h = cc
strip_prefix_sound (c ∷ p) (d ∷ g) s h =
    rw cons-append (ground (arith, Char-path c d, strip_prefix_sound p g s))
