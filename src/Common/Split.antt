-- ===== src/Common/Split.antt =====
-- `split(',')` and `trim()` of JavaScript strings.
use Prim.Native.Char.{Char, code}
use Prim.Native.Nat.{ℕ}
use Prim.Native.String.{String}
use mathlib.Core.Path.{◌≡◌, refl}
use mathlib.Core.Bool.{Bool, false, ◌||◌, ◌&&◌}
use mathlib.Core.List.{List, [], ◌∷◌}
use text.Mathlib.Text.{◌==◌}
use tactix.Common.Tests.{eqb, leb, if◌then◌else◌}

abbrev on_first : Char → List String → List String
on_first c [] = String.◌∷◌ c "" ∷ []
on_first c (p ∷ ps) = String.◌∷◌ c p ∷ ps

-- `s.split(sep)` for a separator of one character
unfoldable pub split_on : ℕ → String → List String
split_on sep String.[] = "" ∷ []
split_on sep (String.◌∷◌ c s) =
    let parts = split_on sep s in if eqb (code c) sep then "" ∷ parts else on_first c parts

-- The white space and line terminators of ECMAScript.
unfoldable pub is_space : ℕ → Bool
is_space c =
    (leb 9 c && leb c 13)
    || eqb c 32
    || eqb c 160
    || eqb c 5760
    || (leb 8192 c && leb c 8202)
    || eqb c 8232
    || eqb c 8233
    || eqb c 8239
    || eqb c 8287
    || eqb c 12288
    || eqb c 65279

unfoldable pub trim_start : String → String
unfolding is_space
trim_start String.[] = ""
trim_start (String.◌∷◌ c s) =
    let rest = trim_start s in if is_space (code c) then rest else String.◌∷◌ c s

unfoldable pub trim_end : String → String
unfolding is_space
trim_end String.[] = ""
trim_end (String.◌∷◌ c s) =
    let rest = trim_end s in if is_space (code c) && rest == "" then "" else String.◌∷◌ c rest

unfoldable pub trim : String → String
unfolding trim_start trim_end
trim s = trim_end (trim_start s)

-- A text without the separator.
abbrev pub Lacks : ℕ → String → Type 0
Lacks sep String.[] = Unit
Lacks sep (String.◌∷◌ c s) = (eqb (code c) sep ≡ false) × Lacks sep s

-- It is its own only part.
pub split_on_of_Lacks : (sep : ℕ) (s : String) → Lacks sep s → split_on sep s ≡ s ∷ []
unfolding split_on
split_on_of_Lacks sep String.[] h = refl
split_on_of_Lacks sep (String.◌∷◌ c s) (h, hs) = rw (h, split_on_of_Lacks sep s hs)
