-- ===== src/TakIngest/Text.antt =====
-- `replace(/\/$/, '')` and `includes` on a text.
use Prim.Native.String.{String, [], ◌∷◌}
use tactix.Common.{Bool, true, false, ◌||◌, none, some, strip_prefix, ◌==◌, if◌then◌else◌}

-- `prefix.replace(/\/$/, '')`
unfoldable pub without_slash : String → String
without_slash [] = ""
without_slash (c ∷ s) = let rest = without_slash s in if (c ∷ s) == "/" then "" else c ∷ rest

-- `target.includes(q)`
unfoldable pub contains : (q target : String) → Bool
unfolding strip_prefix
contains q [] = q == ""
contains q (c ∷ s) =
    (elim (strip_prefix q (c ∷ s)) [ none ↦ false | some rest ↦ true ]) || contains q s
