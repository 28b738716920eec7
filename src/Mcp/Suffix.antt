-- ===== src/Mcp/Suffix.antt =====
-- `String.prototype.endsWith`.
use Prim.Native.String.{String, [], ◌∷◌}
use tactix.Common.{Bool, ◌||◌, ◌==◌}

unfoldable pub ends_with : (suffix s : String) → Bool
ends_with suffix [] = suffix == ""
ends_with suffix (c ∷ s) = (c ∷ s) == suffix || ends_with suffix s
