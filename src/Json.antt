-- ===== src/Json.antt =====
-- JSON values as `JSON.parse` and `express.json()` hand them to the handlers, with the tests that
-- the handlers make: truthiness, members, and the `zod` schemas for strings. A number is a sign and
-- a magnitude; fractions are left out, since no handler computes with a number of a body.
use tactix.Common.{ℕ, String, Bool, true, false, not, Option, none, some, eqb, ◌==◌, if◌then◌else◌}

mutual
  -- The members of an object, in order.
  pub data Members : Type 0 where
    done : Members
    with_member : (key : String) → Json → Members → Members

  pub data Json : Type 0 where
    object : Members → Json
    array : Elements → Json
    text : String → Json
    boolean : Bool → Json
    integer : (negative : Bool) (magnitude : ℕ) → Json
    null : Json

  pub data Elements : Type 0 where
    no_more : Elements
    element : Json → Elements → Elements

abbrev pub property : String → Members → Option Json
property key done = none
property key (with_member k v rest) = if k == key then some v else property key rest

-- `body.key`; `none` is undefined
abbrev pub member : String → Json → Option Json
member key (object members) = property key members
member key _ = none

-- The truthiness of a value that may be undefined.
abbrev pub truthy : Option Json → Bool
truthy none = false
truthy (some null) = false
truthy (some (boolean b)) = b
truthy (some (integer negative n)) = not (eqb n 0)
truthy (some (text s)) = not (s == "")
truthy (some (array xs)) = true
truthy (some (object members)) = true

-- `z.object` accepts an object only.
abbrev pub is_object : Json → Bool
is_object (object members) = true
is_object _ = false

-- A member under `z.string()`.
abbrev pub string_field : Option Json → Option String
string_field (some (text s)) = some s
string_field _ = none

-- A member under `z.string().optional()`: outer `none` refuses it, inner `none` is undefined.
abbrev pub optional_string : Option Json → Option (Option String)
optional_string none = some none
optional_string (some (text s)) = some (some s)
optional_string (some _) = none
