-- ===== src/Rbac/Stub.antt =====
-- services/rbac/src/index.ts: the RBAC stub that other services are to be wired to. It computes the
-- roles another way than the incident service, and keeps assignments in memory.
pub mod Agrees
pub mod Assignments
use tactix.Common.{
  String, Bool, true, false, ◌||◌, Option, none, some, List, [], ◌∷◌, ◌++◌, any, includes,
  strip_prefix, ltb, ℕ, suc, if◌then◌else◌,
}
use Prim.Native.String.{◌++◌ as str_append}
use tactix.Rbac.{Role, viewer, editor, imo, Action, read, write, assign, same_role, has, add}

pub record EffectiveInput : Type 0 where
  pub upn : String
  pub ad_groups : List String
  pub operation_code : String
  pub read_suffixes : Option (List String)
  pub db_grant_role : Option Role

pub record EffectiveResult : Type 0 where
  pub roles : List Role
  pub highest : Role

-- ORDER
abbrev pub order : List Role
order = viewer ∷ editor ∷ imo ∷ Role.admin ∷ []

-- ACTION_MAP
abbrev pub action_map : Action → List Role
action_map read = viewer ∷ editor ∷ imo ∷ Role.admin ∷ []
action_map write = editor ∷ imo ∷ Role.admin ∷ []
action_map assign = imo ∷ Role.admin ∷ []
action_map Action.admin = Role.admin ∷ []

-- `ORDER.indexOf(r)`; every role is in ORDER, so that -1 does not occur.
abbrev pub index_of : List Role → Role → ℕ
index_of [] r = 0
index_of (x ∷ xs) r = if same_role x r then 0 else suc (index_of xs r)

-- `input.readSuffixes && input.readSuffixes.length ? input.readSuffixes : […]`
abbrev pub suffixes_of : Option (List String) → List String
suffixes_of none = "READ" ∷ "VIEW" ∷ "ALL" ∷ []
suffixes_of (some []) = "READ" ∷ "VIEW" ∷ "ALL" ∷ []
suffixes_of (some (s ∷ ss)) = s ∷ ss

-- the callback of `adGroups.some`
unfoldable pub is_read_group : String → List String → String → Bool
unfolding strip_prefix
is_read_group prefix suffixes g = elim (strip_prefix prefix g) [
  | none ↦ false
  | some suffix ↦ includes suffix suffixes
]

unfoldable pub has_read_group : EffectiveInput → Bool
unfolding is_read_group
has_read_group input =
    any (is_read_group (str_append input.operation_code "_") (suffixes_of input.read_suffixes))
      input.ad_groups

-- `if (input.dbGrantRole) roles.add(input.dbGrantRole)`
abbrev pub overlay : List Role → Option Role → List Role
overlay roles none = roles
overlay roles (some r) = add roles r

-- the loop that looks for the highest role
unfoldable pub highest_from : Role → List Role → Role
highest_from best [] = best
highest_from best (r ∷ rs) =
    highest_from (if ltb (index_of order best) (index_of order r) then r else best) rs

unfoldable pub compute_effective : EffectiveInput → EffectiveResult
unfolding has_read_group highest_from
compute_effective input =
    let base = if has_read_group input then add [] viewer else [] in
    let roles = overlay base input.db_grant_role in
    record { roles = roles; highest = highest_from viewer roles }

-- `new Set(roles)`
unfoldable pub set_of : List Role → List Role → List Role
set_of acc [] = acc
set_of acc (r ∷ rs) = set_of (add acc r) rs

-- `can`; the other `can` of the program is `Rbac.can`
unfoldable pub can : List Role → Action → Bool
unfolding set_of
can roles action = any (has (set_of [] roles)) (action_map action)
