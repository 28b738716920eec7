-- ===== src/Rbac.antt =====
-- Roles and actions of an operation: services/incident-svc/src/rbac/effective.ts, with the union
-- types that services/rbac/src/index.ts repeats. A `Set` of roles is the list of its members in
-- the order of insertion.
pub mod Level
pub mod Stub
pub mod Tests
use tactix.Common.{
  String, Bool, true, false, ◌||◌, Option, none, some, List, [], ◌∷◌, ◌++◌, map, any, keep, not,
  includes, or_else, split_on, trim, ◌==◌, if◌then◌else◌,
}
use Prim.Native.String.{◌++◌ as str_append}

pub data Role : Type 0 where
  viewer editor imo admin : Role

pub data Action : Type 0 where
  read write assign admin : Action

-- The strings that the union type `Role` names.
abbrev pub role_name : Role → String
role_name viewer = "VIEWER"
role_name editor = "EDITOR"
role_name imo = "IMO"
role_name Role.admin = "ADMIN"

abbrev pub same_role : Role → Role → Bool
same_role viewer viewer = true
same_role editor editor = true
same_role imo imo = true
same_role Role.admin Role.admin = true
same_role _ _ = false

-- `roles.has(r)`
unfoldable pub has : List Role → Role → Bool
has roles r = any (λ x. same_role x r) roles

-- `roles.add(r)`
unfoldable pub add : List Role → Role → List Role
add roles r = if has roles r then roles else roles ++ (r ∷ [])

-- A row of grants, as the loop reads it; `none` is a column that the row does not have.
pub record RoleGrantRow : Type 0 where
  pub user_upn : String
  pub role : Option String

unfoldable pub escalate : List Role → Option String → List Role
escalate roles none = roles
escalate roles (some role) =
    if role == "ADMIN"
    then add (add (add (add roles Role.admin) imo) editor) viewer
    else if role == "IMO"
    then add (add (add roles imo) editor) viewer
    else if role == "EDITOR"
    then add (add roles editor) viewer
    else if role == "VIEWER"
    then add roles viewer
    else roles

-- READ_SUFFIXES, from the environment variable RBAC_READ_SUFFIXES
unfoldable pub read_suffixes : Option String → List String
unfolding split_on trim
read_suffixes env = keep (λ s. not (s == "")) (map trim (split_on 44 (or_else env "READ,VIEW,ALL")))

-- `${op}_${suffix}`
abbrev pub group_name : String → String → String
group_name op suffix = str_append op (str_append "_" suffix)

pub record Caller : Type 0 where
  pub upn : String
  pub ad_groups : List String

-- the loop over READ_SUFFIXES, with its `break`
unfoldable pub from_groups : List String → String → List String → List Role → List Role
from_groups groups op [] roles = roles
from_groups groups op (suffix ∷ rest) roles =
    let later = from_groups groups op rest roles in
    if includes (group_name op suffix) groups then escalate roles (some "VIEWER") else later

-- the loop over `roleGrants`
unfoldable pub from_grants : String → List RoleGrantRow → List Role → List Role
from_grants upn [] roles = roles
from_grants upn (g ∷ gs) roles =
    from_grants upn gs (if g.user_upn == upn then escalate roles g.role else roles)

unfoldable pub effective : List String → Caller → String → List RoleGrantRow → List Role
effective suffixes user op role_grants =
    from_grants user.upn role_grants (from_groups user.ad_groups op suffixes [])

unfoldable pub can : List Role → Action → Bool
can roles read = has roles viewer || has roles editor || has roles imo || has roles Role.admin
can roles write = has roles editor || has roles imo || has roles Role.admin
can roles assign = has roles imo || has roles Role.admin
can roles Action.admin = has roles Role.admin
