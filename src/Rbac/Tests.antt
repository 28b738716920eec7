-- ===== src/Rbac/Tests.antt =====
-- The theorems on the role modules at concrete users, and runs.
use Prim.Native.Nat.{max}
use Prim.Native.String.{◌++◌ as str_append}
use tactix.Common.{
  String, ◌≡◌, refl, false, none, some, List, [], ◌∷◌, leb, ◌==◌, strip_prefix, if◌then◌else◌,
}
use tactix.Rbac.{
  Role, viewer, editor, imo, Action, read, write, assign, has, add, RoleGrantRow, escalate,
  read_suffixes, Caller, effective,
}
use tactix.Rbac
use tactix.Rbac.Level.{rank, required, level, grants_level, can-effective}
use tactix.Rbac.Stub.{EffectiveInput, suffixes_of, compute_effective}
use tactix.Rbac.Stub
use tactix.Rbac.Stub.Agrees.{caller_of, rows_of, can-compute_effective, highest-compute_effective}
use tactix.Rbac.Stub.Assignments.{
  assignment_key, assign_role, get_assigned_role, get, put, get_assigned_role-assign_role,
  get_assigned_role_collision,
}

roles : Unit {0}
unfolding effective Rbac.from_groups Rbac.from_grants escalate add has Rbac.can read_suffixes
    compute_effective Stub.can Stub.has_read_group strip_prefix get_assigned_role assign_role get
    put
roles = tt

abbrev suffixes : List String
suffixes = "READ" ∷ "VIEW" ∷ "ALL" ∷ []

abbrev reader : Caller
reader = record { upn = "r"; ad_groups = "OPX_VIEW" ∷ [] }

abbrev grants : List RoleGrantRow
grants =
    record { user_upn = "r"; role = some "EDITOR" }
    ∷ record { user_upn = "q"; role = some "ADMIN" }
    ∷ record { user_upn = "r"; role = none }
    ∷ []

effective_tests :
    (effective suffixes reader "OPX" grants ≡ viewer ∷ editor ∷ [])
    × (effective suffixes reader "OPY" [] ≡ [])
    × (read_suffixes (some " READ , ,ALL") ≡ "READ" ∷ "ALL" ∷ [])
    × (read_suffixes none ≡ suffixes)
    × (escalate [] (some "ADMIN") ≡ Role.admin ∷ imo ∷ editor ∷ viewer ∷ [])
unfolding roles
effective_tests = (refl, refl, refl, refl, refl)

can-effective_example :
    (Rbac.can (effective suffixes reader "OPX" grants) write
      ≡ leb (required write) (level suffixes reader "OPX" grants))
    × (Rbac.can (effective suffixes reader "OPX" grants) assign
        ≡ leb 3 (grants_level reader.upn grants))
can-effective_example = can-effective suffixes reader "OPX" grants write

abbrev input : EffectiveInput
input = record {
  upn = "u@example.com";
  ad_groups = "OPX_READ" ∷ [];
  operation_code = "OPX";
  read_suffixes = none;
  db_grant_role = some imo;
}

can-compute_effective_example :
    Stub.can (compute_effective input).roles assign
    ≡ Rbac.can
        (effective (suffixes_of none) (caller_of input) "OPX" (rows_of "u@example.com" (some imo)))
        assign
can-compute_effective_example = can-compute_effective input assign

highest-compute_effective_test :
    rank (compute_effective input).highest
    ≡ max 1 (level (suffixes_of none) (caller_of input) "OPX" (rows_of "u@example.com" (some imo)))
highest-compute_effective_test = highest-compute_effective input

compute_effective_tests :
    ((compute_effective input).roles ≡ viewer ∷ imo ∷ [])
    × ((compute_effective input).highest ≡ imo)
    × (Stub.can (compute_effective input).roles Action.admin ≡ false)
unfolding roles
compute_effective_tests = (refl, refl, refl)

abbrev as_is : String → String
as_is s = s

get_assigned_role-assign_role_test :
    get_assigned_role as_is (assign_role as_is [] "u" editor "op1") "u" "op1" ≡ (
      if assignment_key as_is "u" "op1" == assignment_key as_is "u" "op1"
      then some editor
      else get_assigned_role as_is [] "u" "op1")
get_assigned_role-assign_role_test =
    get_assigned_role-assign_role as_is [] "u" "u" editor "op1" "op1"

get_assigned_role_collision_test :
    get_assigned_role as_is
      (assign_role as_is [] "u::x" Role.admin "op")
      "u"
      (str_append "x" (str_append "::" "op"))
    ≡ some Role.admin
get_assigned_role_collision_test =
    get_assigned_role_collision as_is [] "u" "u::x" "x" "op" Role.admin refl
