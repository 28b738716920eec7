-- ===== src/Rbac/Stub/Assignments.antt =====
-- The in-memory assignment store of services/rbac/src/index.ts. `toLowerCase` is a parameter: its
-- Unicode tables are the runtime's.
use tactix.Common.{
  String, ◌≡◌, refl, Option, none, some, List, [], ◌∷◌, ◌==◌, eq_iff, arith, if◌then◌else◌,
}
use Prim.Native.String.{◌++◌ as str_append}
use text.Mathlib.TextLemmas.{append_assoc}
use tactix.Rbac.{Role}

-- `Map<string, Role>`: a pair for each key, in the order of insertion
abbrev pub Assignments : Type 0
Assignments = List (String × Role)

-- `assignments.get(key)`, and `?? null`
unfoldable pub get : Assignments → String → Option Role
get [] key = none
get ((k, r) ∷ rest) key = if k == key then some r else get rest key

-- `assignments.set(key, role)`
unfoldable pub put : Assignments → String → Role → Assignments
put [] key role = (key, role) ∷ []
put ((k, r) ∷ rest) key role =
    let later = put rest key role in if k == key then (k, role) ∷ rest else (k, r) ∷ later

pub get-put :
    (m : Assignments) (key other : String) (role : Role)
    → get (put m key role) other ≡ (if key == other then some role else get m other)
unfolding get put
get-put [] key other role = refl
get-put ((k, r) ∷ rest) key other role =
    ground (arith, eq_iff k key, eq_iff k other, eq_iff key other, get-put rest key other role)

module _ (to_lower_case : String → String) where
  -- `${userUpn.toLowerCase()}::${operationId}`
  unfoldable pub assignment_key : String → String → String
  assignment_key user_upn operation_id =
      str_append (to_lower_case user_upn) (str_append "::" operation_id)

  unfoldable pub assign_role : Assignments → String → Role → String → Assignments
  unfolding assignment_key
  assign_role m user_upn role operation_id = put m (assignment_key user_upn operation_id) role

  unfoldable pub get_assigned_role : Assignments → String → String → Option Role
  unfolding assignment_key
  get_assigned_role m user_upn operation_id = get m (assignment_key user_upn operation_id)

  -- After an assignment, exactly the users and operations with the key of the assigned one (the
  -- lower-cased user, "::" and the operation) have the new role; all others keep theirs.
  pub get_assigned_role-assign_role :
      (m : Assignments) (user other : String) (role : Role) (op op' : String)
      → get_assigned_role (assign_role m user role op) other op' ≡ (
          if assignment_key user op == assignment_key other op'
          then some role
          else get_assigned_role m other op')
  unfolding get_assigned_role assign_role
  get_assigned_role-assign_role m user other role op op' =
      get-put m (assignment_key user op) (assignment_key other op') role

  same_key :
      (user other rest op : String)
      → to_lower_case other ≡ str_append (to_lower_case user) (str_append "::" rest)
      → assignment_key other op ≡ assignment_key user (str_append rest (str_append "::" op))
  unfolding assignment_key
  same_key user other rest op h =
      rw (h, append_assoc (to_lower_case user) (str_append "::" rest), append_assoc "::" rest)

  -- A user whose lower-cased name is that of another followed by "::" and a text shares the key of
  -- an operation of that other user, so that assigning a role to the one gives it to the other.
  pub get_assigned_role_collision :
      (m : Assignments) (user other rest op : String) (role : Role)
      → to_lower_case other ≡ str_append (to_lower_case user) (str_append "::" rest)
      → get_assigned_role (assign_role m other role op) user (str_append rest (str_append "::" op))
        ≡ some role
  unfolding get_assigned_role assign_role
  get_assigned_role_collision m user other rest op role h =
      let k = assignment_key other op in
      let j = assignment_key user (str_append rest (str_append "::" op)) in
      ground (arith, get-put m k j role, eq_iff k j, same_key user other rest op h)

unfoldable pub clear_assignments : Assignments → Assignments
clear_assignments m = []
