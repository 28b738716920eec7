-- ===== src/Permissions/Tests.antt =====
-- The theorems on the permission requests at concrete tables.
use tactix.Common.{◌≡◌, refl, String, true, Option, none, some, [], ◌∷◌, arith}
use tactix.Json.{Json, Members, object, with_member, text}
use tactix.Action.{ok, Db, query, pure, ◌>>=◌}
use tactix.Rbac.{viewer, effective, from_groups, from_grants, escalate, has, add}
use tactix.Permissions.{Operation, Grant, Tables, problem, assignment, unanswered, roles}
use tactix.Permissions.Requests.{
  load_roles, my_roles, me_permissions_callback, when_allowed, read_permissions,
  get_permissions_callback, with_assign, store_assignment, write_assignment,
  post_assignment_callback, delete_assignment_callback, write_role, post_role_callback,
  get_permissions, post_assignment, delete_assignment, post_role, me_permissions,
}
use tactix.Permissions.Refused.{IsRefused, IsDropped, requests-IsRefused}
use tactix.Permissions.Checked.{IsSingle, write_assignment-IsSingle}

permissions : Unit {0}
unfolding load_roles my_roles me_permissions_callback when_allowed read_permissions
    get_permissions_callback with_assign store_assignment write_assignment post_assignment_callback
    delete_assignment_callback write_role post_role_callback query pure ◌>>=◌ effective from_groups
    from_grants escalate has add
permissions = tt

abbrev flood : Operation
flood = record { operation_id = "o1"; code = "FLOOD"; title = "Flood" }

abbrev grant_of_ann : Grant
grant_of_ann = record {
  grant_id = "g1";
  operation_id = "o1";
  user_upn = "ann";
  role = "ASSIGN";
  created_by_upn = "root";
}

abbrev db : Db Tables (Unit {0})
db = record {
  tables = record {
    operations = flood ∷ [];
    assignments = [];
    role_grants = grant_of_ann ∷ [];
    org_units = [];
  };
  sent = [];
  faults = [];
}

abbrev column : Json → String
column (text s) = s
column _ = ""

abbrev bob : Option Json
bob = some (object (with_member "userUpn" (text "bob") Members.done))

refused_test :
    (post_assignment_callback ("READ" ∷ []) "ann" ("FLOOD_READ" ∷ []) column "a1" "o1" bob db).0
    ≡ ok (problem 403 "forbidden")
unfolding permissions
refused_test = refl

written_test :
    (write_assignment [] "ann" [] column "a1" "o1" bob db).0
    ≡ ok (
        assignment 201 (
          some (record {
            assignment_id = "a1";
            operation_id = "o1";
            user_upn = "bob";
            position_id = none;
            alt_display_name = none;
            active = true;
            created_by_upn = "ann";
          })))
unfolding permissions
written_test = refl

own_permissions_test :
    ((me_permissions ("READ" ∷ []) "ann" ("FLOOD_READ" ∷ []) true (some "FLOOD") db).0
      ≡ ok unanswered)
    × ((me_permissions_callback ("READ" ∷ []) "ann" ("FLOOD_READ" ∷ []) true (some "FLOOD") db).0
        ≡ ok (roles 200 (viewer ∷ [])))
unfolding permissions me_permissions
own_permissions_test = (refl, refl)

requests-IsRefused_example :
    (IsDropped (get_permissions ("READ" ∷ []) "ann" ("FLOOD_READ" ∷ []) "o1")
      × IsDropped (post_assignment ("READ" ∷ []) "ann" ("FLOOD_READ" ∷ []) column "a1" "o1" bob)
      × IsDropped (delete_assignment ("READ" ∷ []) "ann" ("FLOOD_READ" ∷ []) "o1" "a1")
      × IsDropped (post_role ("READ" ∷ []) "ann" ("FLOOD_READ" ∷ []) column "a1" "o1" bob))
    × IsRefused "o1" (get_permissions_callback ("READ" ∷ []) "ann" ("FLOOD_READ" ∷ []) "o1")
    × IsRefused "o1"
        (post_assignment_callback ("READ" ∷ []) "ann" ("FLOOD_READ" ∷ []) column "a1" "o1" bob)
    × IsRefused "o1" (delete_assignment_callback ("READ" ∷ []) "ann" ("FLOOD_READ" ∷ []) "o1" "a1")
    × IsRefused "o1"
        (post_role_callback ("READ" ∷ []) "ann" ("FLOOD_READ" ∷ []) column "a1" "o1" bob)
requests-IsRefused_example =
    requests-IsRefused ("READ" ∷ []) "ann" ("FLOOD_READ" ∷ []) column "a1" "o1" "a1" bob

write_assignment-IsSingle_example :
    IsSingle (write_assignment [] "ann" [] column "a1" "o1" bob db).1.tables.assignments
write_assignment-IsSingle_example =
    write_assignment-IsSingle [] "ann" [] column "a1" "o1" bob db
      (record { at = λ op user. omega arith })
