-- ===== src/Playbook/Tests.antt =====
-- A run of a playbook at concrete tables.
use tactix.Common.{◌≡◌, refl, ℕ, String, Bool, Option, none, some, [], ◌∷◌, includes}
use tactix.Json.{Json, Members, object, with_member, text}
use tactix.Action.{ok, Db, query, pure, ◌>>=◌}
use tactix.Authz.{TactixUser}
use tactix.Playbook.{
  Playbook, Tables, executed, created, problem, can_edit_playbooks, can_run_playbooks, parse_create,
  post_playbook, parse_run, run_found, post_run,
}

playbooks : Unit {0}
unfolding can_edit_playbooks can_run_playbooks parse_create post_playbook parse_run run_found
    post_run query pure ◌>>=◌
playbooks = tt

abbrev evacuate : Playbook
evacuate = record {
  playbook_id = "p1";
  incident_id = "incident-1";
  name = "Evacuate";
  json = some (object (with_member "defaultMessage" (text "Leave now") Members.done));
  created_by = "system";
}

abbrev db : Db Tables (Unit {0})
db = record {
  tables = record { playbooks = evacuate ∷ []; runs = []; notified = [] };
  sent = [];
  faults = [];
}

abbrev officer : TactixUser
officer = record { upn = some "ann"; name = none; ad_groups = []; roles = "DO" ∷ [] }

abbrev has_role : TactixUser → String → Bool
has_role user role = includes role user.roles

abbrev size : String → ℕ
size s = 10

abbrev body : Option Json
body = some (object (with_member "incidentId" (text "incident-1") Members.done))

run_tests :
    ((post_run size has_role "ORG" officer "r1" 5 "p1" body db).0 ≡ ok (executed "r1"))
    × ((post_run size has_role "ORG" (record officer { roles = [] }) "r1" 5 "p1" body db).0
        ≡ ok (problem 403 "forbidden"))
    × ((post_playbook officer "p2" "incident-1"
          (some (object (with_member "name" (text "Call") Members.done)))
          db).0
        ≡ ok (created "p2" "Call"))
unfolding playbooks
run_tests = (refl, refl, refl)
