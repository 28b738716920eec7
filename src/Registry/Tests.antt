-- ===== src/Registry/Tests.antt =====
-- The theorems on incidents, comments, status and attachments at concrete requests, and runs.
use tactix.Common.{◌≡◌, refl, true, Option, none, some, [], ◌∷◌, ◌==◌}
use tactix.Json.{Json, Members, text, null, object, with_member}
use tactix.Action.{ok, modify, notify, pure, ◌>>=◌}
use tactix.Authz.{require_role}
use tactix.Registry.{
  Incident, Service, created, incident, incidents, blank, start, change_first, unanswered,
}
use tactix.Registry.Handlers.{
  handle, create_step, get_incident, comment_step, status_step, guarded_status_step,
  attachment_step, list_incidents, filter_query,
}
use tactix.Registry.Consistent.{IsConsistent, start-IsConsistent}
use tactix.Registry.Runs.{create, comment, stop, more, Steps-IsConsistent}
use tactix.Registry.Answers.{get_incident-create_step}

registry : Unit {0}
unfolding handle create_step get_incident comment_step status_step guarded_status_step require_role
    attachment_step list_incidents filter_query change_first ◌>>=◌ modify notify pure
registry = tt

abbrev report : Option Json
report =
    some (
      object
        (with_member "title" (text "Fire") (with_member "severity" (text "high") Members.done)))

abbrev note : Option Json
note = some (object (with_member "comment" (text "on site") Members.done))

abbrev closed : Option Json
closed = some (object (with_member "status" (text "closed") Members.done))

abbrev fire : Incident
fire = record {
  id = 1;
  title = text "Fire";
  description = null;
  severity = text "high";
  status = text "open";
  comments = [];
  created_at = 5;
}

abbrev fresh : Service
fresh = record { tables = start; sent = []; faults = [] }

abbrev one : Service
one = (handle true (create_step 5 6 report) fresh).1

run_tests :
    ((handle true (create_step 5 6 report) fresh).0 ≡ ok (incident 201 fire))
    × (one.sent
        ≡ record { incident_id = 1; seq = 1; payload = created (text "Fire") (text "high") none }
          ∷ [])
    × ((comment_step 7 1 note one.tables).0.0
        ≡ incident 200 (record fire { comments = text "on site" ∷ [] }))
    × ((comment_step 7 2 note one.tables).0.0 ≡ blank 404)
    × ((guarded_status_step none 7 1 closed one.tables).0.0 ≡ unanswered)
    × (list_incidents (λ s. s) (λ s p. s == p) (some "open") (some "Fire") one.tables
        ≡ some (incidents 200 (fire ∷ [])))
unfolding registry
run_tests = (refl, refl, refl, refl, refl, refl)

Steps-IsConsistent_example :
    IsConsistent
      (handle true (comment_step 7 1 note) (handle true (create_step 5 6 report) fresh).1).1.tables
Steps-IsConsistent_example =
    Steps-IsConsistent true {s = fresh} (more (create 5 6 report) (more (comment 7 1 note) stop))
      refl

created_test : (create_step 5 6 report start).0.0 ≡ incident 201 fire
unfolding registry
created_test = refl

get_incident-create_step_example :
    get_incident 1 (create_step 5 6 report start).1 ≡ incident 200 fire
get_incident-create_step_example =
    get_incident-create_step 5 6 report start fire start-IsConsistent created_test
