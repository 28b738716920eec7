-- ===== src/Incident/Tests.antt =====
-- The theorems on services/incident over the in-memory store at concrete requests, and runs.
use tactix.Common.{List, arith, ◌≡◌, refl, none, some, [], ◌∷◌, ◌++◌, ◌==◌, if◌then◌else◌}
use tactix.Json.{Json, text, object, with_member, done}
use tactix.Incident.{
  IncidentEvent, IncidentState, IncidentStatus, draft, created, message_added, create, from,
  add_message, submit, update,
}
use tactix.Incident.Store.{EventMap, load, append, load-append, in_memory_event_store}
use tactix.Incident.Api.{
  sent, not_found, failed, post_incident, get_incident, post_message, post_submit,
}
use tactix.Incident.Postgres.{EventRow, append_row, load_rows, load_rows-append_row}
use tactix.Incident.Replay.{Effect, post_incident-Effect, post_message-Effect, post_submit-Effect}
use tactix.Incident.History.{IsValid, creating, adding, here, next, Reach-IsValid}
use tactix.Incident.Once.{IsSubmitted, submitted_forever}

api : Unit {0}
unfolding post_incident get_incident post_message post_submit create from add_message submit load
    append
api = tt

abbrev report : Json
report = object (
    with_member "title" (text "Fire")
      (with_member "description" (text "") (with_member "org" (text "Org1") done)))

abbrev note : Json
note = object (with_member "message" (text "on site") done)

abbrev one : EventMap
one = ("i1", created "Fire" "" "Org1" ∷ []) ∷ []

abbrev two : EventMap
two = ("i1", created "Fire" "" "Org1" ∷ IncidentEvent.submitted ∷ []) ∷ []

abbrev fire : IncidentState
fire = record {
  id = "i1";
  title = "Fire";
  description = "";
  status = IncidentStatus.submitted;
  org = "Org1";
  messages = [];
}

api_tests :
    (post_incident in_memory_event_store [] report "i1"
      ≡ (one, sent 201 (record fire { status = draft })))
    × (post_submit in_memory_event_store one "i1" ≡ (two, sent 200 fire))
    × (post_submit in_memory_event_store two "i1" ≡ (two, failed))
    × (post_message in_memory_event_store two "i2" note ≡ (two, not_found))
    × (get_incident in_memory_event_store two "i1" ≡ sent 200 fire)
unfolding api
api_tests = (refl, refl, refl, refl, refl)

update_test : (update fire none (some "east")).1.description ≡ "east"
unfolding update
update_test = refl

unused : load one "i2" ≡ []
unfolding load
unused = refl

load-append_test :
    load (append one "i1" (message_added "m")) "i1"
    ≡ (if "i1" == "i1" then load one "i1" ++ (message_added "m" ∷ []) else load one "i1")
load-append_test = load-append one "i1" "i1" (message_added "m")

post_incident-Effect_test :
    Effect in_memory_event_store one
      (post_incident in_memory_event_store one report "i2").0
      "i2"
      (post_incident in_memory_event_store one report "i2").1
post_incident-Effect_test = post_incident-Effect in_memory_event_store one report "i2" unused

post_message-Effect_test :
    Effect in_memory_event_store one
      (post_message in_memory_event_store one "i1" note).0
      "i1"
      (post_message in_memory_event_store one "i1" note).1
post_message-Effect_test = post_message-Effect in_memory_event_store one "i1" note

post_submit-Effect_test :
    Effect in_memory_event_store one
      (post_submit in_memory_event_store one "i1").0
      "i1"
      (post_submit in_memory_event_store one "i1").1
post_submit-Effect_test = post_submit-Effect in_memory_event_store one "i1"

empty-IsValid : IsValid in_memory_event_store []
unfolding load
empty-IsValid id = tt

Reach-IsValid_example :
    IsValid in_memory_event_store (post_incident in_memory_event_store [] report "i1").0
unfolding load
Reach-IsValid_example =
    Reach-IsValid in_memory_event_store empty-IsValid (next here (creating report "i1" refl))

two-IsSubmitted : IsSubmitted "i1" (load two "i1")
unfolding api
two-IsSubmitted = record { nonempty = λ p. cc; status = refl }

submitted_forever_example :
    post_submit in_memory_event_store (post_message in_memory_event_store two "i1" note).0 "i1"
    ≡ ((post_message in_memory_event_store two "i1" note).0, failed)
submitted_forever_example =
    submitted_forever in_memory_event_store "i1" two-IsSubmitted (next here (adding "i1" note))

abbrev rows : List EventRow
rows =
    record { incident_id = "i1"; event = created "Fire" "" "Org1"; timestamp = 5 }
    ∷ record { incident_id = "i2"; event = created "Flood" "" "Org1"; timestamp = 6 }
    ∷ []

load_rows-append_row_example : load_rows (append_row rows "i1" (message_added "on site") 7) "i1" ≡ (
    if "i1" == "i1"
    then load_rows rows "i1" ++ (message_added "on site" ∷ [])
    else load_rows rows "i1")
load_rows-append_row_example =
    load_rows-append_row rows "i1" "i1" (message_added "on site") 7 (omega arith)
