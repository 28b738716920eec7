-- ===== src/Realtime/Tests.antt =====
-- The theorems on the clients of the realtime service at concrete runs.
use tactix.Common.{
  ℕ, ◌≡◌, refl, String, true, false, Option, none, some, List, [], ◌∷◌, ◌++◌, arith, split_on, trim,
  ◌==◌, if◌then◌else◌,
}
use mathlib.Core.List.{Sublist}
use tactix.Json.{Json, Members, object, with_member, text, integer, null}
use tactix.Authz.{Claims, Request, extract_token, user_of, resolve_roles, resolve_from, ws_auth}
use tactix.Realtime.{
  Input, offered, received, event_message, connected, matches, flush, enqueue, offer, receive,
  finish_send, fetched, react, run,
}
use tactix.Registry
use tactix.Feed
use tactix.Playbook
use tactix.Schedule.Service
use tactix.Realtime.Channel.{
  reaches, event_json, note_json, run_json, shift_json, announcements-reach,
}
use tactix.Realtime.Queue.{IsSound, run-IsSound}
use tactix.Realtime.Carried.{events, subscribed, due_now, due, carried}
use tactix.Realtime.Order.{run-due, run-due_short}
use tactix.Realtime.Drain.{callbacks, run-callbacks}
use tactix.Realtime.Server.{
  upgrade, path_of, accepted, upgrade-ws_auth, Event, connection, notification, close, at,
  broadcast, notify, happen, serve, seen, running, ended,
}
use tactix.Realtime.Alone.{state_in, serve-run}

realtime : Unit {0}
unfolding flush enqueue offer receive finish_send fetched react run events subscribed due_now due
    carried upgrade path_of broadcast notify happen serve seen extract_token user_of resolve_roles
    resolve_from ws_auth split_on trim
realtime = tt

abbrev event_of : String → Json → Json
event_of name id =
    object (with_member "type" (text name) (with_member "incidentId" id Members.done))

abbrev seven : Json
seven = integer false 7

abbrev subscribe : Json
subscribe = event_of "subscribe" seven

abbrev created : Json
created = event_of "INCIDENT_CREATED" seven

abbrev other : Json
other = event_of "INCIDENT_CREATED" (integer false 8)

abbrev alarm : Json
alarm = event_of "PLAYBOOK_NOTIFY" (integer false 8)

abbrev day : List Input
day =
    received (some subscribe)
    ∷ offered created
    ∷ offered other
    ∷ offered alarm
    ∷ offered created
    ∷ []

day_test : (run connected day).queue ≡ alarm ∷ created ∷ []
unfolding realtime
day_test = refl

sent_test : (run connected day).sent ≡ event_message created ∷ []
unfolding realtime
sent_test = refl

run-IsSound_example : IsSound (run connected day)
run-IsSound_example = run-IsSound day

run-due_example : Sublist (carried (run connected day)) (due connected.incident_id day)
run-due_example = run-due day

run-due_short_example : carried (run connected day) ≡ due connected.incident_id day
unfolding realtime
run-due_short_example = run-due_short day (omega arith)

run-callbacks_example : run (run connected day) (callbacks 3) ≡ record (run connected day) {
  queue = [];
  sending = false;
  sent = event_message created ∷ event_message alarm ∷ event_message created ∷ [];
}
unfolding realtime
run-callbacks_example = run-callbacks day refl

abbrev parse : String → Option Json
parse payload = if payload == "created" then some created else none

abbrev events_of_day : List Event
events_of_day =
    connection 2
    ∷ at 1 (received (some subscribe))
    ∷ notification "oops"
    ∷ notification "created"
    ∷ close 2
    ∷ []

serve-run_example :
    (state_in 1 (serve parse (running []) (connection 1 ∷ events_of_day))
      ≡ some (run connected (received (some subscribe) ∷ offered created ∷ [])))
    × (serve parse
          (running [])
          (connection 1 ∷ (events_of_day ++ (at 1 (received (some null)) ∷ connection 3 ∷ [])))
        ≡ ended)
unfolding realtime
serve-run_example = serve-run parse 1 [] events_of_day (connection 3 ∷ []) refl (refl, (refl, tt))

abbrev claims : Claims
claims = record { upn = none; sub = some "ann"; name = none; ad_groups = none }

abbrev request : Request
request = record { authorization = none; protocol = some "bearer, t1"; url = "/rt?x=1" }

abbrev verify : String → Option Claims
verify token = if token == "t1" then some claims else none

upgrade-ws_auth_example : upgrade (λ url. none) verify [] request ≡ accepted (user_of [] claims)
unfolding realtime
upgrade-ws_auth_example =
    (upgrade-ws_auth (λ url. none) verify [] request (user_of [] claims)).1 (refl, refl)

abbrev iso : ℕ → String
iso n = "2026"

abbrev report : Registry.Envelope
report = record {
  incident_id = 7;
  seq = 1;
  payload = Registry.created (text "Fire") (text "high") none;
}

abbrev note : Feed.Note
note = Feed.task_updated 8 "t1" Feed.done

abbrev alarm_run : Playbook.Envelope
alarm_run = record {
  playbook_id = "p1";
  incident_id = "incident-1";
  operation_code = "ORG";
  severity = text "info";
  title = "Evacuate";
  text = text "Leave now";
  actor_upn = "system";
  occurred_at = 5;
}

announcements-reach_example :
    (reaches seven (some (event_json report)) ≡ true)
    × (reaches seven (note_json iso note) ≡ false)
    × (matches seven (run_json iso alarm_run) ≡ true)
    × (matches seven (shift_json iso (Service.shift_deleted "o1" "s1")) ≡ false)
announcements-reach_example =
    announcements-reach iso seven report note alarm_run (Service.shift_deleted "o1" "s1")
