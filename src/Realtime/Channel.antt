-- ===== src/Realtime/Channel.antt =====
-- The channel tactix_events: the envelopes that services/incident-svc (src/index.ts, routes/incidents,
-- services/schedule.service.ts) and services/playbook-svc/src/routes.ts write with JSON.stringify, as
-- services/realtime-svc/index.js reads them.
use tactix.Common.{ℕ, String, ◌≡◌, refl, Bool, true, false, Option, none, some, eqb, ◌&&◌}
use tactix.Json.{Json, Members, object, with_member, text, integer, array, boolean, null}
use tactix.Realtime.{matches, strict_equal}
use tactix.Realtime.Queue.{strict_equal-none}
use tactix.Registry
use tactix.Registry.{created, comment_added, status_changed, attachment_added}
use tactix.Feed
use tactix.Feed.{task_created, task_updated, chat_posted}
use tactix.Feed.Tasks.{status_name}
use tactix.Schedule.{ShiftRow}
use tactix.Schedule.Service.{shift_created, shift_updated, shift_deleted}
use tactix.Schedule.Service
use tactix.Playbook

-- A number that is counted.
abbrev number_json : ℕ → Json
number_json n = integer false n

abbrev pub type_name : Registry.Payload → String
type_name (created title severity description) = "CREATED"
type_name (comment_added comment) = "COMMENT_ADDED"
type_name (status_changed status) = "STATUS_CHANGED"
type_name (attachment_added attachment object_name filename) = "ATTACHMENT_ADDED"

-- A member that is left out where it is undefined.
abbrev optional_member : String → Option Json → Members → Members
optional_member key none rest = rest
optional_member key (some v) rest = with_member key v rest

abbrev pub payload_json : Registry.Payload → Json
payload_json (created title severity description) = object (
    with_member "title" title
      (with_member "severity" severity (optional_member "description" description Members.done)))
payload_json (comment_added comment) = object (with_member "comment" comment Members.done)
payload_json (status_changed status) = object (with_member "status" status Members.done)
payload_json (attachment_added attachment object_name filename) = object (
    with_member "attachmentId" (number_json attachment) (
      with_member "objectName" (text object_name)
        (with_member "filename" (text filename) Members.done)))

-- the envelope of `commitEvent`
unfoldable pub event_json : Registry.Envelope → Json
event_json e = object (
    with_member "incidentId" (number_json e.incident_id) (
      with_member "seq" (number_json e.seq) (
        with_member "type" (text (type_name e.payload))
          (with_member "payload" (payload_json e.payload) Members.done))))

-- `iso` is the text of a date.
module _ (iso : ℕ → String) where
  -- the envelopes of routes/incidents; `none` is an entry of the war log, which goes elsewhere
  unfoldable pub note_json : Feed.Note → Option Json
  note_json (task_created incident task title status) = some (
      object (
        with_member "type" (text "INCIDENT_TASK_CREATED") (
          with_member "incidentId" (number_json incident) (
            with_member "taskId" (text task) (
              with_member "title" (text title)
                (with_member "status" (text (status_name status)) Members.done))))))
  note_json (task_updated incident task status) = some (
      object (
        with_member "type" (text "INCIDENT_TASK_UPDATED") (
          with_member "incidentId" (number_json incident) (
            with_member "taskId" (text task)
              (with_member "status" (text (status_name status)) Members.done)))))
  note_json (chat_posted incident msg author content created_at) = some (
      object (
        with_member "type" (text "INCIDENT_CHAT") (
          with_member "incidentId" (number_json incident) (
            with_member "msgId" (text msg) (
              with_member "authorUpn" (text author) (
                with_member "text" (text content)
                  (with_member "createdAt" (text (iso created_at)) Members.done)))))))
  note_json (Feed.war_logged author content) = none

  -- the envelope of a run of a playbook
  unfoldable pub run_json : Playbook.Envelope → Json
  run_json e = object (
      with_member "type" (text "PLAYBOOK_NOTIFY") (
        with_member "playbookId" (text e.playbook_id) (
          with_member "incidentId" (text e.incident_id) (
            with_member "operationCode" (text e.operation_code) (
              with_member "severity" e.severity (
                with_member "title" (text e.title) (
                  with_member "text" e.text (
                    with_member "actorUpn" (text e.actor_upn)
                      (with_member "occurredAt" (text (iso e.occurred_at)) Members.done)))))))))

  -- The member `shift` of a row that repo/schedule.repo.ts returns in camel case, with the dates as
  -- JSON.stringify writes them. `updateShift` gets here with a patch that is not empty only.
  abbrev pub shift_member : ShiftRow → Json
  shift_member row = object (
      with_member "shiftId" (text row.shift_id) (
        with_member "userUpn" (text row.user_upn) (
          with_member "role" (text row.role) (
            with_member "startsAt" (text (iso row.starts_at)) (
              with_member "endsAt" (text (iso row.ends_at)) (
                with_member "notes" (text (elim row.notes [ none ↦ "" | some s ↦ s ]))
                  Members.done))))))

  abbrev shift_change : (type operation : String) → ShiftRow → Json
  shift_change type operation row = object (
      with_member "type" (text type) (
        with_member "operationId" (text operation)
          (with_member "shift" (shift_member row) Members.done)))

  -- the envelopes of services/schedule.service.ts
  unfoldable pub shift_json : Service.Envelope → Json
  shift_json (shift_created operation row) = shift_change "SCHEDULE_SHIFT_CREATED" operation row
  shift_json (shift_updated operation row) = shift_change "SCHEDULE_SHIFT_UPDATED" operation row
  shift_json (shift_deleted operation shift) = object (
      with_member "type" (text "SCHEDULE_SHIFT_DELETED") (
        with_member "operationId" (text operation)
          (with_member "shiftId" (text shift) Members.done)))

-- The incident that a note is about.
abbrev pub incident_of : Feed.Note → Option ℕ
incident_of (task_created incident task title status) = some incident
incident_of (task_updated incident task status) = some incident
incident_of (chat_posted incident msg author content created_at) = some incident
incident_of (Feed.war_logged author content) = none

-- Who gets an envelope, if there is one: a client with the subscription `id`, which is null before the
-- first one.
abbrev pub reaches : (id : Json) → Option Json → Bool
reaches id none = false
reaches id (some event) = matches id event

-- The subscription is the number `n`.
abbrev pub is_number : ℕ → (id : Json) → Bool
is_number n (integer false m) = eqb m n
is_number n (integer true m) = eqb m 0 && eqb n 0
is_number n _ = false

abbrev pub is_about : (id : Json) → Option ℕ → Bool
is_about id none = false
is_about id (some incident) = is_number incident id

strict_equal-number :
    (id : Json) (n : ℕ) → strict_equal id (some (integer false n)) ≡ is_number n id
strict_equal-number (integer false m) n = refl
strict_equal-number (integer true m) n = refl
strict_equal-number (object members) n = refl
strict_equal-number (array xs) n = refl
strict_equal-number (text s) n = refl
strict_equal-number (boolean true) n = refl
strict_equal-number (boolean false) n = refl
strict_equal-number null n = refl

reaches-event_json :
    (id : Json) (e : Registry.Envelope)
    → reaches id (some (event_json e)) ≡ is_number e.incident_id id
unfolding event_json
reaches-event_json id e = go e.payload
  where
    go :
        (p : Registry.Payload)
        → reaches id (some (event_json (record e { payload = p }))) ≡ is_number e.incident_id id
    go (created title severity description) = strict_equal-number id e.incident_id
    go (comment_added comment) = strict_equal-number id e.incident_id
    go (status_changed status) = strict_equal-number id e.incident_id
    go (attachment_added attachment object_name filename) = strict_equal-number id e.incident_id

reaches-note_json :
    (iso : ℕ → String) (id : Json) (note : Feed.Note)
    → reaches id (note_json iso note) ≡ is_about id (incident_of note)
unfolding note_json
reaches-note_json iso id (task_created incident task title status) = strict_equal-number id incident
reaches-note_json iso id (task_updated incident task status) = strict_equal-number id incident
reaches-note_json iso id (chat_posted incident msg author content created_at) =
    strict_equal-number id incident
reaches-note_json iso id (Feed.war_logged author content) = refl

matches-run_json :
    (iso : ℕ → String) (id : Json) (e : Playbook.Envelope) → matches id (run_json iso e) ≡ true
unfolding run_json
matches-run_json iso id e = refl

matches-shift_json :
    (iso : ℕ → String) (id : Json) (e : Service.Envelope) → matches id (shift_json iso e) ≡ false
unfolding shift_json
matches-shift_json iso id (shift_created operation row) = strict_equal-none id
matches-shift_json iso id (shift_updated operation row) = strict_equal-none id
matches-shift_json iso id (shift_deleted operation shift) = strict_equal-none id

-- What the services announce on the channel, as the broadcast of the realtime service reads it for a
-- client with any subscription, null included: an event of an incident, a task and a chat message go
-- to the client exactly when it is subscribed to the number of their incident, the run of a playbook
-- goes to it always, and a change of a shift never.
pub announcements-reach :
    (iso : ℕ → String) (id : Json) (event : Registry.Envelope) (note : Feed.Note)
    (run : Playbook.Envelope) (shift : Service.Envelope)
    → (reaches id (some (event_json event)) ≡ is_number event.incident_id id)
      × (reaches id (note_json iso note) ≡ is_about id (incident_of note))
      × (matches id (run_json iso run) ≡ true)
      × (matches id (shift_json iso shift) ≡ false)
announcements-reach iso id event note run shift = (
  reaches-event_json id event,
  reaches-note_json iso id note,
  matches-run_json iso id run,
  matches-shift_json iso id shift,
)
