-- ===== src/Registry.antt =====
-- services/incident-svc/src/index.ts: the incidents, events and attachments that the service keeps in
-- variables, and the requests on them. Each handler changes the variables in one go, after the body of
-- the request is read and before the notification is awaited. The body is `none` if it is no JSON; a
-- time is a number of milliseconds, and `at`, `logged` are the times of the two calls of the clock.
pub mod Handlers
pub mod Replay
pub mod Numbers
pub mod Consistent
pub mod Runs
pub mod Answers
mod Tests
use tactix.Common.{
  ℕ, suc, String, Bool, true, false, Option, none, some, List, [], ◌∷◌, ◌++◌, find, eqb, ◌==◌,
  if◌then◌else◌,
}
use tactix.Json.{Json, text, null, member, truthy}
use tactix.Action.{Action, Db}

-- `Incident`
pub record Incident : Type 0 where
  pub id : ℕ
  pub title : Json
  pub description : Json
  pub severity : Json
  pub status : Json
  pub comments : List Json
  pub created_at : ℕ

-- The type and the payload of an `IncidentEvent`.
pub data Payload : Type 0 where
  created : (title severity : Json) (description : Option Json) → Payload
  comment_added : (comment : Json) → Payload
  status_changed : (status : Json) → Payload
  attachment_added : (attachment : ℕ) (object_name filename : String) → Payload

-- `IncidentEvent`
pub record IncidentEvent : Type 0 where
  pub id : ℕ
  pub incident_id : ℕ
  pub payload : Payload
  pub created_at : ℕ

pub record Attachment : Type 0 where
  pub id : ℕ
  pub incident_id : ℕ
  pub object_name : String
  pub filename : String
  pub created_at : ℕ

-- The variables. `objects` is the Map of the stored files, the entry that was set last first.
pub record Registry : Type 0 where
  pub incidents : List Incident
  pub events : List IncidentEvent
  pub next_incident_id : ℕ
  pub next_event_id : ℕ
  pub attachments : List Attachment
  pub next_attachment_id : ℕ
  pub objects : List (String × String)

-- The envelope of a notification.
pub record Envelope : Type 0 where
  pub incident_id : ℕ
  pub seq : ℕ
  pub payload : Payload

pub data Reply : Type 0 where
  problem : (status : ℕ) (error : String) → Reply
  blank : (status : ℕ) → Reply
  incident : (status : ℕ) → Incident → Reply
  incidents : (status : ℕ) → List Incident → Reply
  attachment : (status : ℕ) → Attachment → Reply
  -- an error that nothing catches, before anything is answered
  unanswered : Reply

pub data NoError : Type 0 where

abbrev pub Service : Type 0
Service = Db Registry Envelope

abbrev pub Handler : Type 0 → Type 0
Handler A = Action Service NoError A

abbrev pub start : Registry
start = record {
  incidents = [];
  events = [];
  next_incident_id = 1;
  next_event_id = 1;
  attachments = [];
  next_attachment_id = 1;
  objects = [];
}

-- `{ id: nextEventId++, … }`, pushed by `commitEvent`
abbrev pub log : ℕ → Payload → (logged : ℕ) → Registry → Registry
log id payload logged g = record g {
  events =
      g.events
      ++ (record { id = g.next_event_id; incident_id = id; payload = payload; created_at = logged }
          ∷ []);
  next_event_id = suc g.next_event_id;
}

-- `incidents.find((i) => i.id === id)`
abbrev pub find_incident : ℕ → Registry → Option Incident
find_incident id g = find (λ i. eqb i.id id) g.incidents

-- A change of the object that `find` returns.
unfoldable pub change_first : ℕ → (Incident → Incident) → List Incident → List Incident
change_first id change [] = []
change_first id change (i ∷ is) =
    let rest = change_first id change is in if eqb i.id id then change i ∷ is else i ∷ rest

-- `body.description ?? null`
abbrev pub or_null : Option Json → Json
or_null none = null
or_null (some v) = v

-- `body.key`, where the body may be missing
abbrev pub field : String → Option Json → Option Json
field key none = none
field key (some body) = member key body

-- `body && body.key`, if it is truthy
abbrev pub required : String → Option Json → Option Json
required key body = let v = field key body in if truthy v then v else none

abbrev pub new_incident : Registry → (title severity : Json) → Option Json → (at : ℕ) → Incident
new_incident g title severity description at = record {
  id = g.next_incident_id;
  title = title;
  description = or_null description;
  severity = severity;
  status = text "open";
  comments = [];
  created_at = at;
}

abbrev pub create_incident :
    (title severity : Json) → Option Json → (at logged : ℕ) → Registry → Registry
create_incident title severity description at logged g =
    log g.next_incident_id (created title severity description) logged (record g {
      incidents = g.incidents ++ (new_incident g title severity description at ∷ []);
      next_incident_id = suc g.next_incident_id;
    })

abbrev pub commented : Json → Incident → Incident
commented comment i = record i { comments = i.comments ++ (comment ∷ []) }

abbrev pub with_status : Json → Incident → Incident
with_status status i = record i { status = status }

-- An event about an incident, and the change of its object.
abbrev pub change_incident :
    ℕ → (Incident → Incident) → Payload → (logged : ℕ) → Registry → Registry
change_incident id change payload logged g =
    log id payload logged (record g { incidents = change_first id change g.incidents })

abbrev pub new_attachment : Registry → ℕ → (object_name filename : String) → (at : ℕ) → Attachment
new_attachment g id object_name filename at = record {
  id = g.next_attachment_id;
  incident_id = id;
  object_name = object_name;
  filename = filename;
  created_at = at;
}

abbrev pub attach :
    ℕ → (object_name filename content : String) → (at logged : ℕ) → Registry → Registry
attach id object_name filename content at logged g =
    log id (attachment_added g.next_attachment_id object_name filename) logged (record g {
      objects = (object_name, content) ∷ g.objects;
      attachments = g.attachments ++ (new_attachment g id object_name filename at ∷ []);
      next_attachment_id = suc g.next_attachment_id;
    })
