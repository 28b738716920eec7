-- ===== src/Incident.antt =====
-- services/incident: the event-sourced incident. domain/events.ts and domain/Incident.ts; a method
-- returns the event and the state that it leaves.
pub mod Store
pub mod Api
pub mod Postgres
pub mod Replay
pub mod History
pub mod Once
pub mod Tests
use mathlib.Core.List.{foldl}
use tactix.Common.{String, Option, none, some, List, [], ◌∷◌, ◌++◌}

pub data IncidentEvent : Type 0 where
  created : (title description org : String) → IncidentEvent
  updated : (title description : Option String) → IncidentEvent
  submitted : IncidentEvent
  message_added : String → IncidentEvent

pub data IncidentStatus : Type 0 where
  draft : IncidentStatus
  submitted : IncidentStatus
  closed : IncidentStatus

pub record IncidentState : Type 0 where
  pub id : String
  pub title : String
  pub description : String
  pub status : IncidentStatus
  pub org : String
  pub messages : List String

-- `if (field !== undefined) state.x = field`
abbrev pub given : Option String → String → String
given none old = old
given (some new) old = new

unfoldable pub apply : IncidentState → IncidentEvent → IncidentState
apply s (created title description org) = record s {
  title = title;
  description = description;
  status = draft;
  org = org;
}
apply s (updated title description) = record s {
  title = given title s.title;
  description = given description s.description;
}
apply s IncidentEvent.submitted = record s { status = IncidentStatus.submitted }
apply s (message_added message) = record s { messages = s.messages ++ (message ∷ []) }

-- the state with which `create` and `from` begin
abbrev pub blank : String → String → IncidentState
blank id org = record {
  id = id;
  title = "";
  description = "";
  status = draft;
  org = org;
  messages = [];
}

unfoldable pub create : String → String → String → String → IncidentState × IncidentEvent
unfolding apply
create id title description org =
    let event = created title description org in (apply (blank id org) event, event)

unfoldable pub from : String → List IncidentEvent → IncidentState
unfolding apply
from id events = foldl apply (blank id "") events

unfoldable pub add_message : IncidentState → String → IncidentEvent × IncidentState
unfolding apply
add_message s message = let event = message_added message in (event, apply s event)

-- `none` is the error "Only draft incidents can be submitted".
unfoldable pub submit : IncidentState → Option (IncidentEvent × IncidentState)
unfolding apply
submit s = elim s.status [
  | draft ↦ some (IncidentEvent.submitted, apply s IncidentEvent.submitted)
  | IncidentStatus.submitted ↦ none
  | closed ↦ none
]

unfoldable pub update :
    IncidentState → Option String → Option String → IncidentEvent × IncidentState
unfolding apply
update s title description = let event = updated title description in (event, apply s event)
