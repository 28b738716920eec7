-- ===== src/Incident/Api.antt =====
-- services/incident/src/api.ts: the handlers, over any event store. The identifier that
-- `randomUUID` draws is an argument. `next(err)` is the answer `failed`.
use tactix.Common.{ℕ, String, Option, none, some, List, [], ◌∷◌}
use tactix.Json.{Json, member, string_field}
use tactix.Incident.{IncidentEvent, IncidentState, create, from, add_message, submit}
use tactix.Incident.Store.{EventStore}

pub data Answer : Type 0 where
  sent : (status : ℕ) → IncidentState → Answer
  not_found : Answer
  failed : Answer

-- `z.object({ title, description, org }).parse(body)`
abbrev pub parse_create : Json → Option (String × String × String)
parse_create body = elim (string_field (member "title" body)) [
  | none ↦ none
  | some title ↦ elim (string_field (member "description" body)) [
    | none ↦ none
    | some description ↦ elim (string_field (member "org" body)) [
      | none ↦ none
      | some org ↦ some (title, description, org)
    ]
  ]
]

-- `Incident.from(id, events)`, after the test `events.length === 0`
abbrev pub found : String → List IncidentEvent → Option IncidentState
found id [] = none
found id (e ∷ es) = some (from id (e ∷ es))

module _ (store : EventStore) where
  open store use {Contents, append, load}

  -- POST /incidents
  unfoldable pub post_incident : Contents → Json → String → Contents × Answer
  post_incident s body id = elim (parse_create body) [
    | none ↦ (s, failed)
    | some (title, description, org) ↦
        let (incident, event) = create id title description org in
        (append s id event, sent 201 incident)
  ]

  -- GET /incidents/:id
  unfoldable pub get_incident : Contents → String → Answer
  get_incident s id = elim (found id (load s id)) [
    | none ↦ not_found
    | some incident ↦ sent 200 incident
  ]

  -- POST /incidents/:id/messages
  unfoldable pub post_message : Contents → String → Json → Contents × Answer
  post_message s id body = elim (string_field (member "message" body)) [
    | none ↦ (s, failed)
    | some message ↦ elim (found id (load s id)) [
      | none ↦ (s, not_found)
      | some incident ↦
          let (event, changed) = add_message incident message in
          (append s id event, sent 200 changed)
    ]
  ]

  -- POST /incidents/:id/submit
  unfoldable pub post_submit : Contents → String → Contents × Answer
  post_submit s id = elim (found id (load s id)) [
    | none ↦ (s, not_found)
    | some incident ↦ elim (submit incident) [
      | none ↦ (s, failed)
      | some (event, changed) ↦ (append s id event, sent 200 changed)
    ]
  ]
