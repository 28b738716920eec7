-- ===== src/Registry/Handlers.antt =====
-- services/incident-svc/src/index.ts: the requests on incidents, comments, status and attachments. A
-- handler is one change of the variables, its answer, and a notification if an event was committed.
use tactix.Common.{
  ℕ, String, Bool, true, false, Option, none, some, List, [], ◌∷◌, keep, ◌==◌, truthy,
  if◌then◌else◌,
}
use tactix.Json.{Json, text, null}
use tactix.Action.{modify, notify, pure, ◌>>=◌, ◌>>◌}
use tactix.Authz.{TactixUser, Flow, next, answer, require_role}
use tactix.Registry.{
  Incident, Payload, created, comment_added, status_changed, attachment_added, Registry, Envelope,
  Reply, problem, blank, incident, incidents, attachment, unanswered, Handler, find_incident,
  required, field, new_incident, create_incident, commented, with_status, change_incident,
  new_attachment, attach,
}

abbrev pub Outcome : Type 0
Outcome = (Reply × Option Envelope) × Registry

-- An answer without an event.
abbrev pub refused : Reply → Registry → Outcome
refused reply g = ((reply, none), g)

abbrev pub event_of : ℕ → Payload → Registry → Option Envelope
event_of id payload g = some (record { incident_id = id; seq = g.next_event_id; payload = payload })

-- POST /incidents
unfoldable pub create_step : (at logged : ℕ) → Option Json → Registry → Outcome
create_step at logged body g = elim (required "title" body) [
  | none ↦ refused (problem 400 "title and severity required") g
  | some title ↦ elim (required "severity" body) [
    | none ↦ refused (problem 400 "title and severity required") g
    | some severity ↦
        let description = field "description" body in
        (
          (
            incident 201 (new_incident g title severity description at),
            event_of g.next_incident_id (created title severity description) g,
          ),
          create_incident title severity description at logged g,
        )
  ]
]

-- GET /incidents/:id
unfoldable pub get_incident : ℕ → Registry → Reply
get_incident id g = elim (find_incident id g) [ none ↦ blank 404 | some i ↦ incident 200 i ]

-- POST /incidents/:id/comment
unfoldable pub comment_step : (logged : ℕ) → ℕ → Option Json → Registry → Outcome
comment_step logged id body g = elim (required "comment" body) [
  | none ↦ refused (problem 400 "comment required") g
  | some comment ↦ elim (find_incident id g) [
    | none ↦ refused (blank 404) g
    | some i ↦ (
      (incident 200 (commented comment i), event_of id (comment_added comment) g),
      change_incident id (commented comment) (comment_added comment) logged g,
    )
  ]
]

-- POST /incidents/:id/status, behind the guard
unfoldable pub status_step : (logged : ℕ) → ℕ → Option Json → Registry → Outcome
status_step logged id body g = elim (required "status" body) [
  | none ↦ refused (problem 400 "status required") g
  | some status ↦ elim (find_incident id g) [
    | none ↦ refused (blank 404) g
    | some i ↦ (
      (incident 200 (with_status status i), event_of id (status_changed status) g),
      change_incident id (with_status status) (status_changed status) logged g,
    )
  ]
]

-- The answer of the guard is `res.status(403).json(…)`, and a response of node:http has no `status`.
abbrev pub guarded : Flow TactixUser → (logged : ℕ) → ℕ → Option Json → Registry → Outcome
guarded (next u) logged id body g = status_step logged id body g
guarded (answer status error) logged id body g = refused unanswered g

-- `requireRole(['dispatcher'])(req, res, …)` on `req.user`
unfoldable pub guarded_status_step :
    Option TactixUser → (logged : ℕ) → ℕ → Option Json → Registry → Outcome
guarded_status_step user logged id body g =
    guarded (require_role ("dispatcher" ∷ []) user) logged id body g

-- POST /incidents/:id/attachments; `file` is the name and the content of the part that `readMultipart`
-- found, `object_name` is drawn.
unfoldable pub attachment_step :
    (at logged : ℕ) → ℕ → Option (String × String) → (object_name : String) → Registry → Outcome
attachment_step at logged id file object_name g = elim (find_incident id g) [
  | none ↦ refused (blank 404) g
  | some i ↦ elim file [
    | none ↦ refused (problem 400 "file required") g
    | some (filename, content) ↦ (
      (
        attachment 201 (new_attachment g id object_name filename at),
        event_of id (attachment_added g.next_attachment_id object_name filename) g,
      ),
      attach id object_name filename content at logged g,
    )
  ]
]

-- The notification of `commitEvent`, if there is a database client.
abbrev pub tell : (client : Bool) → Option Envelope → Handler (Unit {0})
tell client none = pure tt
tell true (some e) = notify e
tell false (some e) = pure tt

-- A request: the change of the variables, the notification, the answer.
unfoldable pub handle : (client : Bool) → (Registry → Outcome) → Handler Reply
handle client step = do (reply, event) ← modify step; tell client event; pure reply

-- GET /incidents without a database client; `lower` is `toLowerCase`, `holds text part` is
-- `text.includes(part)`. A title or description that is no text has no `toLowerCase`: `none` is the
-- error that no one catches.
module _ (lower : String → String) (holds : String → String → Bool) where
  abbrev pub text_holds : Json → String → Option Bool
  text_holds (text s) needle = some (holds (lower s) needle)
  text_holds _ needle = none

  -- `(i.description ?? '')`
  abbrev pub description_holds : Json → String → Option Bool
  description_holds null needle = some (holds (lower "") needle)
  description_holds d needle = text_holds d needle

  abbrev pub matches_query : String → Incident → Option Bool
  matches_query needle i = elim (text_holds i.title needle) [
    | none ↦ none
    | some true ↦ some true
    | some false ↦ description_holds i.description needle
  ]

  -- `list.filter(…)` with a test that may throw
  unfoldable pub filter_query : String → List Incident → Option (List Incident)
  filter_query needle [] = some []
  filter_query needle (i ∷ is) =
      let rest = filter_query needle is in
      elim (matches_query needle i) [
        | none ↦ none
        | some hit ↦ elim rest [
          | none ↦ none
          | some found ↦ if hit then some (i ∷ found) else some found
        ]
      ]

  abbrev pub has_status : Option String → Incident → Bool
  has_status none i = true
  has_status (some s) i =
      if truthy (some s) then (elim i.status [ text t ↦ t == s | _ ↦ false ]) else true

  unfoldable pub list_incidents : (status q : Option String) → Registry → Option Reply
  unfolding filter_query
  list_incidents status none g = some (incidents 200 (keep (has_status status) g.incidents))
  list_incidents status (some q) g =
      let list = keep (has_status status) g.incidents in
      elim (if truthy (some q) then filter_query (lower q) list else some list) [
        | none ↦ none
        | some found ↦ some (incidents 200 found)
      ]
