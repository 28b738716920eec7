-- ===== src/Playbook.antt =====
-- services/playbook-svc/src/routes.ts and rbac.ts: playbooks of an incident and their runs. The
-- handlers stand behind `requireAuth`, and the caller is the user that its middleware attaches; `id`
-- is the drawn UUID, `now` the time of the call.
pub mod Runs
pub mod Tests
use Prim.Native.String.{◌++◌ as str_append}
use tactix.Common.{
  ℕ, String, Bool, true, false, not, ◌&&◌, ◌||◌, Option, none, some, List, [], ◌∷◌, ◌++◌, map, keep,
  any, first, includes, or_else, leb, ◌==◌, if◌then◌else◌,
}
use tactix.Json.{Json, text, member, is_object, string_field, truthy}
use tactix.Action.{Action, Db, query, pure, ◌>>=◌, ◌>>◌}
use tactix.Authz.{TactixUser}

-- A row of playbooks; `json` is `none` where the body had none.
pub record Playbook : Type 0 where
  pub playbook_id : String
  pub incident_id : String
  pub name : String
  pub json : Option Json
  pub created_by : String

pub record PlaybookRun : Type 0 where
  pub run_id : String
  pub playbook_id : String
  pub incident_id : String
  pub requested_by : String
  pub approved_by : String
  pub status : String

-- The payload of PLAYBOOK_NOTIFY; the two values of the playbook's JSON may be of any kind.
pub record Envelope : Type 0 where
  pub playbook_id : String
  pub incident_id : String
  pub operation_code : String
  pub severity : Json
  pub title : String
  pub text : Json
  pub actor_upn : String
  pub occurred_at : ℕ

-- The tables, and what was sent to the channel tactix_events.
pub record Tables : Type 0 where
  pub playbooks : List Playbook
  pub runs : List PlaybookRun
  pub notified : List Envelope

-- A rejected query: the request gets no answer.
pub data Rejected : Type 0 where
  rejected : Rejected

pub data Reply : Type 0 where
  listed : List (String × String) → Reply
  created : (id name : String) → Reply
  shown : Playbook → Reply
  executed : (run_id : String) → Reply
  problem : (status : ℕ) → (error : String) → Reply
  -- 400 with the findings of zod
  invalid : Reply

abbrev pub Handler : Type 0
Handler = Action (Db Tables (Unit {0})) Rejected Reply

-- `canEditPlaybooks`
unfoldable pub can_edit_playbooks : List String → Bool
can_edit_playbooks roles =
    any (λ r. includes r ("IMO" ∷ "DO" ∷ "SDO" ∷ "G3 OPS" ∷ "ADMIN" ∷ [])) roles

-- `canRunPlaybooks`, which no request calls
unfoldable pub can_run_playbooks : List String → Bool
can_run_playbooks roles = includes "DO" roles

-- `req.user?.sub || 'system'`: the user of packages/authz has no member `sub`.
abbrev pub actor_of : TactixUser → String
actor_of user = "system"

-- `GET /incidents/:incidentId/playbooks`; `by_name` is ORDER BY name.
module _ (by_name : List Playbook → List Playbook) where
  unfoldable pub list_playbooks : (incident : String) → Handler
  list_playbooks incident = do
    rows ← query rejected (λ t. (by_name (keep (λ p. p.incident_id == incident) t.playbooks), t))
    pure (listed (map (λ p. (p.playbook_id, p.name)) rows))

-- What the schema `CreateBody` accepts.
unfoldable pub parse_create : Option Json → Option (String × Option Json)
parse_create none = none
parse_create (some body) = elim (string_field (member "name" body)) [
  | none ↦ none
  | some name ↦ if name == "" then none else some (name, member "json" body)
]

-- `POST /incidents/:incidentId/playbooks`
unfoldable pub post_playbook : TactixUser → (id incident : String) → Option Json → Handler
unfolding can_edit_playbooks parse_create
post_playbook user id incident body =
    if can_edit_playbooks user.roles
    then elim (parse_create body) [
      | none ↦ pure invalid
      | some (name, json) ↦ do
        let row : Playbook = record {
          playbook_id = id;
          incident_id = incident;
          name = name;
          json = json;
          created_by = actor_of user;
        }
        done ← query rejected (λ t. (tt, record t { playbooks = t.playbooks ++ (row ∷ []) }))
        pure (created id name)
    ]
    else pure (problem 403 "forbidden")

-- The SELECT by the id of a playbook.
abbrev pub playbook_of : String → Tables → Option Playbook
playbook_of id t = first (keep (λ p. p.playbook_id == id) t.playbooks)

-- `GET /playbooks/:id`
unfoldable pub get_playbook : (id : String) → Handler
get_playbook id = do
  row ← query rejected (λ t. (playbook_of id t, t))
  elim row [ none ↦ pure (problem 404 "not_found") | some p ↦ pure (shown p) ]

-- `json?.key`, if it is truthy
abbrev pub default_of : String → Option Json → Option Json
default_of key none = none
default_of key (some json) = let v = member key json in if truthy v then v else none

abbrev pub or_text : Option Json → String → Json
or_text none c = text c
or_text (some v) c = v

-- `a || b || c` on a text of the body, a value of the playbook and a text
abbrev pub choose : Option String → Option Json → String → Json
choose none b c = or_text b c
choose (some s) b c = if s == "" then or_text b c else text s

-- What the schema `RunBody` accepts.
pub record RunBody : Type 0 where
  pub incident_id : String
  pub message : Option String
  pub severity : Option String

-- `size` is the length of a text in the units of JavaScript, `has_role` the function that the
-- service imports, and `org_code` comes from the environment.
module _ (size : String → ℕ) (has_role : TactixUser → String → Bool) (org_code : String) where
  -- A member under `z.string().min(1).max(2000).optional()`; outer `none` refuses it.
  abbrev pub message_field : Option Json → Option (Option String)
  message_field none = some none
  message_field (some (text s)) =
      if leb 1 (size s) && leb (size s) 2000 then some (some s) else none
  message_field (some _) = none

  -- A member under `z.enum([…]).optional()`
  abbrev pub severity_field : Option Json → Option (Option String)
  severity_field none = some none
  severity_field (some (text s)) =
      if includes s ("info" ∷ "warning" ∷ "critical" ∷ []) then some (some s) else none
  severity_field (some _) = none

  unfoldable pub parse_run : Option Json → Option RunBody
  parse_run none = none
  parse_run (some body) = elim (string_field (member "incidentId" body)) [
    | none ↦ none
    | some incident ↦ elim (message_field (member "message" body)) [
      | none ↦ none
      | some message ↦ elim (severity_field (member "severity" body)) [
        | none ↦ none
        | some severity ↦
            if leb 8 (size incident)
            then some (record { incident_id = incident; message = message; severity = severity })
            else none
      ]
    ]
  ]

  -- The envelope of a run.
  abbrev pub envelope_of : TactixUser → (now : ℕ) → Playbook → RunBody → Envelope
  envelope_of user now p b = record {
    playbook_id = p.playbook_id;
    incident_id = b.incident_id;
    operation_code = org_code;
    severity = choose b.severity (default_of "defaultSeverity" p.json) "info";
    title = p.name;
    text =
        choose b.message (default_of "defaultMessage" p.json)
          (str_append "Playbook " (str_append p.name " triggered"));
    actor_upn = actor_of user;
    occurred_at = now;
  }

  abbrev pub run_of : TactixUser → (run_id : String) → Playbook → RunBody → PlaybookRun
  run_of user run_id p b = record {
    run_id = run_id;
    playbook_id = p.playbook_id;
    incident_id = b.incident_id;
    requested_by = actor_of user;
    approved_by = actor_of user;
    status = "executed";
  }

  -- What `run` does with the row that it found.
  unfoldable pub run_found :
      TactixUser → (run_id : String) (now : ℕ) → Option Json → Option Playbook → Handler
  unfolding parse_run
  run_found user run_id now body none = pure (problem 404 "playbook_not_found")
  run_found user run_id now body (some p) = elim (parse_run body) [
    | none ↦ pure invalid
    | some b ↦ do
      told ←
          query rejected
            (λ t. (tt, record t { notified = t.notified ++ (envelope_of user now p b ∷ []) }))
      done ← query rejected (λ t. (tt, record t { runs = t.runs ++ (run_of user run_id p b ∷ []) }))
      pure (executed run_id)
  ]

  -- `POST /playbooks/:id/run`
  unfoldable pub post_run :
      TactixUser → (run_id : String) (now : ℕ) (id : String) → Option Json → Handler
  unfolding run_found
  post_run user run_id now id body =
      if has_role user "DO"
      then query rejected (λ t. (playbook_of id t, t)) >>= run_found user run_id now body
      else pure (problem 403 "forbidden")
