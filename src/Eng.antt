-- ===== src/Eng.antt =====
-- services/eng-svc/src/index.ts: the chat between instances. Times are in milliseconds; `now` is the
-- time of the call, `nats` and `client` say whether `nc` and `db` are there.
pub mod Retention
pub mod Tests
use Prim.Native.String
use Prim.Native.String.{◌++◌ as str_append}
use tactix.Common.{
  ℕ, ◌-◌, ◌*◌, String, Bool, true, false, not, ◌&&◌, ◌||◌, Option, none, some, List, [], ◌∷◌, ◌++◌,
  map, keep, any, includes, or_else, take, ltb, leb, strip_prefix, eqb, ◌==◌, if◌then◌else◌,
}
use tactix.Json.{Json, member, is_object, string_field}
use tactix.Action.{Action, Db, query, modify, attempt, pure, throw, ◌>>=◌, ◌>>◌}
use tactix.Authz.{Request, Flow, next, answer}
use tactix.Feed.Order.{latest_first}

-- What the service reads of the claims of a token.
pub record EngUser : Type 0 where
  pub upn : Option String
  pub display : Option String
  pub roles : Option (List String)

-- `s.replace(pattern, '')`, which takes out the first occurrence.
unfoldable pub take_out : (pattern s : String) → String
unfolding strip_prefix
take_out pattern String.[] = elim (strip_prefix pattern "") [ none ↦ "" | some rest ↦ rest ]
take_out pattern (String.◌∷◌ c s) =
    let later = take_out pattern s in
    elim (strip_prefix pattern (String.◌∷◌ c s)) [ none ↦ String.◌∷◌ c later | some rest ↦ rest ]

-- `authenticate`; `verify` is `none` where `jwt.verify` throws.
module _ (verify : String → Option EngUser) (allowed_roles : List String) where
  unfoldable pub authenticate : Request → Flow EngUser
  unfolding take_out
  authenticate req = elim req.authorization [
    | none ↦ answer 401 ""
    | some auth ↦ if auth == "" then answer 401 "" else elim (verify (take_out "Bearer " auth)) [
      | none ↦ answer 401 ""
      | some payload ↦
          let roles : List String = elim payload.roles [ none ↦ [] | some r ↦ r ] in
          if any (λ r. includes r allowed_roles) roles then next payload else answer 403 ""
    ]
  ]

pub record EngRow : Type 0 where
  pub msg_id : String
  pub org_code : String
  pub operation_code : String
  pub from_instance_id : String
  pub from_user_upn : String
  pub text : String
  pub created_at : ℕ

-- The envelope `engchat.v1`.
pub record Envelope : Type 0 where
  pub org_code : String
  pub operation_code : String
  pub from_instance_id : String
  pub upn : String
  pub display : String
  pub text : String
  pub sent_at : ℕ

-- A client of the WebSocket, with what it was sent.
pub record Client : Type 0 where
  pub key : ℕ
  pub received : List String

-- The table, what was published to NATS by its subject, and the Set `wsClients`.
pub record State : Type 0 where
  pub rows : List EngRow
  pub published : List (String × Envelope)
  pub clients : List Client

-- A rejected query, and a RangeError of `toISOString`: the request gets no answer.
pub data Failure : Type 0 where
  rejected : Failure
  range_error : Failure

pub data Reply : Type 0 where
  done : Reply
  invalid : Reply
  listed : List EngRow → Reply

abbrev pub Handler : Type 0
Handler = Action (Db State (Unit {0})) Failure Reply

-- What `messageSchema` accepts: the code of the operation and the text.
unfoldable pub parse_message : Option Json → Option (String × String)
parse_message none = none
parse_message (some body) = elim (string_field (member "operationCode" body)) [
  | none ↦ none
  | some code ↦ elim (string_field (member "text" body)) [
    | none ↦ none
    | some content ↦ some (code, content)
  ]
]

-- The rows of the SELECT, before its LIMIT.
abbrev pub since_rows : (org_code code : String) (since : ℕ) → List EngRow → List EngRow
since_rows org_code code since stored =
    keep (λ r. r.org_code == org_code && r.operation_code == code && leb since r.created_at) stored

-- `retentionHours * 3600 * 1000` before a time; nothing is from before the epoch.
abbrev pub horizon : (retention_hours now : ℕ) → ℕ
horizon retention_hours now = now - retention_hours * 3600000

module _ (org_code instance_id : String) (retention_hours : ℕ) (nats client : Bool) where
  abbrev pub subject : String → String
  subject code = str_append "eng." (str_append org_code (str_append "." (str_append code ".chat")))

  abbrev pub envelope_of : EngUser → (now : ℕ) → String × String → Envelope
  envelope_of user now (code, content) = record {
    org_code = org_code;
    operation_code = code;
    from_instance_id = instance_id;
    upn = or_else user.upn "";
    display = or_else user.display "";
    text = content;
    sent_at = now;
  }

  abbrev pub row_of : EngUser → (id : String) (now : ℕ) → String × String → EngRow
  row_of user id now (code, content) = record {
    msg_id = id;
    org_code = org_code;
    operation_code = code;
    from_instance_id = instance_id;
    from_user_upn = or_else user.upn "";
    text = content;
    created_at = now;
  }

  -- `POST /eng/messages`, behind `authenticate`; an error of the INSERT is dropped.
  unfoldable pub post_message : EngUser → (id : String) (now : ℕ) → Option Json → Handler
  unfolding parse_message attempt
  post_message user id now body = elim (parse_message body) [
    | none ↦ pure invalid
    | some parsed ↦ do
      told ← modify (λ t. (
        tt,
        if nats
            then record t {
              published = t.published ++ ((subject parsed.0, envelope_of user now parsed) ∷ []);
            }
            else t,
      ))
      stored ← attempt {E = Failure} (
          if client
          then query rejected
              (λ t. (tt, record t { rows = t.rows ++ (row_of user id now parsed ∷ []) }))
          else pure tt)
      pure done
  ]

  -- `parse_date` is the time of `new Date(text)`, `none` for an invalid date.
  unfoldable pub get_messages :
      (parse_date : String → Option ℕ) (now : ℕ) (code since : Option String) → Handler
  unfolding latest_first
  get_messages parse_date now code since =
      let asked = or_else code "" in
      let from : Option ℕ = elim since [
        | none ↦ some (horizon retention_hours now)
        | some s ↦ if s == "" then some (horizon retention_hours now) else parse_date s
      ] in
      if asked == "" || not client then pure (listed []) else elim from [
        | none ↦ throw range_error
        | some time ↦ do
          found ← query rejected (λ t. (
            take 100 (latest_first (λ r. r.created_at) (since_rows org_code asked time t.rows)),
            t,
          ))
          pure (listed found)
      ]

  -- The DELETE of the timer, whose error is dropped.
  unfoldable pub purge : (now : ℕ) → Action (Db State (Unit {0})) Failure (Option (Unit {0}))
  unfolding attempt
  purge now = attempt (
      if client
      then query rejected (λ t. (
        tt,
        record t { rows = keep (λ r. not (ltb r.created_at (horizon retention_hours now))) t.rows },
      ))
      else pure tt)

-- A message of the subscription goes to every client of the Set.
unfoldable pub deliver : (msg : String) → State → State
deliver msg s = record s {
  clients = map (λ (c : Client). record c { received = c.received ++ (msg ∷ []) }) s.clients;
}

-- the handler of `upgrade`; each socket is a new key
unfoldable pub upgrade : (url : String) (key : ℕ) → State → State
upgrade url key s =
    if url == "/eng/ws"
    then record s { clients = s.clients ++ (record { key = key; received = [] } ∷ []) }
    else s

-- the handler of `close`
unfoldable pub close : (key : ℕ) → State → State
close key s = record s { clients = keep (λ c. not (eqb c.key key)) s.clients }
