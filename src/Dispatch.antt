-- ===== src/Dispatch.antt =====
-- services/incident-svc/src/index.ts: which handler `createServer` calls for a request. A path is taken
-- by its segments, and each test of the server is one rule.
pub mod Order
pub mod Tests
use Prim.Native.Char.{code}
use Prim.Native.String
use tactix.Common.{
  ℕ, String, Bool, true, false, not, ◌&&◌, ◌||◌, Option, none, some, List, [], ◌∷◌, find, split_on,
  leb, eqb, ◌==◌, if◌then◌else◌,
}

-- A segment of the expressions: a word, `[^/]+` or `\d+`.
pub data Part : Type 0 where
  word : String → Part
  any_text : Part
  digits : Part

unfoldable pub are_digits : String → Bool
are_digits String.[] = true
are_digits (String.◌∷◌ c s) = leb 48 (code c) && leb (code c) 57 && are_digits s

unfoldable pub fits : Part → String → Bool
unfolding are_digits
fits (word w) s = w == s
fits any_text s = not (s == "")
fits digits s = not (s == "") && are_digits s

-- `url.pathname.match(…)`, on the segments
unfoldable pub matches : List Part → List String → Bool
unfolding fits
matches [] [] = true
matches (p ∷ ps) (s ∷ segments) = fits p s && matches ps segments
matches _ _ = false

-- What the server does: the handlers of this file and of routes/incidents.
pub data Target : Type 0 where
  health me_permissions permissions add_assignment remove_assignment add_role org_units : Target
  draft_message submit_message read_chat write_chat read_tasks add_task change_task : Target
  activity create_incident list_incidents read_incident comment change_status attach : Target

-- A test of the server; some also ask for a database client.
pub record Rule : Type 0 where
  pub method : String
  pub parts : List Part
  pub client : Bool
  pub target : Target

abbrev rule : String → List Part → Target → Rule
rule method parts target = record {
  method = method;
  parts = word "" ∷ parts;
  client = false;
  target = target;
}

abbrev with_client : String → List Part → Target → Rule
with_client method parts target = record {
  method = method;
  parts = word "" ∷ parts;
  client = true;
  target = target;
}

-- `/operations/:id/name`
abbrev of_operation : String → List Part
of_operation name = word "operations" ∷ any_text ∷ word name ∷ []

-- `/incidents/:id` with more segments
abbrev of_incident : List Part → List Part
of_incident parts = word "incidents" ∷ digits ∷ parts

-- The tests, in their order.
unfoldable pub rules : List Rule
rules =
    rule "GET" (word "health" ∷ []) health
    ∷ rule "GET" (word "me" ∷ word "effective-permissions" ∷ []) me_permissions
    ∷ with_client "GET" (of_operation "permissions") permissions
    ∷ with_client "POST" (of_operation "assignments") add_assignment
    ∷ with_client "DELETE" (word "operations" ∷ any_text ∷ word "assignments" ∷ any_text ∷ [])
        remove_assignment
    ∷ with_client "POST" (of_operation "roles") add_role
    ∷ with_client "GET" (of_operation "org-units") org_units
    ∷ with_client "POST" (of_incident (word "messages" ∷ word "draft" ∷ [])) draft_message
    ∷ with_client "POST" (of_incident (word "messages" ∷ word "submit" ∷ [])) submit_message
    ∷ with_client "GET" (of_incident (word "chat" ∷ [])) read_chat
    ∷ with_client "POST" (of_incident (word "chat" ∷ [])) write_chat
    ∷ with_client "GET" (of_incident (word "tasks" ∷ [])) read_tasks
    ∷ with_client "POST" (of_incident (word "tasks" ∷ [])) add_task
    ∷ with_client "PATCH" (of_incident (word "tasks" ∷ any_text ∷ [])) change_task
    ∷ with_client "GET" (of_incident (word "activity" ∷ [])) activity
    ∷ rule "POST" (word "incidents" ∷ []) create_incident
    ∷ rule "GET" (word "incidents" ∷ []) list_incidents
    ∷ rule "GET" (of_incident []) read_incident
    ∷ rule "POST" (of_incident (word "comment" ∷ [])) comment
    ∷ rule "POST" (of_incident (word "status" ∷ [])) change_status
    ∷ rule "POST" (of_incident (word "attachments" ∷ [])) attach
    ∷ []

-- `db` says whether there is `dbClient`.
unfoldable pub applies : (db : Bool) (method : String) (segments : List String) → Rule → Bool
unfolding matches
applies db method segments r =
    r.method == method && (not r.client || db) && matches r.parts segments

-- The first test that holds; `none` is the last answer, 404.
unfoldable pub dispatch : (db : Bool) (method path : String) → Option Target
unfolding rules applies split_on
dispatch db method path = elim (find (applies db method (split_on 47 path)) rules) [
  | none ↦ none
  | some r ↦ some r.target
]
