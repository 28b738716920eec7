-- ===== src/Eng/Tests.antt =====
-- The chat between instances at concrete messages.
use tactix.Common.{
  ◌≡◌, refl, ℕ, String, true, Option, none, some, [], ◌∷◌, ◌==◌, arith, strip_prefix, if◌then◌else◌,
}
use tactix.Json.{Json, Members, object, with_member, text}
use tactix.Action.{ok, Db, query, modify, attempt, pure, throw, ◌>>=◌}
use tactix.Authz.{Request, next, answer}
use tactix.Feed.Order.{latest_first, insert_latest}
use tactix.Eng.{
  EngUser, EngRow, State, listed, take_out, authenticate, parse_message, post_message, get_messages,
  purge, deliver, upgrade, close,
}
use tactix.Eng.Retention.{under, get_messages-purge}

eng : Unit {0}
unfolding take_out authenticate parse_message post_message get_messages purge deliver upgrade close
    query modify attempt pure throw ◌>>=◌ latest_first insert_latest strip_prefix
eng = tt

abbrev ann : EngUser
ann = record { upn = some "ann"; display = none; roles = some ("CHAT" ∷ []) }

abbrev verify : String → Option EngUser
verify token = if token == "t1" then some ann else none

abbrev request : String → Request
request header = record { authorization = some header; protocol = none; url = "/eng/messages" }

authenticate_tests :
    (authenticate verify ("CHAT" ∷ []) (request "Bearer t1") ≡ next ann)
    × (authenticate verify ("CHAT" ∷ []) (request "t1") ≡ next ann)
    × (authenticate verify ("" ∷ []) (request "Bearer t1") ≡ answer 403 "")
    × (authenticate verify ("CHAT" ∷ []) (request "Bearer t2") ≡ answer 401 "")
unfolding eng
authenticate_tests = (refl, refl, refl, refl)

abbrev body : Option Json
body = some (
    object
      (with_member "operationCode" (text "OP") (with_member "text" (text "hello") Members.done)))

abbrev row : EngRow
row = record {
  msg_id = "m1";
  org_code = "ORG";
  operation_code = "OP";
  from_instance_id = "i1";
  from_user_upn = "ann";
  text = "hello";
  created_at = 7200000;
}

abbrev db : Db State (Unit {0})
db = record { tables = record { rows = []; published = []; clients = [] }; sent = []; faults = [] }

abbrev no_date : String → Option ℕ
no_date s = none

abbrev posted : Db State (Unit {0})
posted = (post_message "ORG" "i1" 1 true true ann "m1" 7200000 body db).1

message_test :
    (get_messages "ORG" "i1" 1 true true no_date 9000000 (some "OP") none posted).0
    ≡ ok (listed (row ∷ []))
unfolding eng
message_test = refl

deliver_test :
    (deliver "x" (upgrade "/eng/ws" 1 db.tables)).clients
    ≡ record { key = 1; received = "x" ∷ [] } ∷ []
unfolding eng
deliver_test = refl

get_messages-purge_example :
    (get_messages "ORG" "i1" 1 true true no_date 9000000
      (some "OP")
      none
      (under (purge "ORG" "i1" 1 true true 8000000 posted).1 [])).0
    ≡ (get_messages "ORG" "i1" 1 true true no_date 9000000 (some "OP") none (under posted [])).0
get_messages-purge_example =
    get_messages-purge "ORG" "i1" 1 true true no_date 8000000 9000000 (some "OP") posted []
      (omega arith)
