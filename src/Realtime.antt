-- ===== src/Realtime.antt =====
-- services/realtime-svc/index.js: the queue of one WebSocket client. The service `ws`, `fetch` and
-- `JSON.parse` are seen through what they call: each callback is one input of `react`.
pub mod Server
pub mod Alone
pub mod Channel
pub mod Queue
pub mod Carried
pub mod Order
pub mod Drain
pub mod Tests
use tactix.Common.{
  ℕ, zero, suc, String, ◌≡◌, Bool, true, false, ◌||◌, not, ◌&&◌, Option, none, some, List, [], ◌∷◌,
  ◌++◌, length, eqb, leb, if◌then◌else◌, ◌==◌,
}
use tactix.Json.{Json, text, boolean, integer, null, member, truthy}

-- `a === b`, where `b` may be undefined. Two parsed objects are never the same reference.
abbrev pub strict_equal : Json → Option Json → Bool
strict_equal (text s) (some (text t)) = s == t
strict_equal (boolean true) (some (boolean b)) = b
strict_equal (boolean false) (some (boolean b)) = not b
strict_equal (integer true m) (some (integer true n)) = eqb m n
strict_equal (integer false m) (some (integer false n)) = eqb m n
strict_equal (integer true m) (some (integer false n)) = eqb m 0 && eqb n 0
strict_equal (integer false m) (some (integer true n)) = eqb m 0 && eqb n 0
strict_equal null (some null) = true
strict_equal _ _ = false

-- `event.type === 'PLAYBOOK_NOTIFY'`, or `msg.type === 'subscribe'`
abbrev pub has_type : String → Json → Bool
has_type name event = strict_equal (text name) (member "type" event)

-- `typeof value === 'number'`, with the value
abbrev pub number : Option Json → Option Json
number (some (integer negative n)) = some (integer negative n)
number _ = none

-- An argument of `ws.send`, before `JSON.stringify`; a `seq` of `none` is left out by it.
pub data Sent : Type 0 where
  event_message : Json → Sent
  snapshot : (incident : Json) (seq : Option Json) → Sent

-- A request `/incidents/${incident_id}` on its way; its answer is sent with `seq`.
pub record Fetch : Type 0 where
  pub incident_id : Json
  pub seq : Option Json

-- The `state` of a connection, `ws.readyState === OPEN`, and what was asked of `ws` and `fetch`.
pub record Client : Type 0 where
  pub incident_id : Json
  pub queue : List Json
  pub sending : Bool
  pub is_open : Bool
  pub sent : List Sent
  pub fetches : List Fetch

abbrev pub max_queue : ℕ
max_queue = 100

-- the handler of `connection`
abbrev pub connected : Client
connected = record {
  incident_id = null;
  queue = [];
  sending = false;
  is_open = true;
  sent = [];
  fetches = [];
}

unfoldable pub flush : Client → Client
flush c = elim (c.sending || not c.is_open) [
  | true ↦ c
  | false ↦ elim (c.queue) [
    | [] ↦ c
    | msg ∷ rest ↦ elim (truthy (some msg)) [
      | false ↦ record c { queue = rest }
      | true ↦ record c { queue = rest; sending = true; sent = c.sent ++ (event_message msg ∷ []) }
    ]
  ]
]

unfoldable pub enqueue : Json → Client → Client
unfolding flush
enqueue event c =
    if leb max_queue (length c.queue)
    then record c {
      fetches =
          c.fetches ++ (record { incident_id = c.incident_id; seq = member "seq" event } ∷ []);
      queue = [];
    }
    else flush (record c { queue = c.queue ++ (event ∷ []) })

-- the test of `broadcast`
abbrev pub matches : Json → Json → Bool
matches incident_id event =
    has_type "PLAYBOOK_NOTIFY" event || strict_equal incident_id (member "incidentId" event)

-- the body of the loop of `broadcast`
unfoldable pub offer : Json → Client → Client
unfolding enqueue
offer event c = if matches c.incident_id event then enqueue event c else c

-- the incident that a message subscribes to
abbrev pub subscription : Json → Option Json
subscription msg = if has_type "subscribe" msg then number (member "incidentId" msg) else none

-- the snapshot that a subscription asks for
abbrev pub resume : Json → Option Json → List Fetch
resume id none = []
resume id (some seq) = record { incident_id = id; seq = some seq } ∷ []

abbrev pub is_null : Json → Bool
is_null null = true
is_null _ = false

-- The handler of `message`; `none` is a text that is no JSON. For a null `msg.type` throws outside the
-- `try`, which ends the process: the socket is closed then, and no further input comes.
unfoldable pub receive : Option Json → Client → Client
receive none c = c
receive (some msg) c = elim (subscription msg) [
  | none ↦ if is_null msg then record c { is_open = false } else c
  | some id ↦ record c {
    incident_id = id;
    fetches = c.fetches ++ resume id (number (member "seq" msg));
  }
]

-- the callback of `ws.send`
unfoldable pub finish_send : (failed : Bool) → Client → Client
unfolding flush
finish_send true c = record c { sending = false; is_open = false }
finish_send false c = flush (record c { sending = false })

-- The `n`th request on its way.
abbrev pub take_fetch : ℕ → List Fetch → Option (Fetch × List Fetch)
take_fetch n [] = none
take_fetch zero (f ∷ fs) = some (f, fs)
take_fetch (suc n) (f ∷ fs) = elim (take_fetch n fs) [
  | none ↦ none
  | some (g, gs) ↦ some (g, f ∷ gs)
]

-- The callbacks of one `fetch`; `none` is a failure, of the request or of `res.json()`.
unfoldable pub fetched : ℕ → Option Json → Client → Client
fetched n reply c = elim (take_fetch n c.fetches) [
  | none ↦ c
  | some (f, fs) ↦ elim reply [
    | none ↦ record c { fetches = fs }
    | some incident ↦ record c { fetches = fs; sent = c.sent ++ (snapshot incident f.seq ∷ []) }
  ]
]

-- What happens to a client, in the order of the event loop. `ws` calls back a send that is under way
-- only; `leave` is a socket that starts to close.
pub data Input : Type 0 where
  offered : Json → Input
  received : Option Json → Input
  send_done : (failed : Bool) → Input
  answered : ℕ → Option Json → Input
  leave : Input

unfoldable pub react : Client → Input → Client
unfolding offer receive finish_send fetched
react c (offered event) = offer event c
react c (received msg) = receive msg c
react c (send_done failed) = if c.sending then finish_send failed c else c
react c (answered n reply) = fetched n reply c
react c leave = record c { is_open = false }

unfoldable pub run : Client → List Input → Client
unfolding react
run c [] = c
run c (i ∷ is) = run (react c i) is
