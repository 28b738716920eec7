-- ===== src/Realtime/Queue.antt =====
-- services/realtime-svc/index.js: the queue of a client is bounded and never stuck.
use mathlib.Core.Path.{subst}
use tactix.Common.{
  sym, ap, List-cases, ℕ, ◌≤◌, ◌≡◌, refl, Bool, true, false, Option, none, some, List, [], ◌∷◌,
  ◌++◌, length, length-append, arith, All, All-append, if◌then◌else◌, leb, Bool-cases, Option-cases,
  inl, inr,
}
use tactix.Json.{Json, object, array, text, boolean, integer, null, truthy}
use tactix.Realtime.{
  Client, Input, offered, received, send_done, answered, leave, strict_equal, matches, max_queue,
  connected, flush, enqueue, offer, receive, finish_send, fetched, react, run, take_fetch,
  subscription, event_message, is_null,
}

-- A value that `if (!msg) return` lets through.
abbrev pub IsTruthy : Json → Type 0
IsTruthy event = truthy (some event) ≡ true

-- The queue of an open client waits for a callback only.
pub record IsSound (c : Client) : Type 0 where
  pub bounded : length c.queue ≤ max_queue
  pub real : All IsTruthy c.queue
  pub idle : c.is_open ≡ true → c.sending ≡ false → c.queue ≡ []

pub strict_equal-none : (a : Json) → strict_equal a none ≡ false
strict_equal-none (boolean true) = refl
strict_equal-none (boolean false) = refl
strict_equal-none (integer true n) = refl
strict_equal-none (integer false n) = refl
strict_equal-none (object members) = refl
strict_equal-none (array xs) = refl
strict_equal-none (text s) = refl
strict_equal-none null = refl

-- Only an object has members.
pub matches-IsTruthy : (id event : Json) → matches id event ≡ true → IsTruthy event
matches-IsTruthy id (object members) h = refl
matches-IsTruthy id (array xs) h = absurd (ground (arith, strict_equal-none id))
matches-IsTruthy id (text s) h = absurd (ground (arith, strict_equal-none id))
matches-IsTruthy id (boolean b) h = absurd (ground (arith, strict_equal-none id))
matches-IsTruthy id (integer s n) h = absurd (ground (arith, strict_equal-none id))
matches-IsTruthy id null h = absurd (ground (arith, strict_equal-none id))

-- What sending the first event of the queue makes of a client.
abbrev pub send : Client → Json → List Json → Client
send c msg rest = record c {
  queue = rest;
  sending = true;
  sent = c.sent ++ (event_message msg ∷ []);
}

-- A flush that has nothing to do, or one that sends the first event.
pub data Flushed (c : Client) : Type 0 where
  waits : flush c ≡ c → (c.is_open ≡ true → c.sending ≡ false → c.queue ≡ []) → Flushed c
  sends :
      (msg : Json) (rest : List Json)
      → c.queue ≡ msg ∷ rest
      → c.sending ≡ false
      → c.is_open ≡ true
      → flush c ≡ send c msg rest
      → Flushed c

pub flush-cases : (c : Client) → All IsTruthy c.queue → Flushed c
unfolding flush
flush-cases c real = elim (Bool-cases c.sending) [
  | inl busy ↦ waits (waits_busy busy) (ground arith)
  | inr free ↦ elim (Bool-cases c.is_open) [
    | inr down ↦ waits (waits_down down) (ground arith)
    | inl up ↦ elim (List-cases c.queue) [
      | inl nothing ↦ waits (waits_empty nothing) (λ u f. nothing)
      | inr (msg, rest, here) ↦ sends msg rest here free up (goes msg rest here free up)
    ]
  ]
]
  where
    waits_busy : c.sending ≡ true → flush c ≡ c
    waits_busy e = ground arith

    waits_down : c.is_open ≡ false → flush c ≡ c
    waits_down e = ground arith

    waits_empty : c.queue ≡ [] → flush c ≡ c
    waits_empty e = ground arith

    goes :
        (msg : Json) (rest : List Json)
        → c.queue ≡ msg ∷ rest
        → c.sending ≡ false
        → c.is_open ≡ true
        → flush c ≡ send c msg rest
    goes msg rest e free up = let t : IsTruthy msg = (subst (All IsTruthy) e real).0 in ground arith

pub flush-IsSound :
    (c : Client) → length c.queue ≤ max_queue → All IsTruthy c.queue → IsSound (flush c)
flush-IsSound c short real = elim (flush-cases c real) [
  | waits same free ↦
      subst IsSound (sym same) (record { bounded = short; real = real; idle = free })
  | sends msg rest here free up moved ↦ subst IsSound (sym moved) (record {
    bounded = (let e = ap length here in omega arith);
    real = (subst (All IsTruthy) here real).1;
    idle = (λ u f. ground arith);
  })
]

offer-IsSound : (event : Json) (c : Client) → IsSound c → IsSound (offer event c)
unfolding offer enqueue
offer-IsSound event c s = elim (Bool-cases (matches c.incident_id event)) [
  | inr other ↦ rw (other, offer) s
  | inl wanted ↦ elim (Bool-cases (leb max_queue (length c.queue))) [
    | inl full ↦
        rw (wanted, full, offer, enqueue)
          (record { bounded = omega arith; real = tt; idle = (λ u f. refl) })
    | inr room ↦
        rw (wanted, room, offer, enqueue)
          (flush-IsSound (record c { queue = c.queue ++ (event ∷ []) })
            (ground (arith, length-append c.queue (event ∷ [])))
            (All-append IsTruthy c.queue (event ∷ []) s.real
              (matches-IsTruthy c.incident_id event wanted, tt)))
  ]
]

receive-IsSound : (msg : Option Json) (c : Client) → IsSound c → IsSound (receive msg c)
unfolding receive
receive-IsSound none c s = s
receive-IsSound (some msg) c s = elim (Option-cases (subscription msg)) [
  | inl other ↦ elim (Bool-cases (is_null msg)) [
    | inl fatal ↦
        rw (receive, other, fatal)
          (record { bounded = s.bounded; real = s.real; idle = (λ u f. absurd (cc)) })
    | inr harmless ↦ rw (receive, other, harmless) s
  ]
  | inr (id, wanted) ↦
      rw (receive, wanted) (record { bounded = s.bounded; real = s.real; idle = s.idle })
]

finish_send-IsSound : (failed : Bool) (c : Client) → IsSound c → IsSound (finish_send failed c)
unfolding finish_send
finish_send-IsSound true c s = record {
  bounded = s.bounded;
  real = s.real;
  idle = (λ u f. absurd (cc));
}
finish_send-IsSound false c s = flush-IsSound (record c { sending = false }) s.bounded s.real

fetched-IsSound :
    (n : ℕ) (reply : Option Json) (c : Client) → IsSound c → IsSound (fetched n reply c)
unfolding fetched
fetched-IsSound n reply c s = elim (Option-cases (take_fetch n c.fetches)) [
  | inl missing ↦ rw (fetched, missing) s
  | inr (f, here) ↦ elim (Option-cases reply) [
    | inl failed ↦
        rw (fetched, here, failed) (record { bounded = s.bounded; real = s.real; idle = s.idle })
    | inr (incident, came) ↦
        rw (fetched, here, came) (record { bounded = s.bounded; real = s.real; idle = s.idle })
  ]
]

if-IsSound : (b : Bool) (c d : Client) → IsSound c → IsSound d → IsSound (if b then c else d)
if-IsSound true c d p q = p
if-IsSound false c d p q = q

pub react-IsSound : (c : Client) (i : Input) → IsSound c → IsSound (react c i)
unfolding react
react-IsSound c (offered event) s = offer-IsSound event c s
react-IsSound c (received msg) s = receive-IsSound msg c s
react-IsSound c (send_done failed) s =
    if-IsSound c.sending (finish_send failed c) c (finish_send-IsSound failed c s) s
react-IsSound c (answered n reply) s = fetched-IsSound n reply c s
react-IsSound c leave s = record { bounded = s.bounded; real = s.real; idle = (λ u f. absurd (cc)) }

pub run-IsSound_from : (c : Client) (is : List Input) → IsSound c → IsSound (run c is)
unfolding run
run-IsSound_from c [] s = s
run-IsSound_from c (i ∷ is) s = run-IsSound_from (react c i) is (react-IsSound c i s)

pub connected-IsSound : IsSound connected
connected-IsSound = record { bounded = omega arith; real = tt; idle = (λ u f. refl) }

-- Whatever happens to a connection after its handler ran: at most 100 events wait in its queue, none
-- of them a value that `flush` would drop, and while the socket is open and no send is under way,
-- no event waits at all.
pub run-IsSound : (is : List Input) → IsSound (run connected is)
run-IsSound is = run-IsSound_from connected is connected-IsSound
