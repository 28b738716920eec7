-- ===== src/Realtime/Carried.antt =====
-- services/realtime-svc/index.js: what a client is due, and what one input adds to what it was sent.
use mathlib.Core.List.{append_assoc, append-nil}
use tactix.Common.{
  ℕ, ◌≤◌, ◌≡◌, refl, sym, ap, ◌∙◌, Bool, true, false, Option, none, some, List, [], ◌∷◌, ◌++◌,
  length, arith, All, All-append, if◌then◌else◌, leb, Bool-cases, Option-cases, inl, inr,
}
use tactix.Json.{Json}
use tactix.Realtime.{
  Client, Input, offered, received, send_done, answered, leave, Sent, matches, max_queue, flush,
  enqueue, offer, receive, finish_send, fetched, react, take_fetch, subscription, event_message,
  snapshot,
}
use tactix.Realtime.Queue.{IsSound, IsTruthy, matches-IsTruthy, waits, sends, flush-cases}

-- The events among what was sent, in order.
unfoldable pub events : List Sent → List Json
events [] = []
events (event_message e ∷ rest) = e ∷ events rest
events (snapshot incident seq ∷ rest) = events rest

-- The subscription that a client has after an input.
unfoldable pub subscribed : Json → Input → Json
subscribed id (received (some msg)) = elim (subscription msg) [ none ↦ id | some new ↦ new ]
subscribed id (received none) = id
subscribed id (offered event) = id
subscribed id (send_done failed) = id
subscribed id (answered n reply) = id
subscribed id leave = id

-- The event that an input makes due: one that matches the subscription when it is broadcast.
unfoldable pub due_now : Json → Input → List Json
due_now id (offered event) = if matches id event then event ∷ [] else []
due_now id (received msg) = []
due_now id (send_done failed) = []
due_now id (answered n reply) = []
due_now id leave = []

unfoldable pub due : Json → List Input → List Json
unfolding subscribed due_now
due id [] = []
due id (i ∷ is) = due_now id i ++ due (subscribed id i) is

-- What was sent, and then what waits.
unfoldable pub carried : Client → List Json
unfolding events
carried c = events c.sent ++ c.queue

pub events-append : (xs ys : List Sent) → events (xs ++ ys) ≡ events xs ++ events ys
unfolding events
events-append [] ys = refl
events-append (event_message e ∷ rest) ys = ap (◌∷◌ e) (events-append rest ys)
events-append (snapshot incident seq ∷ rest) ys = events-append rest ys

flush-carried : (c : Client) → All IsTruthy c.queue → carried (flush c) ≡ carried c
unfolding carried events
flush-carried c real = elim (flush-cases c real) [
  | waits same free ↦ ap carried same
  | sends msg rest here free up moved ↦
      ap carried moved
      ∙ ap (λ l. l ++ rest) (events-append c.sent (event_message msg ∷ []))
      ∙ append_assoc (events c.sent) (msg ∷ []) rest
      ∙ ap (λ l. events c.sent ++ l) (sym here)
]

-- An input adds what it makes due, or it meets a full queue and clears it.
pub data Carries (c : Client) (i : Input) : Type 0 where
  adds : carried (react c i) ≡ carried c ++ due_now c.incident_id i → Carries c i
  clears :
      (event : Json)
      → i ≡ offered event
      → max_queue ≤ length c.queue
      → carried (react c i) ≡ events c.sent
      → due_now c.incident_id i ≡ event ∷ []
      → Carries c i

keeps :
    (c : Client) (i : Input)
    → carried (react c i) ≡ carried c
    → due_now c.incident_id i ≡ []
    → Carries c i
keeps c i same nothing =
    adds (same ∙ sym (append-nil (carried c)) ∙ ap (λ l. carried c ++ l) (sym nothing))

offered-Carries : (c : Client) (event : Json) → IsSound c → Carries c (offered event)
unfolding react offer enqueue due_now carried
offered-Carries c event s = elim (Bool-cases (matches c.incident_id event)) [
  | inr other ↦ keeps c (offered event) (rw (react, offer, other) refl) (rw (due_now, other) refl)
  | inl wanted ↦ elim (Bool-cases (leb max_queue (length c.queue))) [
    | inl full ↦
        clears event refl (ground arith)
          (rw (react, offer, wanted, enqueue, full, carried) (append-nil (events c.sent)))
          (rw (due_now, wanted) refl)
    | inr room ↦ adds (
        rw (react, offer, wanted, enqueue, room, due_now)
          (flush-carried (record c { queue = c.queue ++ (event ∷ []) })
              (All-append IsTruthy c.queue (event ∷ []) s.real
                (matches-IsTruthy c.incident_id event wanted, tt))
            ∙ sym (append_assoc (events c.sent) c.queue (event ∷ []))))
  ]
]

received-Carries : (c : Client) (msg : Option Json) → Carries c (received msg)
unfolding react receive due_now carried
received-Carries c none = keeps c (received none) refl refl
received-Carries c (some msg) = elim (Option-cases (subscription msg)) [
  | inl other ↦ keeps c (received (some msg)) (ground arith) refl
  | inr (id, wanted) ↦ keeps c (received (some msg)) (rw (react, receive, wanted) refl) refl
]

send_done-Carries : (c : Client) (failed : Bool) → IsSound c → Carries c (send_done failed)
unfolding react finish_send due_now carried
send_done-Carries c true s = keeps c (send_done true) (ground arith) refl
send_done-Carries c false s =
    keeps c (send_done false) (ground (arith, flush-carried (record c { sending = false }) s.real))
      refl

answered-Carries : (c : Client) (n : ℕ) (reply : Option Json) → Carries c (answered n reply)
unfolding react fetched due_now carried events
answered-Carries c n reply = elim (Option-cases (take_fetch n c.fetches)) [
  | inl missing ↦ keeps c (answered n reply) (rw (react, fetched, missing) refl) refl
  | inr (f, here) ↦ elim (Option-cases reply) [
    | inl failed ↦ keeps c (answered n reply) (rw (react, fetched, here, failed) refl) refl
    | inr (incident, came) ↦
        keeps c (answered n reply)
          (rw (react, fetched, here, came)
            (ap (λ l. l ++ c.queue)
              (events-append c.sent (snapshot incident f.0.seq ∷ []) ∙ append-nil (events c.sent))))
          refl
  ]
]

leave-Carries : (c : Client) → Carries c leave
unfolding react due_now carried
leave-Carries c = keeps c leave refl refl

pub react-Carries : (c : Client) (i : Input) → IsSound c → Carries c i
react-Carries c (offered event) s = offered-Carries c event s
react-Carries c (received msg) s = received-Carries c msg
react-Carries c (send_done failed) s = send_done-Carries c failed s
react-Carries c (answered n reply) s = answered-Carries c n reply
react-Carries c leave s = leave-Carries c

pub react-subscribed :
    (c : Client) (i : Input) → (react c i).incident_id ≡ subscribed c.incident_id i
unfolding react subscribed offer enqueue flush receive finish_send fetched
react-subscribed c (offered event) = ground arith
react-subscribed c (received none) = refl
react-subscribed c (received (some msg)) = ground arith
react-subscribed c (send_done true) = ground arith
react-subscribed c (send_done false) = ground arith
react-subscribed c (answered n reply) = ground arith
react-subscribed c leave = refl
