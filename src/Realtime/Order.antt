-- ===== src/Realtime/Order.antt =====
-- services/realtime-svc/index.js: what a client is sent, against the events that it is due.
use mathlib.Core.Path.{subst}
use mathlib.Core.List
use mathlib.Core.List.{Sublist, append_assoc, append-nil, sublist-append_right}
use tactix.Common.{◌+◌, ◌≤◌, ◌≡◌, sym, ap, ◌∙◌, List, [], ◌∷◌, ◌++◌, length, length-append, arith}
use tactix.Json.{Json}
use tactix.Realtime.{Client, Input, max_queue, connected, react, run}
use tactix.Realtime.Carried.{
  events, due, due_now, subscribed, carried, adds, clears, react-Carries, react-subscribed,
}
use tactix.Realtime.Queue.{IsSound, react-IsSound, connected-IsSound}

Sublist-left : (xs : List Json) {ys zs : List Json} → Sublist ys zs → Sublist (xs ++ ys) (xs ++ zs)
Sublist-left [] h = h
Sublist-left (x ∷ xs) h = List.Sublist.cons-cons x (Sublist-left xs h)

run-due_from :
    (c : Client) (is : List Input)
    → IsSound c
    → Sublist (carried (run c is)) (carried c ++ due c.incident_id is)
unfolding run due carried events
run-due_from c [] s =
    subst (Sublist (carried c)) (sym (append-nil (carried c))) (List.Sublist.refl (carried c))
run-due_from c (i ∷ is) s =
    let rest = due (subscribed c.incident_id i) is in
    let ih : Sublist (carried (run (react c i) is)) (carried (react c i) ++ rest) =
      subst (λ id. Sublist (carried (run (react c i) is)) (carried (react c i) ++ due id is))
        (react-subscribed c i) (run-due_from (react c i) is (react-IsSound c i s)) in
    elim (react-Carries c i s) [
      | adds e ↦
          subst (Sublist (carried (run (react c i) is)))
            (ap (λ l. l ++ rest) e ∙ append_assoc (carried c) (due_now c.incident_id i) rest) ih
      | clears event here full e now ↦ List.Sublist.trans ih (
          subst (λ l. Sublist (l ++ rest) (carried c ++ (due_now c.incident_id i ++ rest))) (sym e)
            (subst (λ l. Sublist (events c.sent ++ rest) l)
              (sym (append_assoc (events c.sent) c.queue (due_now c.incident_id i ++ rest)))
              (Sublist-left (events c.sent) (
                List.Sublist.trans (sublist-append_right (due_now c.incident_id i) rest)
                  (sublist-append_right c.queue (due_now c.incident_id i ++ rest))))))
    ]

-- Whatever happens to a connection: the events that were sent to it and, after them, those that
-- wait, are events that it was due, those that matched its subscription of the moment, in the
-- order of their broadcast, none of them twice and none from elsewhere.
pub run-due :
    (is : List Input) → Sublist (carried (run connected is)) (due connected.incident_id is)
unfolding due carried events
run-due is = run-due_from connected is connected-IsSound

length-carried : (c : Client) → length c.queue ≤ length (carried c)
unfolding carried
length-carried c = omega (arith, length-append (events c.sent) c.queue)

run-due_short_from :
    (c : Client) (is : List Input)
    → IsSound c
    → length (carried c) + length (due c.incident_id is) ≤ max_queue
    → carried (run c is) ≡ carried c ++ due c.incident_id is
unfolding run due
run-due_short_from c [] s h = sym (append-nil (carried c))
run-due_short_from c (i ∷ is) s h =
    let now = due_now c.incident_id i in
    let rest = due (subscribed c.incident_id i) is in
    elim (react-Carries c i s) [
      | clears event here full e one ↦
          absurd (omega (arith, ap length one, length-append now rest, length-carried c))
      | adds e ↦
          let same = react-subscribed c i in
          let short : length (carried (react c i)) + length (due (react c i).incident_id is)
              ≤ max_queue =
            rw (e, same) (omega (arith, length-append (carried c) now, length-append now rest)) in
          run-due_short_from (react c i) is (react-IsSound c i s) short
          ∙ ap (λ id. carried (react c i) ++ due id is) same
          ∙ ap (λ l. l ++ rest) e
          ∙ append_assoc (carried c) now rest
    ]

-- While no more than 100 events are due to a connection, none of them is lost: those that were sent
-- and then those that wait are exactly the events that it was due, in their order.
pub run-due_short :
    (is : List Input)
    → length (due connected.incident_id is) ≤ max_queue
    → carried (run connected is) ≡ due connected.incident_id is
unfolding carried events
run-due_short is h = run-due_short_from connected is connected-IsSound (omega (arith, h))
