-- ===== src/Realtime/Drain.antt =====
-- services/realtime-svc/index.js: the callbacks of `ws.send` bring a queue to its client.
use mathlib.Core.List.{append_assoc, append-nil}
use tactix.Common.{
  ℕ, zero, suc, ◌≡◌, refl, sym, ap, ◌∙◌, true, false, List, [], ◌∷◌, ◌++◌, map, arith, Bool, length,
  All, Bool-cases, inl, inr, some,
}
use tactix.Json.{Json, truthy}
use tactix.Realtime.{
  Client, connected, Input, send_done, Sent, flush, finish_send, react, run, event_message,
}
use tactix.Realtime.Queue.{IsSound, IsTruthy, run-IsSound}

-- As many callbacks without an error.
abbrev pub callbacks : ℕ → List Input
callbacks zero = []
callbacks (suc n) = send_done false ∷ callbacks n

-- A client whose socket is open while one send is under way.
abbrev sending_with : Client → List Json → List Sent → Client
sending_with c q sent = record c { queue = q; sending = true; is_open = true; sent = sent }

drain_from :
    (c : Client) (q : List Json) (sent : List Sent)
    → All IsTruthy q
    → run (sending_with c q sent) (callbacks (suc (length q)))
      ≡ record c { queue = []; sending = false; is_open = true; sent = sent ++ map event_message q }
unfolding run react finish_send flush
drain_from c [] sent real =
    ap (λ l. record c { queue = []; sending = false; is_open = true; sent = l })
      (sym (append-nil sent))
drain_from c (x ∷ q) sent (real, reals) =
    let next = sent ++ (event_message x ∷ []) in
    ap (λ d. run d (callbacks (suc (length q)))) (step real)
    ∙ drain_from c q next reals
    ∙ ap (λ l. record c { queue = []; sending = false; is_open = true; sent = l })
        (append_assoc sent (event_message x ∷ []) (map event_message q))
  where
    step :
        truthy (some x) ≡ true
        → react (sending_with c (x ∷ q) sent) (send_done false)
          ≡ sending_with c q (sent ++ (event_message x ∷ []))
    step real = rw (react, finish_send, flush, real) refl

idle_callbacks : (c : Client) (n : ℕ) → c.sending ≡ false → run c (callbacks n) ≡ c
unfolding run react
idle_callbacks c zero free = refl
idle_callbacks c (suc n) free = ap (λ d. run d (callbacks n)) (stays free) ∙ idle_callbacks c n free
  where
    stays : c.sending ≡ false → react c (send_done false) ≡ c
    stays free = ground (arith, free)

drain_open :
    (c : Client)
    → IsSound c
    → c.is_open ≡ true
    → run c (callbacks (suc (length c.queue)))
      ≡ record c { queue = []; sending = false; sent = c.sent ++ map event_message c.queue }
drain_open c s up = elim (Bool-cases c.sending) [
  | inl busy ↦
      ap (λ d. run d (callbacks (suc (length c.queue))))
        (λ i. record c { sending = busy i; is_open = up i })
      ∙ drain_from c c.queue c.sent s.real
      ∙ sym (λ i. record (drained false) { is_open = up i })
  | inr free ↦
      let e = s.idle up free in
      let p : c.sent ≡ c.sent ++ map event_message c.queue =
        sym (append-nil c.sent) ∙ ap (λ q. c.sent ++ map event_message q) (sym e) in
      idle_callbacks c (suc (length c.queue)) free
      ∙ (λ i. record c { queue = e i; sending = free i; sent = p i })
]
  where
    drained : Bool → Client
    drained b = record c { queue = []; sending = b; sent = c.sent ++ map event_message c.queue }

-- Whatever happened to a connection before: while its socket is open, one callback without an error
-- more than its queue is long sends everything that waits, in its order, and leaves nothing waiting
-- and nothing under way.
pub run-callbacks :
    (is : List Input)
    → (run connected is).is_open ≡ true
    → let c = run connected is in
      run c (callbacks (suc (length c.queue)))
      ≡ record c { queue = []; sending = false; sent = c.sent ++ map event_message c.queue }
run-callbacks is up = drain_open (run connected is) (run-IsSound is) up
