-- ===== src/Incident/Replay.antt =====
-- services/incident: what a request writes is what the next read replays.
use mathlib.Core.List.{foldl-append}
use tactix.Common.{
  ℕ, String, ◌≡◌, ◌≢◌, ◌⊎◌, refl, some, List, [], ◌∷◌, ◌++◌, ◌==◌, eq_iff, eq_refl, arith,
  if◌then◌else◌, Option-cases, inl, inr,
}
use tactix.Json.{Json, member, string_field}
use tactix.Incident.{
  IncidentEvent, IncidentState, IncidentStatus, message_added, blank, draft, closed, created,
  create, from, add_message, submit, apply,
}
use tactix.Incident.Store.{EventStore}
use tactix.Incident.Api.{
  Answer, sent, not_found, failed, parse_create, found, post_incident, get_incident, post_message,
  post_submit,
}

pub from-append :
    (id : String) (events : List IncidentEvent) (e : IncidentEvent)
    → from id (events ++ (e ∷ [])) ≡ apply (from id events) e
unfolding from
from-append id events e = rw foldl-append

pub found-append :
    (id : String) (events : List IncidentEvent) (e : IncidentEvent)
    → found id (events ++ (e ∷ [])) ≡ some (apply (from id events) e)
found-append id [] e = rw (← from-append id [] e)
found-append id (d ∷ events) e = rw (← from-append id (d ∷ events) e)

pub found_inv :
    (id : String) (events : List IncidentEvent) (st : IncidentState)
    → found id events ≡ some st
    → st ≡ from id events
found_inv id [] st h = cc
found_inv id (e ∷ es) st h = cc

pub status-cases : (x : IncidentStatus) → x ≡ draft ⊎ x ≡ IncidentStatus.submitted ⊎ x ≡ closed
status-cases draft = inl refl
status-cases IncidentStatus.submitted = inr (inl refl)
status-cases closed = inr (inr refl)

module _ (store : EventStore) where
  open store use {Contents, append, load, load-append}

  get_incident-append :
      (s : Contents) (id other : String) (e : IncidentEvent)
      → get_incident store (append s id e) other ≡ (
          if id == other
          then sent 200 (apply (from id (load s id)) e)
          else get_incident store s other)
  unfolding get_incident
  get_incident-append s id other e =
      ground (arith, load-append s id other e, eq_iff id other, found-append id (load s id) e)

  -- What an answer says of the states before and after the request: after a success, a read of
  -- the incident gives the state that was sent, and every other incident reads as before; after an
  -- error nothing has changed.
  abbrev pub Effect : Contents → Contents → String → Answer → Type 0
  Effect s t id (sent status st) =
      (get_incident store t id ≡ sent 200 st)
      × ((other : String) → id ≢ other → get_incident store t other ≡ get_incident store s other)
  Effect s t id not_found = t ≡ s
  Effect s t id failed = t ≡ s

  -- One append, answered by the state that it leads to.
  append-Effect :
      (s : Contents) (id : String) (e : IncidentEvent) (status : ℕ) (st : IncidentState)
      → st ≡ apply (from id (load s id)) e
      → Effect s (append s id e) id (sent status st)
  append-Effect s id e status st h = (
    ground (arith, get_incident-append s id id e, eq_refl id),
    λ other ne. ground (arith, get_incident-append s id other e, eq_iff id other, ne),
  )

  -- The two ways a request can end.
  data Ends (s : Contents) (id : String) (r : Contents × Answer) : Type 0 where
    kept : r ≡ (s, not_found) ⊎ r ≡ (s, failed) → Ends s id r
    wrote :
        (e : IncidentEvent) (status : ℕ) (st : IncidentState)
        → st ≡ apply (from id (load s id)) e
        → r ≡ (append s id e, sent status st)
        → Ends s id r

  Ends-Effect :
      (s : Contents) (id : String) (r : Contents × Answer) → Ends s id r → Effect s r.0 id r.1
  Ends-Effect s id r (kept (inl e)) = rw e
  Ends-Effect s id r (kept (inr e)) = rw e
  Ends-Effect s id r (wrote ev status st h e) = rw e (append-Effect s id ev status st h)

  post_incident-Ends :
      (s : Contents) (body : Json) (id : String)
      → load s id ≡ []
      → Ends s id (post_incident store s body id)
  unfolding post_incident create from apply
  post_incident-Ends s body id fresh = elim (Option-cases (parse_create body)) [
    | inl refused ↦ kept (inr (ground arith))
    | inr ((title, description, org), parsed) ↦
        wrote (created title description org) 201
          (apply (blank id org) (created title description org)) (rw fresh) (ground arith)
  ]

  post_message-Ends :
      (s : Contents) (id : String) (body : Json) → Ends s id (post_message store s id body)
  unfolding post_message add_message
  post_message-Ends s id body = elim (Option-cases (string_field (member "message" body))) [
    | inl refused ↦ kept (inr (ground arith))
    | inr (message, parsed) ↦ elim (Option-cases (found id (load s id))) [
      | inl missing ↦ kept (inl (ground arith))
      | inr (st, here) ↦
          wrote (message_added message) 200 (apply st (message_added message))
            (rw (found_inv id (load s id) st here)) (ground arith)
    ]
  ]

  post_submit-Ends : (s : Contents) (id : String) → Ends s id (post_submit store s id)
  unfolding post_submit submit
  post_submit-Ends s id = elim (Option-cases (found id (load s id))) [
    | inl missing ↦ kept (inl (ground arith))
    | inr (st, here) ↦ elim (status-cases st.status) [
      | inl is_draft ↦
          wrote IncidentEvent.submitted 200 (apply st IncidentEvent.submitted)
            (rw (found_inv id (load s id) st here)) (ground arith)
      | inr (inl done) ↦ kept (inr (ground arith))
      | inr (inr over) ↦ kept (inr (ground arith))
    ]
  ]

  -- POST /incidents under a fresh identifier: the created incident is what the next read gives,
  -- no other incident changes, and a refused body changes nothing.
  pub post_incident-Effect :
      (s : Contents) (body : Json) (id : String)
      → load s id ≡ []
      → Effect s (post_incident store s body id).0 id (post_incident store s body id).1
  post_incident-Effect s body id fresh = Ends-Effect s id _ (post_incident-Ends s body id fresh)

  -- POST /incidents/:id/messages: the state with the message is what the next read gives, no
  -- other incident changes, and after an error (a bad body, no such incident) nothing has changed.
  pub post_message-Effect :
      (s : Contents) (id : String) (body : Json)
      → Effect s (post_message store s id body).0 id (post_message store s id body).1
  post_message-Effect s id body = Ends-Effect s id _ (post_message-Ends s id body)

  -- POST /incidents/:id/submit: the submitted state is what the next read gives, no other
  -- incident changes, and after an error (no such incident, not a draft) nothing has changed.
  pub post_submit-Effect :
      (s : Contents) (id : String)
      → Effect s (post_submit store s id).0 id (post_submit store s id).1
  post_submit-Effect s id = Ends-Effect s id _ (post_submit-Ends s id)
