-- ===== src/Incident/Once.antt =====
-- services/incident: a submitted incident stays submitted, whatever requests follow.
use tactix.Common.{
  String, ◌≡◌, ◌≢◌, refl, sym, ◌∙◌, ap, some, List, [], ◌∷◌, ◌++◌, ◌==◌, eq_iff, arith,
  Option-cases, inl, inr, Bool-cases,
}
use tactix.Json.{Json, member, string_field}
use tactix.Incident.{
  IncidentEvent, IncidentStatus, message_added, created, create, from, add_message, submit, apply,
}
use tactix.Incident.Store.{EventStore}
use tactix.Incident.Api.{failed, parse_create, found, post_incident, post_message, post_submit}
use tactix.Incident.Replay.{from-append, status-cases}
use tactix.Incident.History.{Step, creating, adding, submitting, Reach, here, next}

-- The log is there, and replays to a submitted incident.
pub record IsSubmitted (id : String) (es : List IncidentEvent) : Type 0 where
  pub nonempty : es ≢ []
  pub status : (from id es).status ≡ IncidentStatus.submitted

IsSubmitted-append :
    (id : String) (es : List IncidentEvent) (e : IncidentEvent)
    → IsSubmitted id es
    → (apply (from id es) e).status ≡ IncidentStatus.submitted
    → IsSubmitted id (es ++ (e ∷ []))
IsSubmitted-append id [] e h k = absurd (h.nonempty refl)
IsSubmitted-append id (d ∷ es) e h k = record { nonempty = λ p. cc; status = rw from-append k }

found_of_nonempty :
    (id : String) (es : List IncidentEvent) → es ≢ [] → found id es ≡ some (from id es)
found_of_nonempty id [] h = absurd (h refl)
found_of_nonempty id (e ∷ es) h = refl

module _ (store : EventStore) where
  open store use {Contents, append, load, load-append}

  append-IsSubmitted :
      (s : Contents) (id other : String) (e : IncidentEvent)
      → IsSubmitted id (load s id)
      → (other ≡ id → (apply (from id (load s id)) e).status ≡ IncidentStatus.submitted)
      → IsSubmitted id (load (append s other e) id)
  append-IsSubmitted s id other e h k = elim (Bool-cases (other == id)) [
    | inl same ↦
        let p : other ≡ id = (eq_iff other id).0 same in
        rw (load-append s other id e, same, p) (IsSubmitted-append id (load s id) e h (k p))
    | inr differs ↦ rw (load-append s other id e, differs) h
  ]

  post_incident-IsSubmitted :
      (s : Contents) (id : String) (body : Json) (fresh_id : String)
      → load s fresh_id ≡ []
      → IsSubmitted id (load s id)
      → IsSubmitted id (load (post_incident store s body fresh_id).0 id)
  unfolding post_incident create
  post_incident-IsSubmitted s id body fresh_id fresh h = elim (Option-cases (parse_create body)) [
    | inl refused ↦ rw (refused, post_incident) h
    | inr ((title, description, org), parsed) ↦
        rw (parsed, post_incident)
          (append-IsSubmitted s id fresh_id (created title description org) h
            (λ p. absurd (h.nonempty (ap load_at (sym p) ∙ fresh))))
  ]
    where
      load_at : String → List IncidentEvent
      load_at j = load s j

  post_message-IsSubmitted :
      (s : Contents) (id other : String) (body : Json)
      → IsSubmitted id (load s id)
      → IsSubmitted id (load (post_message store s other body).0 id)
  unfolding post_message add_message apply
  post_message-IsSubmitted s id other body h =
      elim (Option-cases (string_field (member "message" body))) [
        | inl refused ↦ rw (refused, post_message) h
        | inr (message, parsed) ↦ elim (Option-cases (found other (load s other))) [
          | inl missing ↦ rw (parsed, missing, post_message) h
          | inr (st, there) ↦
              rw (parsed, there, post_message)
                (append-IsSubmitted s id other (message_added message) h (λ p. h.status))
        ]
      ]

  post_submit-IsSubmitted :
      (s : Contents) (id other : String)
      → IsSubmitted id (load s id)
      → IsSubmitted id (load (post_submit store s other).0 id)
  unfolding post_submit submit apply
  post_submit-IsSubmitted s id other h = elim (Option-cases (found other (load s other))) [
    | inl missing ↦ rw (missing, post_submit) h
    | inr (st, there) ↦ elim (status-cases st.status) [
      | inl is_draft ↦
          rw (there, is_draft, post_submit, submit)
            (append-IsSubmitted s id other IncidentEvent.submitted h (λ p. refl))
      | inr (inl done) ↦ rw (there, done, post_submit, submit) h
      | inr (inr over) ↦ rw (there, over, post_submit, submit) h
    ]
  ]

  Step-IsSubmitted :
      (id : String) {s t : Contents}
      → Step store s t
      → IsSubmitted id (load s id)
      → IsSubmitted id (load t id)
  Step-IsSubmitted id {s} (creating body j fresh) h = post_incident-IsSubmitted s id body j fresh h
  Step-IsSubmitted id {s} (adding j body) h = post_message-IsSubmitted s id j body h
  Step-IsSubmitted id {s} (submitting j) h = post_submit-IsSubmitted s id j h

  Reach-IsSubmitted :
      (id : String) {s t : Contents}
      → IsSubmitted id (load s id)
      → Reach store s t
      → IsSubmitted id (load t id)
  Reach-IsSubmitted id h here = h
  Reach-IsSubmitted id h (next r st) = Step-IsSubmitted id st (Reach-IsSubmitted id h r)

  submit-failed :
      (s : Contents) (id : String)
      → IsSubmitted id (load s id)
      → post_submit store s id ≡ (s, failed)
  unfolding post_submit submit
  submit-failed s id h = ground (arith, found_of_nonempty id (load s id) h.nonempty, h.status)

  -- Once an incident is submitted, every later attempt to submit it fails and changes nothing,
  -- whatever requests came in between.
  pub submitted_forever :
      (id : String) {s t : Contents}
      → IsSubmitted id (load s id)
      → Reach store s t
      → post_submit store t id ≡ (t, failed)
  submitted_forever id {t} h r = submit-failed t id (Reach-IsSubmitted id h r)
