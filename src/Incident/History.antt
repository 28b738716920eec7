-- ===== src/Incident/History.antt =====
-- services/incident: the logs that the API can write. An incident is created once, is submitted at
-- most once, and stays submitted.
use mathlib.Core.Path.{subst}
use tactix.Common.{
  ℕ, suc, ◌+◌, ◌≤◌, String, ◌≡◌, refl, some, List, [], ◌∷◌, ◌++◌, ◌==◌, eq_iff, arith,
  if◌then◌else◌, eqb, Option-cases, inl, inr, Bool-cases,
}
use tactix.Json.{Json, member, string_field}
use tactix.Incident.{
  IncidentEvent, IncidentState, IncidentStatus, message_added, draft, created, updated, create,
  from, add_message, submit, apply,
}
use tactix.Incident.Store.{EventStore}
use tactix.Incident.Api.{parse_create, found, post_incident, post_message, post_submit}
use tactix.Incident.Replay.{from-append, found_inv, status-cases}

abbrev pub creations : List IncidentEvent → ℕ
creations [] = 0
creations (created t d o ∷ es) = suc (creations es)
creations (_ ∷ es) = creations es

abbrev pub submissions : List IncidentEvent → ℕ
submissions [] = 0
submissions (IncidentEvent.submitted ∷ es) = suc (submissions es)
submissions (_ ∷ es) = submissions es

creations-append :
    (es : List IncidentEvent) (e : IncidentEvent)
    → creations (es ++ (e ∷ [])) ≡ creations es + creations (e ∷ [])
creations-append [] e = omega arith
creations-append (created t d o ∷ es) e = omega (arith, creations-append es e)
creations-append (updated t d ∷ es) e = creations-append es e
creations-append (IncidentEvent.submitted ∷ es) e = creations-append es e
creations-append (message_added m ∷ es) e = creations-append es e

submissions-append :
    (es : List IncidentEvent) (e : IncidentEvent)
    → submissions (es ++ (e ∷ [])) ≡ submissions es + submissions (e ∷ [])
submissions-append [] e = omega arith
submissions-append (IncidentEvent.submitted ∷ es) e = omega (arith, submissions-append es e)
submissions-append (updated t d ∷ es) e = submissions-append es e
submissions-append (created t d o ∷ es) e = submissions-append es e
submissions-append (message_added m ∷ es) e = submissions-append es e

-- A log that holds one creation and at most one submission, and that replays to a submitted
-- incident exactly when the submission is there; or an empty log.
pub record IsLog (id : String) (es : List IncidentEvent) : Type 0 where
  pub created_once : creations es ≡ 1
  pub submitted_once : submissions es ≤ 1
  pub status :
      (from id es).status ≡ (if eqb (submissions es) 0 then draft else IncidentStatus.submitted)

abbrev pub IsHistory : String → List IncidentEvent → Type 0
IsHistory id [] = Unit
IsHistory id (e ∷ es) = IsLog id (e ∷ es)

IsLog-created : (id t d o : String) → IsLog id (created t d o ∷ [])
unfolding from apply
IsLog-created id t d o = record { created_once = refl; submitted_once = omega arith; status = refl }

IsLog-message :
    (id m : String) (es : List IncidentEvent)
    → IsLog id es
    → IsLog id (es ++ (message_added m ∷ []))
unfolding apply
IsLog-message id m es h = record {
  created_once = ground (arith, creations-append es (message_added m), h.created_once);
  submitted_once = ground (arith, submissions-append es (message_added m), h.submitted_once);
  status = rw from-append (ground (arith, submissions-append es (message_added m), h.status));
}

IsLog-submit :
    (id : String) (es : List IncidentEvent)
    → IsLog id es
    → (from id es).status ≡ draft
    → IsLog id (es ++ (IncidentEvent.submitted ∷ []))
unfolding apply
IsLog-submit id es h is_draft =
    let e = IncidentEvent.submitted in
    let none_yet : submissions es ≡ 0 = ground (arith, h.status, is_draft) in
    record {
      created_once = ground (arith, creations-append es e, h.created_once);
      submitted_once = ground (arith, submissions-append es e, none_yet);
      status = rw from-append (ground (arith, submissions-append es e, none_yet));
    }

IsHistory-of_IsLog : (id : String) (es : List IncidentEvent) → IsLog id es → IsHistory id es
IsHistory-of_IsLog id [] h = tt
IsHistory-of_IsLog id (e ∷ es) h = h

-- A found incident has a log.
IsLog-of_found :
    (id : String) (es : List IncidentEvent) (st : IncidentState)
    → found id es ≡ some st
    → IsHistory id es
    → IsLog id es
IsLog-of_found id [] st here h = cc
IsLog-of_found id (e ∷ es) st here h = h

module _ (store : EventStore) where
  open store use {Contents, append, load, load-append}

  -- Every log of the store is one that the API can have written.
  abbrev pub IsValid : Contents → Type 0
  IsValid s = (id : String) → IsHistory id (load s id)

  -- The requests that write; an identifier that is drawn has not been used.
  pub data Step (s : Contents) : Contents → Type 0 where
    creating :
        (body : Json) (id : String) → load s id ≡ [] → Step s (post_incident store s body id).0
    adding : (id : String) (body : Json) → Step s (post_message store s id body).0
    submitting : (id : String) → Step s (post_submit store s id).0

  pub data Reach (s : Contents) : Contents → Type 0 where
    here : Reach s s
    next : {t u : Contents} → Reach s t → Step t u → Reach s u

  append-IsValid :
      (s : Contents) (id : String) (e : IncidentEvent)
      → IsValid s
      → IsLog id (load s id ++ (e ∷ []))
      → IsValid (append s id e)
  append-IsValid s id e v h other = elim (Bool-cases (id == other)) [
    | inl same ↦
        rw (load-append s id other e, same)
          (subst (λ j. IsHistory j (load s id ++ (e ∷ []))) ((eq_iff id other).0 same)
            (IsHistory-of_IsLog id (load s id ++ (e ∷ [])) h))
    | inr differs ↦ rw (load-append s id other e, differs) (v other)
  ]

  post_incident-IsValid :
      (s : Contents) (body : Json) (id : String)
      → load s id ≡ []
      → IsValid s
      → IsValid (post_incident store s body id).0
  unfolding post_incident create
  post_incident-IsValid s body id fresh v = elim (Option-cases (parse_create body)) [
    | inl refused ↦ rw (refused, post_incident) v
    | inr ((title, description, org), parsed) ↦
        rw (parsed, post_incident)
          (append-IsValid s id (created title description org) v
            (rw fresh (IsLog-created id title description org)))
  ]

  post_message-IsValid :
      (s : Contents) (id : String) (body : Json)
      → IsValid s
      → IsValid (post_message store s id body).0
  unfolding post_message add_message
  post_message-IsValid s id body v = elim (Option-cases (string_field (member "message" body))) [
    | inl refused ↦ rw (refused, post_message) v
    | inr (message, parsed) ↦ elim (Option-cases (found id (load s id))) [
      | inl missing ↦ rw (parsed, missing, post_message) v
      | inr (st, there) ↦
          rw (parsed, there, post_message)
            (append-IsValid s id (message_added message) v (
              IsLog-message id message (load s id) (IsLog-of_found id (load s id) st there (v id))))
    ]
  ]

  post_submit-IsValid :
      (s : Contents) (id : String) → IsValid s → IsValid (post_submit store s id).0
  unfolding post_submit submit
  post_submit-IsValid s id v = elim (Option-cases (found id (load s id))) [
    | inl missing ↦ rw (missing, post_submit) v
    | inr (st, there) ↦ elim (status-cases st.status) [
      | inl is_draft ↦
          let e : st ≡ from id (load s id) = found_inv id (load s id) st there in
          rw (there, is_draft, post_submit, submit)
            (append-IsValid s id IncidentEvent.submitted v (
              IsLog-submit id (load s id) (IsLog-of_found id (load s id) st there (v id))
                (rw (← e) is_draft)))
      | inr (inl done) ↦ rw (there, done, post_submit, submit) v
      | inr (inr over) ↦ rw (there, over, post_submit, submit) v
    ]
  ]

  Step-IsValid : {s t : Contents} → Step s t → IsValid s → IsValid t
  Step-IsValid {s} (creating body id fresh) v = post_incident-IsValid s body id fresh v
  Step-IsValid {s} (adding id body) v = post_message-IsValid s id body v
  Step-IsValid {s} (submitting id) v = post_submit-IsValid s id v

  -- After any requests, every log holds one creation and at most one submission (or nothing), and
  -- replays to a submitted incident exactly when the submission is there, if it was so before.
  pub Reach-IsValid : {s t : Contents} → IsValid s → Reach s t → IsValid t
  Reach-IsValid v here = v
  Reach-IsValid v (next r st) = Step-IsValid st (Reach-IsValid v r)
