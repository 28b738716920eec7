-- ===== src/Registry/Consistent.antt =====
-- services/incident-svc/src/index.ts: the variables stay consistent under every request: the counters
-- are past all numbers given out, and the incidents are what their events make of them.
use tactix.Common.{
  ℕ, String, ◌≡◌, refl, sym, ap, ◌∙◌, Option, none, some, [], ◌∷◌, eqb, if◌then◌else◌, Bool-cases,
  Option-cases, inl, inr,
}
use tactix.Json.{Json}
use tactix.Authz.{TactixUser, Flow, next, answer, require_role}
use tactix.Registry.{
  Incident, Payload, created, comment_added, status_changed, Registry, start, log, find_incident,
  new_incident, create_incident, commented, with_status, change_incident, attach, required, field,
}
use tactix.Registry.Handlers.{
  create_step, comment_step, status_step, guarded_status_step, guarded, attachment_step,
}
use tactix.Registry.Replay.{
  View, view, view_of, on_view, apply_payload, replay, replay_from, replay_from-append, on_incident,
  find-change_first, find-append_new,
}
use tactix.Registry.Numbers.{IsNumbered, IsNumbered-append, All-below, change_first-IsNumbered}

pub record IsConsistent (g : Registry) : Type 0 where
  pub events : IsNumbered (λ e. e.id) 1 g.events g.next_event_id
  pub incidents : IsNumbered (λ i. i.id) 1 g.incidents g.next_incident_id
  pub attachments : IsNumbered (λ a. a.id) 1 g.attachments g.next_attachment_id
  pub told : (id : ℕ) → view_of (find_incident id g) ≡ replay id g.events

pub start-IsConsistent : IsConsistent start
unfolding replay_from
start-IsConsistent = record {
  events = refl;
  incidents = refl;
  attachments = refl;
  told = λ id. refl;
}

-- An event may be logged on variables that show its effect.
log-IsConsistent :
    (id : ℕ) (payload : Payload) (logged : ℕ) (g : Registry)
    → IsNumbered (λ e. e.id) 1 g.events g.next_event_id
    → IsNumbered (λ i. i.id) 1 g.incidents g.next_incident_id
    → IsNumbered (λ a. a.id) 1 g.attachments g.next_attachment_id
    → ((other : ℕ)
        → view_of (find_incident other g) ≡ (
            if eqb id other
            then apply_payload payload (replay other g.events)
            else replay other g.events))
    → IsConsistent (log id payload logged g)
log-IsConsistent id payload logged g events incidents attachments told = record {
  events = IsNumbered-append (λ e. e.id) 1 g.events g.next_event_id _ events refl;
  incidents = incidents;
  attachments = attachments;
  told = λ other. told other ∙ sym (replay_from-append other g.events _ none);
}

view_of-on_incident :
    (f : Incident → Incident) (k : View → View)
    → ((i : Incident) → view (f i) ≡ k (view i))
    → (o : Option Incident) → view_of (on_incident f o) ≡ on_view k (view_of o)
view_of-on_incident f k h none = refl
view_of-on_incident f k h (some i) = ap some (h i)

-- A change of an incident, and the event that tells it.
change_incident-IsConsistent :
    (id : ℕ) (change : Incident → Incident) (k : View → View) (payload : Payload) (logged : ℕ)
    (g : Registry)
    → ((i : Incident) → (change i).id ≡ i.id)
    → ((i : Incident) → view (change i) ≡ k (view i))
    → ((v : Option View) → apply_payload payload v ≡ on_view k v)
    → IsConsistent g
    → IsConsistent (change_incident id change payload logged g)
change_incident-IsConsistent id change k payload logged g same seen told c =
    log-IsConsistent id payload logged _ c.events
      (change_first-IsNumbered id change same 1 g.incidents g.next_incident_id c.incidents)
      c.attachments
      λ other.
        ap view_of (find-change_first id other change same g.incidents)
        ∙ elim (Bool-cases (eqb id other)) [
          | inl hit ↦ rw hit (
              view_of-on_incident change k seen (find_incident other g)
              ∙ (ap (on_view k) (c.told other) ∙ sym (told (replay other g.events))))
          | inr miss ↦ rw miss (c.told other)
        ]

create_incident-IsConsistent :
    (title severity : Json) (description : Option Json) (at logged : ℕ) (g : Registry)
    → IsConsistent g
    → IsConsistent (create_incident title severity description at logged g)
create_incident-IsConsistent title severity description at logged g c =
    let new = new_incident g title severity description at in
    let below = All-below (λ i. i.id) 1 g.incidents g.next_incident_id c.incidents in
    log-IsConsistent g.next_incident_id (created title severity description) logged _ c.events
      (IsNumbered-append (λ i. i.id) 1 g.incidents g.next_incident_id new c.incidents refl)
      c.attachments
      λ other.
        ap view_of (find-append_new other g.incidents new below)
        ∙ elim (Bool-cases (eqb g.next_incident_id other)) [
          | inl hit ↦ rw hit refl
          | inr miss ↦ rw miss (c.told other)
        ]

attach-IsConsistent :
    (id : ℕ) (object_name filename content : String) (at logged : ℕ) (g : Registry)
    → IsConsistent g
    → IsConsistent (attach id object_name filename content at logged g)
attach-IsConsistent id object_name filename content at logged g c =
    log-IsConsistent id _ logged _ c.events c.incidents
      (IsNumbered-append (λ a. a.id) 1 g.attachments g.next_attachment_id _ c.attachments refl)
      λ other.
        c.told other
        ∙ elim (Bool-cases (eqb id other)) [ inl hit ↦ rw hit refl | inr miss ↦ rw miss refl ]

-- What the requests do to the variables.
pub create_step-IsConsistent :
    (at logged : ℕ) (body : Option Json) (g : Registry)
    → IsConsistent g
    → IsConsistent (create_step at logged body g).1
unfolding create_step
create_step-IsConsistent at logged body g c = elim (Option-cases (required "title" body)) [
  | inl no_title ↦ rw (create_step, no_title) c
  | inr (title, titled) ↦ elim (Option-cases (required "severity" body)) [
    | inl no_severity ↦ rw (create_step, titled, no_severity) c
    | inr (severity, rated) ↦
        rw (create_step, titled, rated)
          (create_incident-IsConsistent title severity (field "description" body) at logged g c)
  ]
]

pub comment_step-IsConsistent :
    (logged id : ℕ) (body : Option Json) (g : Registry)
    → IsConsistent g
    → IsConsistent (comment_step logged id body g).1
unfolding comment_step
comment_step-IsConsistent logged id body g c = elim (Option-cases (required "comment" body)) [
  | inl no_comment ↦ rw (comment_step, no_comment) c
  | inr (comment, there) ↦ elim (Option-cases (find_incident id g)) [
    | inl missing ↦ rw (comment_step, there, missing) c
    | inr (i, found) ↦
        rw (comment_step, there, found)
          (change_incident-IsConsistent id (commented comment) _ (comment_added comment) logged g
            (λ i. refl) (λ i. refl) (λ v. refl) c)
  ]
]

status_step-IsConsistent :
    (logged id : ℕ) (body : Option Json) (g : Registry)
    → IsConsistent g
    → IsConsistent (status_step logged id body g).1
unfolding status_step
status_step-IsConsistent logged id body g c = elim (Option-cases (required "status" body)) [
  | inl no_status ↦ rw (status_step, no_status) c
  | inr (status, there) ↦ elim (Option-cases (find_incident id g)) [
    | inl missing ↦ rw (status_step, there, missing) c
    | inr (i, found) ↦
        rw (status_step, there, found)
          (change_incident-IsConsistent id (with_status status) _ (status_changed status) logged g
            (λ i. refl) (λ i. refl) (λ v. refl) c)
  ]
]

pub guarded_status_step-IsConsistent :
    (user : Option TactixUser) (logged id : ℕ) (body : Option Json) (g : Registry)
    → IsConsistent g
    → IsConsistent (guarded_status_step user logged id body g).1
unfolding guarded_status_step
guarded_status_step-IsConsistent user logged id body g c =
    go (require_role ("dispatcher" ∷ []) user)
  where
    go : (f : Flow TactixUser) → IsConsistent (guarded f logged id body g).1
    go (next u) = status_step-IsConsistent logged id body g c
    go (answer status error) = c

pub attachment_step-IsConsistent :
    (at logged id : ℕ) (file : Option (String × String)) (object_name : String) (g : Registry)
    → IsConsistent g
    → IsConsistent (attachment_step at logged id file object_name g).1
unfolding attachment_step
attachment_step-IsConsistent at logged id none object_name g c =
    elim (Option-cases (find_incident id g)) [
      | inl missing ↦ rw (attachment_step, missing) c
      | inr (i, found) ↦ rw (attachment_step, found) c
    ]
attachment_step-IsConsistent at logged id (some (filename, content)) object_name g c =
    elim (Option-cases (find_incident id g)) [
      | inl missing ↦ rw (attachment_step, missing) c
      | inr (i, found) ↦
          rw (attachment_step, found)
            (attach-IsConsistent id object_name filename content at logged g c)
    ]
