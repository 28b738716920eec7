-- ===== src/Registry/Replay.antt =====
-- services/incident-svc/src/index.ts: an incident as its events tell it.
use tactix.Common.{
  ℕ, ◌<◌, ◌≡◌, refl, Option, none, some, List, [], ◌∷◌, ◌++◌, find, eqb, All, arith, if◌then◌else◌,
}
use tactix.Json.{Json, text}
use tactix.Registry.{
  Incident, Payload, created, comment_added, status_changed, attachment_added, IncidentEvent,
  change_first, or_null,
}

-- An incident without its number and its time.
pub record View : Type 0 where
  pub title : Json
  pub description : Json
  pub severity : Json
  pub status : Json
  pub comments : List Json

abbrev pub view : Incident → View
view i = record {
  title = i.title;
  description = i.description;
  severity = i.severity;
  status = i.status;
  comments = i.comments;
}

abbrev pub view_of : Option Incident → Option View
view_of none = none
view_of (some i) = some (view i)

abbrev pub on_view : (View → View) → Option View → Option View
on_view f none = none
on_view f (some v) = some (f v)

abbrev pub apply_payload : Payload → Option View → Option View
apply_payload (created title severity description) v = some (record {
  title = title;
  description = or_null description;
  severity = severity;
  status = text "open";
  comments = [];
})
apply_payload (comment_added c) v = on_view (λ x. record x { comments = x.comments ++ (c ∷ []) }) v
apply_payload (status_changed s) v = on_view (λ x. record x { status = s }) v
apply_payload (attachment_added a object_name filename) v = v

abbrev pub apply_event : ℕ → IncidentEvent → Option View → Option View
apply_event id e v = if eqb e.incident_id id then apply_payload e.payload v else v

unfoldable pub replay_from : ℕ → List IncidentEvent → Option View → Option View
replay_from id [] v = v
replay_from id (e ∷ es) v = replay_from id es (apply_event id e v)

-- What the events of an incident make of it.
abbrev pub replay : ℕ → List IncidentEvent → Option View
replay id es = replay_from id es none

pub replay_from-append :
    (id : ℕ) (es : List IncidentEvent) (e : IncidentEvent) (v : Option View)
    → replay_from id (es ++ (e ∷ [])) v ≡ apply_event id e (replay_from id es v)
unfolding replay_from
replay_from-append id [] e v = refl
replay_from-append id (x ∷ es) e v = replay_from-append id es e (apply_event id x v)

abbrev pub on_incident : (Incident → Incident) → Option Incident → Option Incident
on_incident f none = none
on_incident f (some i) = some (f i)

-- A change of one object, seen by the lookups.
pub find-change_first :
    (id other : ℕ) (change : Incident → Incident)
    → ((i : Incident) → (change i).id ≡ i.id)
    → (is : List Incident)
    → find (λ i. eqb i.id other) (change_first id change is) ≡ (
        if eqb id other
        then on_incident change (find (λ i. eqb i.id other) is)
        else find (λ i. eqb i.id other) is)
unfolding change_first
find-change_first id other change same [] = ground arith
find-change_first id other change same (i ∷ is) =
    ground (arith, same i, find-change_first id other change same is)

-- A new object behind the others.
pub find-append_new :
    (other : ℕ) (is : List Incident) (new : Incident)
    → All (λ i. i.id < new.id) is
    → find (λ i. eqb i.id other) (is ++ (new ∷ []))
      ≡ (if eqb new.id other then some new else find (λ i. eqb i.id other) is)
find-append_new other [] new h = refl
find-append_new other (i ∷ is) new (p, h) = ground (arith, p, find-append_new other is new h)
