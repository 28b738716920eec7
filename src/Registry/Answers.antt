-- ===== src/Registry/Answers.antt =====
-- services/incident-svc/src/index.ts: what the answers say.
use tactix.Common.{ℕ, ◌≡◌, refl, sym, true, Option, eqb, arith, Option-cases, inl, inr}
use tactix.Json.{Json}
use tactix.Registry.{Incident, Registry, incident, new_incident, required, field, create_incident}
use tactix.Registry.Handlers.{create_step, get_incident}
use tactix.Registry.Replay.{find-append_new}
use tactix.Registry.Numbers.{All-below}
use tactix.Registry.Consistent.{IsConsistent}

incident_injective : {a b : Incident} → incident 201 a ≡ incident 201 b → a ≡ b
incident_injective h = cc

-- An incident whose creation is answered is then found under its number, as it was answered.
pub get_incident-create_step :
    (at logged : ℕ) (body : Option Json) (g : Registry) (i : Incident)
    → IsConsistent g
    → (create_step at logged body g).0.0 ≡ incident 201 i
    → get_incident i.id (create_step at logged body g).1 ≡ incident 200 i
unfolding create_step get_incident
get_incident-create_step at logged body g i c h = answered h
  where
    stored :
        (title severity : Json)
        → incident 201 (new_incident g title severity (field "description" body) at)
          ≡ incident 201 i
        → get_incident i.id (create_incident title severity (field "description" body) at logged g)
          ≡ incident 200 i
    stored title severity said =
        let new = new_incident g title severity (field "description" body) at in
        let found =
          find-append_new g.next_incident_id g.incidents new
            (All-below (λ x. x.id) 1 g.incidents g.next_incident_id c.incidents) in
        let same : eqb g.next_incident_id g.next_incident_id ≡ true = ground arith in
        rw (sym (incident_injective said)) (rw (get_incident, found, same) refl)

    answered :
        (create_step at logged body g).0.0 ≡ incident 201 i
        → get_incident i.id (create_step at logged body g).1 ≡ incident 200 i
    answered = elim (Option-cases (required "title" body)) [
      | inl no_title ↦ rw (create_step, no_title) (λ said. absurd cc)
      | inr (title, titled) ↦ elim (Option-cases (required "severity" body)) [
        | inl no_severity ↦ rw (create_step, titled, no_severity) (λ said. absurd cc)
        | inr (severity, rated) ↦ rw (create_step, titled, rated) (stored title severity)
      ]
    ]
