-- ===== src/Playbook/Runs.antt =====
-- services/playbook-svc/src/routes.ts: a run is told before it is written down.
use tactix.Common.{ℕ, String, ◌≡◌, Bool, true, false, Option, none, some, [], ◌∷◌, ◌++◌}
use tactix.Json.{Json}
use tactix.Action.{Result, ok, err}
use tactix.Action.Outcome.{Outcome}
use tactix.Authz.{TactixUser}
use tactix.Playbook.{
  Playbook, Tables, Rejected, rejected, Reply, executed, problem, invalid, RunBody, playbook_of,
  parse_run, envelope_of, run_of,
}

module _ (size : String → ℕ) (has_role : TactixUser → String → Bool) (org_code : String)
    (user : TactixUser) (run_id : String) (now : ℕ) (id : String) (body : Option Json) where
  -- The ways in which the request to run a playbook ends, with the tables that it leaves.
  pub data Ends (t : Tables) : Result Rejected Reply → Tables → Type 0 where
    forbidden : has_role user "DO" ≡ false → Ends t (ok (problem 403 "forbidden")) t
    missing :
        has_role user "DO" ≡ true
        → playbook_of id t ≡ none
        → Ends t (ok (problem 404 "playbook_not_found")) t
    refused :
        has_role user "DO" ≡ true
        → parse_run size has_role org_code body ≡ none
        → Ends t (ok invalid) t
    silent : Ends t (err rejected) t
    told :
        (p : Playbook) (b : RunBody)
        → has_role user "DO" ≡ true
        → playbook_of id t ≡ some p
        → parse_run size has_role org_code body ≡ some b
        → Ends t (err rejected) (record t {
          notified = t.notified ++ (envelope_of size has_role org_code user now p b ∷ []);
        })
    done :
        (p : Playbook) (b : RunBody)
        → has_role user "DO" ≡ true
        → playbook_of id t ≡ some p
        → parse_run size has_role org_code body ≡ some b
        → Ends t (ok (executed run_id)) (record t {
          notified = t.notified ++ (envelope_of size has_role org_code user now p b ∷ []);
          runs = t.runs ++ (run_of size has_role org_code user run_id p b ∷ []);
        })
