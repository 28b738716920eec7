-- ===== src/Registry/Runs.antt =====
-- services/incident-svc/src/index.ts: any sequence of requests, with a database client or without,
-- whether its notifications get through or not.
use mathlib.Core.Path.{subst}
use tactix.Common.{
  ℕ, String, ◌≡◌, refl, sym, ap, ◌∙◌, Bool, true, false, Option, none, some, List, [], ◌∷◌,
}
use tactix.Json.{Json}
use tactix.Action.{Result, ok, err, continue, modify, notify, announced, pure, tick, ◌>>=◌}
use tactix.Authz.{TactixUser}
use tactix.Registry.{Registry, Envelope, Reply, NoError, Service, start}
use tactix.Registry.Handlers.{
  Outcome, tell, handle, create_step, comment_step, guarded_status_step, attachment_step,
}
use tactix.Registry.Consistent.{
  IsConsistent, create_step-IsConsistent, comment_step-IsConsistent,
  guarded_status_step-IsConsistent, attachment_step-IsConsistent, start-IsConsistent,
}

tell-tables :
    (client : Bool) (event : Option Envelope) (s : Service)
    → (tell client event s).1.tables ≡ s.tables
unfolding pure notify
tell-tables client none s = refl
tell-tables false (some e) s = refl
tell-tables true (some e) s = go s.faults s
  where
    go : (l : List Bool) (s : Service) → (announced {E = NoError} l e s).1.tables ≡ s.tables
    go [] s = refl
    go (false ∷ l) s = refl
    go (true ∷ l) s = refl

continue-pure :
    (r : Result NoError (Unit {0})) (reply : Reply) (s : Service)
    → (continue r (λ _. pure reply) s).1 ≡ s
unfolding pure
continue-pure (ok tt) reply s = refl
continue-pure (err e) reply s = refl

-- The variables are those that the change leaves.
handle-tables :
    (client : Bool) (step : Registry → Outcome) (s : Service)
    → (handle client step s).1.tables ≡ (step s.tables).1
unfolding handle ◌>>=◌ modify
handle-tables client step s =
    let event = (step s.tables).0.1 in
    let moved : Service = record s { tables = (step s.tables).1 } in
    ap (λ (x : Service). x.tables)
      (continue-pure (tell client event moved).0 (step s.tables).0.0 (tell client event moved).1)
    ∙ tell-tables client event moved

module _ (client : Bool) where
  -- A request that changes the variables, or another oracle of the notifications to come. The guard of
  -- the status has seen some user or none.
  pub data Step : Service → Service → Type 0 where
    create :
        {s : Service} (at logged : ℕ) (body : Option Json)
        → Step s (handle client (create_step at logged body) s).1
    comment :
        {s : Service} (logged id : ℕ) (body : Option Json)
        → Step s (handle client (comment_step logged id body) s).1
    status :
        {s : Service} (user : Option TactixUser) (logged id : ℕ) (body : Option Json)
        → Step s (handle client (guarded_status_step user logged id body) s).1
    upload :
        {s : Service} (at logged id : ℕ) (file : Option (String × String)) (object_name : String)
        → Step s (handle client (attachment_step at logged id file object_name) s).1
    weather : {s : Service} (faults : List Bool) → Step s (tick s faults)

  pub data Steps : Service → Service → Type 0 where
    stop : {s : Service} → Steps s s
    more : {s t u : Service} → Step s t → Steps t u → Steps s u

  Step-IsConsistent : {s t : Service} → Step s t → IsConsistent s.tables → IsConsistent t.tables
  Step-IsConsistent (create at logged body) c =
      subst IsConsistent (sym (handle-tables client _ _))
        (create_step-IsConsistent at logged body _ c)
  Step-IsConsistent (comment logged id body) c =
      subst IsConsistent (sym (handle-tables client _ _))
        (comment_step-IsConsistent logged id body _ c)
  Step-IsConsistent (status user logged id body) c =
      subst IsConsistent (sym (handle-tables client _ _))
        (guarded_status_step-IsConsistent user logged id body _ c)
  Step-IsConsistent (upload at logged id file object_name) c =
      subst IsConsistent (sym (handle-tables client _ _))
        (attachment_step-IsConsistent at logged id file object_name _ c)
  Step-IsConsistent (weather faults) c = c

  Steps-Keep : {s t : Service} → Steps s t → IsConsistent s.tables → IsConsistent t.tables
  Steps-Keep stop c = c
  Steps-Keep (more a l) c = Steps-Keep l (Step-IsConsistent a c)

  -- After any sequence of requests on a service that has just started, events, incidents and attachments
  -- are numbered one after another from 1, and each incident is what the events about it tell: the values of
  -- its creation, the last status set, the comments in order; a number without events is no incident.
  pub Steps-IsConsistent : {s t : Service} → Steps s t → s.tables ≡ start → IsConsistent t.tables
  Steps-IsConsistent l fresh = Steps-Keep l (subst IsConsistent (sym fresh) start-IsConsistent)
