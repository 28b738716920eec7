-- ===== src/Realtime/Alone.antt =====
-- services/realtime-svc/index.js: one client of the map, beside the others.
use tactix.Common.{
  ℕ, String, ◌≡◌, refl, ap, ◌∙◌, Bool, true, false, Option, none, some, List, [], ◌∷◌, ◌++◌, arith,
  eqb, if◌then◌else◌, Option-cases, inl, inr, Bool-cases,
}
use tactix.Json.{Json, null}
use tactix.Realtime.{Client, Input, received, connected, offer, react, run}
use tactix.Realtime.Server.{
  Connection, Event, connection, notification, at, close, delete, state_of, react_at, broadcast,
  notify, happen, serve, seen, Service, ended, running, is_fatal, has_key,
}

state-react_at :
    (k key : ℕ) (i : Input) (cs : List Connection) (c : Client)
    → state_of k cs ≡ some c
    → state_of k (react_at key i cs) ≡ some (if eqb k key then react c i else c)
state-react_at k key i [] c h = absurd (cc)
state-react_at k key i (d ∷ cs) c h = elim (Bool-cases (eqb k d.key)) [
  | inl here ↦ ground arith
  | inr there ↦ let ih = state-react_at k key i cs c (ground arith) in ground arith
]

state-broadcast :
    (k : ℕ) (event : Json) (cs : List Connection) (c : Client)
    → state_of k cs ≡ some c
    → state_of k (broadcast event cs) ≡ some (offer event c)
unfolding broadcast
state-broadcast k event [] c h = absurd (cc)
state-broadcast k event (d ∷ cs) c h = elim (Bool-cases (eqb k d.key)) [
  | inl here ↦ ground arith
  | inr there ↦ let ih = state-broadcast k event cs c (ground arith) in ground arith
]

state-delete :
    (k key : ℕ) (cs : List Connection)
    → eqb k key ≡ false
    → state_of k (delete key cs) ≡ state_of k cs
state-delete k key [] h = refl
state-delete k key (d ∷ cs) h = ground (arith, state-delete k key cs h)

state-append :
    (k : ℕ) (cs ds : List Connection) (c : Client)
    → state_of k cs ≡ some c
    → state_of k (cs ++ ds) ≡ some c
state-append k [] ds c h = absurd (cc)
state-append k (d ∷ cs) ds c h = elim (Bool-cases (eqb k d.key)) [
  | inl here ↦ ground arith
  | inr there ↦ let ih = state-append k cs ds c (ground arith) in ground arith
]

state-new :
    (k : ℕ) (cs : List Connection) (c : Client)
    → state_of k cs ≡ none
    → state_of k (cs ++ (record { key = k; client = c } ∷ [])) ≡ some c
state-new k [] c h = ground arith
state-new k (d ∷ cs) c h = elim (Bool-cases (eqb k d.key)) [
  | inl here ↦ absurd (ground arith)
  | inr there ↦ let ih = state-new k cs c (ground arith) in ground arith
]

-- The state of the client under a key, in a process that runs.
abbrev pub state_in : ℕ → Service → Option Client
state_in k ended = none
state_in k (running cs) = state_of k cs

-- No event closes the client under the key, and no message that a client sends is a JSON null.
abbrev pub IsKept : ℕ → List Event → Type 0
IsKept k [] = Unit
IsKept k (close key ∷ es) = (eqb k key ≡ false) × IsKept k es
IsKept k (at key input ∷ es) = (is_fatal input ≡ false) × IsKept k es
IsKept k (e ∷ es) = IsKept k es

run-if :
    (b : Bool) (c : Client) (i : Input) (is : List Input)
    → run (if b then react c i else c) is ≡ run c (if b then i ∷ is else is)
unfolding run
run-if true c i is = refl
run-if false c i is = refl

has_key_of_state :
    (k : ℕ) (cs : List Connection) (c : Client) → state_of k cs ≡ some c → has_key k cs ≡ true
has_key_of_state k [] c h = absurd (cc)
has_key_of_state k (d ∷ cs) c h = ground (arith, has_key_of_state k cs c)

module _ (parse : String → Option Json) where
  serve-append :
      (s : Service) (es fs : List Event)
      → serve parse s (es ++ fs) ≡ serve parse (serve parse s es) fs
  unfolding serve
  serve-append s [] fs = refl
  serve-append s (e ∷ es) fs = serve-append (happen parse s e) es fs

  serve_ended : (es : List Event) → serve parse ended es ≡ ended
  unfolding serve happen
  serve_ended [] = refl
  serve_ended (e ∷ es) = serve_ended es

  null_ends :
      (k : ℕ) (s : Service) (c : Client)
      → state_in k s ≡ some c
      → happen parse s (at k (received (some null))) ≡ ended
  unfolding happen
  null_ends k ended c h = refl
  null_ends k (running cs) c h = rw (has_key_of_state k cs c h) refl

  serve-run_from :
      (k : ℕ) (cs : List Connection) (es : List Event) (c : Client)
      → state_of k cs ≡ some c
      → IsKept k es
      → state_in k (serve parse (running cs) es) ≡ some (run c (seen parse k es))
  unfolding serve happen notify seen run react
  serve-run_from k cs [] c h kept = h
  serve-run_from k cs (connection key ∷ es) c h kept =
      serve-run_from k (cs ++ (record { key = key; client = connected } ∷ [])) es c
        (state-append k cs (record { key = key; client = connected } ∷ []) c h) kept
  serve-run_from k cs (notification payload ∷ es) c h kept = elim (Option-cases (parse payload)) [
    | inl bad ↦ rw (serve, happen, notify, seen, bad) (serve-run_from k cs es c h kept)
    | inr (event, good) ↦
        rw (serve, happen, notify, seen, good)
          (serve-run_from k (broadcast event cs) es (offer event c) (state-broadcast k event cs c h)
            kept)
  ]
  serve-run_from k cs (at key i ∷ es) c h (harmless, kept) =
      rw (serve, happen, harmless)
        (serve-run_from k (react_at key i cs) es (if eqb k key then react c i else c)
            (state-react_at k key i cs c h) kept
          ∙ ap some (run-if (eqb k key) c i (seen parse k es)))
  serve-run_from k cs (close key ∷ es) c h (other, kept) =
      serve-run_from k (delete key cs) es c (state-delete k key cs other ∙ h) kept

  -- A client that connects under a new key and is not closed, while no client sends a message that is
  -- a JSON null: whatever else happens to the service, the state of this client is that of a client
  -- alone, run over its own inputs and the broadcasts. If it then sends a JSON null itself, the process
  -- ends, whatever follows.
  pub serve-run :
      (k : ℕ) (cs : List Connection) (es fs : List Event)
      → state_of k cs ≡ none
      → IsKept k es
      → (state_in k (serve parse (running cs) (connection k ∷ es))
          ≡ some (run connected (seen parse k es)))
        × (serve parse (running cs) (connection k ∷ (es ++ (at k (received (some null)) ∷ fs)))
            ≡ ended)
  unfolding serve happen
  serve-run k cs es fs new kept =
      let start = running (cs ++ (record { key = k; client = connected } ∷ [])) in
      let alone =
        serve-run_from k (cs ++ (record { key = k; client = connected } ∷ [])) es connected
          (state-new k cs connected new) kept in
      (
        alone,
        serve-append start es (at k (received (some null)) ∷ fs)
            ∙ ap (λ s. serve parse s fs) (null_ends k (serve parse start es) _ alone)
            ∙ serve_ended fs,
      )
