-- ===== src/Eng/Retention.antt =====
-- services/eng-svc/src/index.ts: the timer takes only what the default window no longer shows.
use tactix.Common.{
  ℕ, ◌≤◌, String, ◌≡◌, refl, ap, Bool, true, false, not, Option, none, List, [], ◌∷◌, keep, take,
  ltb, ◌==◌, arith, or_else, ◌||◌, ◌⊎◌, Bool-cases, inl, inr,
}
use tactix.Action.{ok, Db, query, attempt, pure, ◌>>=◌}
use tactix.Feed.Order.{latest_first}
use tactix.Eng.{EngRow, State, Reply, rejected, listed, get_messages, horizon, since_rows, purge}

since_rows-purged :
    (org_code code : String) (hours now later : ℕ) (stored : List EngRow)
    → now ≤ later
    → since_rows org_code code
        (horizon hours later)
        (keep (λ r. not (ltb r.created_at (horizon hours now))) stored)
      ≡ since_rows org_code code (horizon hours later) stored
since_rows-purged org_code code hours now later [] h = refl
since_rows-purged org_code code hours now later (r ∷ stored) h =
    ground (arith, since_rows-purged org_code code hours now later stored h)

-- The same state under another oracle of the queries to come.
abbrev pub under : Db State (Unit {0}) → List Bool → Db State (Unit {0})
under s faults = record s { faults = faults }

-- What a read answers depends on what it reads only.
read_same :
    {A : Type 0} (f : State → A) (k : A → Reply) (s t : Db State (Unit {0})) (l : List Bool)
    → f t.tables ≡ f s.tables
    → ((query {N = Unit {0}} rejected (λ u. (f u, u)) >>= (λ a. pure (k a))) (under t l)).0
      ≡ ((query {N = Unit {0}} rejected (λ u. (f u, u)) >>= (λ a. pure (k a))) (under s l)).0
unfolding query pure ◌>>=◌
read_same f k s t [] h = ap (λ a. ok (k a)) h
read_same f k s t (false ∷ l) h = ap (λ a. ok (k a)) h
read_same f k s t (true ∷ l) h = refl

module _ (org_code instance_id : String) (hours : ℕ) (nats client : Bool)
    (parse_date : String → Option ℕ) where
  purge-rows :
      (now : ℕ) (s : Db State (Unit {0}))
      → ((purge org_code instance_id hours nats client now s).1.tables.rows ≡ s.tables.rows)
        ⊎ ((purge org_code instance_id hours nats client now s).1.tables.rows
            ≡ keep (λ r. not (ltb r.created_at (horizon hours now))) s.tables.rows)
  unfolding purge attempt query pure
  purge-rows now s = ground arith

  window :
      (now later : ℕ) (asked : String) (s : Db State (Unit {0}))
      → now ≤ later
      → since_rows org_code asked
          (horizon hours later)
          (purge org_code instance_id hours nats client now s).1.tables.rows
        ≡ since_rows org_code asked (horizon hours later) s.tables.rows
  window now later asked s h = elim (purge-rows now s) [
    | inl same ↦ rw same refl
    | inr purged ↦ rw purged (since_rows-purged org_code asked hours now later s.tables.rows h)
  ]

  -- A run of the timer, whether its DELETE succeeds or not, changes no later answer to a request for
  -- the messages of an operation without a time: what it takes is from before the default window.
  pub get_messages-purge :
      (now later : ℕ) (code : Option String) (s : Db State (Unit {0})) (faults : List Bool)
      → now ≤ later
      → (get_messages org_code instance_id hours nats client parse_date later code none
          (under (purge org_code instance_id hours nats client now s).1 faults)).0
        ≡ (get_messages org_code instance_id hours nats client parse_date later code none
            (under s faults)).0
  unfolding get_messages pure
  get_messages-purge now later code s faults h =
      let asked = or_else code "" in
      elim (Bool-cases (asked == "" || not client)) [
        | inl nothing ↦ rw nothing refl
        | inr shown ↦ rw shown (
            read_same
              (λ t. take 100 (
                latest_first (λ r. r.created_at)
                  (since_rows org_code asked (horizon hours later) t.rows)))
              listed s (purge org_code instance_id hours nats client now s).1 faults
              (ap (λ l. take 100 (latest_first (λ (r : EngRow). r.created_at) l))
                (window now later asked s h)))
      ]
