-- ===== src/Incident/Postgres.antt =====
-- services/incident/src/infrastructure/EventStore.ts: the implementation on a table.
use mathlib.Core.List.{append-nil}
use tactix.Common.{
  ℕ, String, ◌≡◌, refl, ap, ◌∙◌, ◌<◌, List, [], ◌∷◌, ◌++◌, map, keep, ◌==◌, eq_iff, arith, All, leb,
  if◌then◌else◌, Bool, Bool-cases, inl, inr,
}
use tactix.Incident.{IncidentEvent}

-- A row of incidents_events, but for its key; the column `timestamp` is the clock of the append.
pub record EventRow : Type 0 where
  pub incident_id : String
  pub event : IncidentEvent
  pub timestamp : ℕ

-- ORDER BY timestamp ASC
unfoldable pub insert_by_time : EventRow → List EventRow → List EventRow
insert_by_time r [] = r ∷ []
insert_by_time r (q ∷ rows) =
    let later = insert_by_time r rows in
    if leb r.timestamp q.timestamp then r ∷ q ∷ rows else q ∷ later

unfoldable pub by_time : List EventRow → List EventRow
unfolding insert_by_time
by_time [] = []
by_time (r ∷ rows) = insert_by_time r (by_time rows)

-- `append` of PgEventStore, at the time `at`
unfoldable pub append_row : List EventRow → String → IncidentEvent → (at : ℕ) → List EventRow
append_row rows id event at =
    rows ++ (record { incident_id = id; event = event; timestamp = at } ∷ [])

-- `load` of PgEventStore
unfoldable pub load_rows : List EventRow → String → List IncidentEvent
unfolding by_time
load_rows rows id = map (λ r. r.event) (by_time (keep (λ r. r.incident_id == id) rows))

-- Rows from before a time.
abbrev pub AreBefore : ℕ → List EventRow → Type 0
AreBefore at rows = All (λ r. r.timestamp < at) rows

insert_by_time-last :
    (r last : EventRow) (rows : List EventRow)
    → r.timestamp < last.timestamp
    → insert_by_time r (rows ++ (last ∷ [])) ≡ insert_by_time r rows ++ (last ∷ [])
unfolding insert_by_time
insert_by_time-last r last [] h = ground arith
insert_by_time-last r last (q ∷ rows) h = ground (arith, insert_by_time-last r last rows h)

by_time-last :
    (rows : List EventRow) (last : EventRow)
    → AreBefore last.timestamp rows
    → by_time (rows ++ (last ∷ [])) ≡ by_time rows ++ (last ∷ [])
unfolding by_time insert_by_time
by_time-last [] last h = refl
by_time-last (r ∷ rows) last (p, h) =
    ap (insert_by_time r) (by_time-last rows last h) ∙ insert_by_time-last r last (by_time rows) p

keep-AreBefore :
    (at : ℕ) (p : EventRow → Bool) (rows : List EventRow)
    → AreBefore at rows
    → AreBefore at (keep p rows)
keep-AreBefore at p [] h = tt
keep-AreBefore at p (r ∷ rows) (q, h) = elim (Bool-cases (p r)) [
  | inl hit ↦ rw hit (q, keep-AreBefore at p rows h)
  | inr miss ↦ rw miss (keep-AreBefore at p rows h)
]

keep-append :
    (p : EventRow → Bool) (xs ys : List EventRow) → keep p (xs ++ ys) ≡ keep p xs ++ keep p ys
keep-append p [] ys = refl
keep-append p (x ∷ xs) ys = ground (arith, keep-append p xs ys)

map-append :
    (xs ys : List EventRow)
    → map (λ r. r.event) (xs ++ ys) ≡ map (λ r. r.event) xs ++ map (λ r. r.event) ys
map-append [] ys = refl
map-append (x ∷ xs) ys = ap (◌∷◌ x.event) (map-append xs ys)

abbrev last_row : (id : String) (event : IncidentEvent) (at : ℕ) → EventRow
last_row id event at = record { incident_id = id; event = event; timestamp = at }

kept :
    (rows : List EventRow) (id other : String) (event : IncidentEvent) (at : ℕ)
    → keep (λ r. r.incident_id == other) (rows ++ (last_row id event at ∷ []))
      ≡ keep (λ r. r.incident_id == other) rows
        ++ (if id == other then last_row id event at ∷ [] else [])
kept rows id other event at =
    keep-append (λ r. r.incident_id == other) rows (last_row id event at ∷ [])

-- An append to the table at a time later than every row is read back at the end of its incident, and
-- is seen by no other: the promise of `EventStore` under a clock that moves on.
pub load_rows-append_row :
    (rows : List EventRow) (id other : String) (event : IncidentEvent) (at : ℕ)
    → AreBefore at rows
    → load_rows (append_row rows id event at) other
      ≡ (if id == other then load_rows rows id ++ (event ∷ []) else load_rows rows other)
unfolding load_rows append_row
load_rows-append_row rows id other event at early = elim (Bool-cases (id == other)) [
  | inl same ↦
      let e : other ≡ id = ground (arith, eq_iff id other) in
      let mine = keep (λ r. r.incident_id == other) rows in
      rw same (
        ap (λ l. map (λ r. r.event) (by_time l))
          (kept rows id other event at
            ∙ ap (λ b. mine ++ (if b then last_row id event at ∷ [] else [])) same)
        ∙ ap (map (λ r. r.event)) (
            by_time-last mine (last_row id event at)
              (keep-AreBefore at (λ r. r.incident_id == other) rows early))
        ∙ map-append (by_time mine) (last_row id event at ∷ [])
        ∙ ap (λ o. load_rows rows o ++ (event ∷ [])) e)
  | inr differ ↦ rw differ (
      ap (λ l. map (λ r. r.event) (by_time l))
        (kept rows id other event at
          ∙ ap
              (λ b.
                keep (λ r. r.incident_id == other) rows
                ++ (if b then last_row id event at ∷ [] else []))
              differ
          ∙ append-nil (keep (λ r. r.incident_id == other) rows)))
]
