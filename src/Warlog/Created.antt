-- ===== src/Warlog/Created.antt =====
-- services/warlog-svc/index.js: what a request to create an entry leaves.
use tactix.Common.{ℕ, suc, String, ◌≡◌, refl, Bool, true, false, [], ◌∷◌, ◌++◌}
use tactix.Action.{Result, ok, err, Db}
use tactix.Action.Outcome.{Outcome-query, Outcome-pure, Outcome-value}
use tactix.Warlog.{Entry, Log, Failure, failure, Reply, created, store_entry}

-- The entry that the sequence numbers.
abbrev pub numbered : (now : ℕ) (author content : String) → Log → Entry
numbered now author content t = record {
  id = t.next_id;
  author = author;
  content = content;
  created_at = now;
}

abbrev pub inserted : Entry → Log → Log
inserted e t = record t { next_id = suc t.next_id; rows = t.rows ++ (e ∷ []) }

-- The ways in which the statements of `POST /entries` end.
pub data Ends (indexed : Bool) (e : Entry) (t : Log) : Result Failure Reply → Log → Type 0 where
  nothing : Ends indexed e t (err failure) t
  unindexed : indexed ≡ true → Ends indexed e t (err failure) (inserted e t)
  both :
      indexed ≡ true
      → Ends indexed e t (ok (created e)) (record (inserted e t) { index = t.index ++ (e ∷ []) })
  alone : indexed ≡ false → Ends indexed e t (ok (created e)) (inserted e t)

-- An entry that is answered as created is in the table and, where there is an index, in the index, under
-- the number of the sequence. An error may leave it in the table all the same, if the index fails, but
-- never in the index alone.
pub store_entry-Ends :
    (indexed : Bool) (now : ℕ) (author content : String) (s : Db Log (Unit {0}))
    → Ends indexed
        (numbered now author content s.tables)
        s.tables
        (store_entry indexed now author content s).0
        (store_entry indexed now author content s).1.tables
unfolding store_entry
store_entry-Ends true now author content s =
    let t = s.tables in
    let e = numbered now author content t in
    (Outcome-query t failure _ _ (Ends true e t) nothing (
        Outcome-query _ failure _ _ (Ends true e t) (unindexed refl)
          (Outcome-pure _ _ (Ends true e t) (both refl)))).at
      s refl
store_entry-Ends false now author content s =
    let t = s.tables in
    let e = numbered now author content t in
    (Outcome-query t failure _ _ (Ends false e t) nothing
        (Outcome-value _ _ _ (Ends false e t) (Outcome-pure _ _ (Ends false e t) (alone refl)))).at
      s refl
