-- ===== src/Warlog.antt =====
-- services/warlog-svc/index.js: the entries of the log, in a table and, where OpenSearch answers at
-- the start, in an index.
pub mod Created
pub mod Tests
use tactix.Common.{
  ℕ, suc, leb, String, Bool, true, false, Option, none, some, List, [], ◌∷◌, ◌++◌, keep, ◌==◌,
  truthy, if◌then◌else◌,
}
use tactix.Json
use tactix.Json.{Json, null, member}
use tactix.Action.{Action, Result, ok, err, Db, query, pure, throw, ◌>>=◌}

-- A row of warlog, which is also what the index holds.
pub record Entry : Type 0 where
  pub id : ℕ
  pub author : String
  pub content : String
  pub created_at : ℕ

-- The table with its sequence, and the index.
pub record Log : Type 0 where
  pub next_id : ℕ
  pub rows : List Entry
  pub index : List Entry

-- Any error under `try` is answered by the same 500.
pub data Failure : Type 0 where
  failure : Failure

pub data Reply : Type 0 where
  entries : List Entry → Reply
  created : Entry → Reply
  problem : (status : ℕ) → (error : String) → Reply

abbrev pub Handler : Type 0 → Type 0
Handler A = Action (Db Log (Unit {0})) Failure A

-- ORDER BY created_at ASC
unfoldable pub insert_by_creation : Entry → List Entry → List Entry
insert_by_creation e [] = e ∷ []
insert_by_creation e (f ∷ rest) =
    let later = insert_by_creation e rest in
    if leb e.created_at f.created_at then e ∷ f ∷ rest else f ∷ later

unfoldable pub by_creation : List Entry → List Entry
unfolding insert_by_creation
by_creation [] = []
by_creation (e ∷ rest) = insert_by_creation e (by_creation rest)

-- The answer of a handler, where an error under `try` becomes a 500 with this message.
abbrev pub answered : {S : Type 0} → (message : String) → Result Failure Reply × S → Reply × S
answered message (ok r, s) = (r, s)
answered message (err e, s) = (problem 500 message, s)

-- The author of a body: a null is refused by the table.
abbrev pub author_of : (column : Json → String) → Option Json → Option String
author_of column none = some "anonymous"
author_of column (some null) = none
author_of column (some a) = some (column a)

-- `indexed` says whether there is `osClient`; `search` is the search of the index by a text, and
-- `contains` the test content ILIKE '%q%'.
module _ (indexed : Bool) where
  -- `GET /entries`
  unfoldable pub read_entries :
      (search : String → List Entry → List Entry) (contains : String → String → Bool)
      → Option String
      → Handler Reply
  unfolding by_creation
  read_entries search contains q =
      if truthy q
      then elim q [
        | none ↦ pure (entries [])
        | some asked ↦
            if indexed
            then query failure (λ t. (search asked t.index, t)) >>= (λ hits. pure (entries hits))
            else query failure (λ t. (by_creation (keep (λ e. contains e.content asked) t.rows), t))
              >>= (λ found. pure (entries found))
      ]
      else query failure (λ t. (by_creation t.rows, t)) >>= (λ found. pure (entries found))

  -- The block under `try` of `POST /entries`.
  unfoldable pub store_entry : (now : ℕ) (author content : String) → Handler Reply
  store_entry now author content = do
    entry ← query failure (λ t.
        let e : Entry = record {
          id = t.next_id;
          author = author;
          content = content;
          created_at = now;
        } in
        (e, record t { next_id = suc t.next_id; rows = t.rows ++ (e ∷ []) }))
    shown ←
        (if indexed
          then query failure (λ t. (tt, record t { index = t.index ++ (entry ∷ []) }))
          else pure tt)
    pure (created entry)

  -- `POST /entries`; `column` is the text of a value in a column.
  unfoldable pub post_entry :
      (column : Json → String) (now : ℕ) → Json → Db Log (Unit {0}) → Reply × Db Log (Unit {0})
  unfolding store_entry
  post_entry column now body s = elim (member "content" body) [
    | none ↦ (problem 400 "content required", s)
    | some content ↦
        if Json.truthy (some content)
        then elim (author_of column (member "author" body)) [
          | none ↦ (problem 500 "failed to create warlog entry", s)
          | some author ↦
              answered "failed to create warlog entry" (store_entry now author (column content) s)
        ]
        else (problem 400 "content required", s)
  ]
