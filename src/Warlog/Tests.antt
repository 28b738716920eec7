-- ===== src/Warlog/Tests.antt =====
-- The log at concrete entries.
use tactix.Common.{◌≡◌, refl, String, Bool, true, false, some, List, [], ◌∷◌, ◌==◌}
use tactix.Json.{Json, Members, object, with_member, text}
use tactix.Action.{ok, Db, query, pure, throw, ◌>>=◌}
use tactix.Warlog.{
  Entry, Log, entries, created, problem, insert_by_creation, by_creation, read_entries, store_entry,
  post_entry,
}
use tactix.Warlog.Created.{Ends, numbered, store_entry-Ends}

warlog : Unit {0}
unfolding insert_by_creation by_creation read_entries store_entry post_entry query pure throw ◌>>=◌
warlog = tt

abbrev column : Json → String
column (text s) = s
column _ = ""

abbrev db : Db Log (Unit {0})
db = record { tables = record { next_id = 1; rows = []; index = [] }; sent = []; faults = [] }

abbrev body : Json
body = object (with_member "content" (text "fire") Members.done)

abbrev entry : Entry
entry = record { id = 1; author = "anonymous"; content = "fire"; created_at = 5 }

abbrev no_search : String → List Entry → List Entry
no_search asked found = found

abbrev contains : String → String → Bool
contains content asked = content == asked

entry_tests :
    ((post_entry true column 5 body db).0 ≡ created entry)
    × ((post_entry true column 5 (object Members.done) db).0 ≡ problem 400 "content required")
    × ((post_entry true column 5 body (record db { faults = false ∷ true ∷ [] })).1.tables.rows
        ≡ entry ∷ [])
    × ((read_entries false no_search contains (some "fire") (post_entry false column 5 body db).1).0
        ≡ ok (entries (entry ∷ [])))
unfolding warlog
entry_tests = (refl, refl, refl, refl)

store_entry-Ends_example :
    Ends true
      (numbered 5 "ann" "fire" db.tables)
      db.tables
      (store_entry true 5 "ann" "fire" db).0
      (store_entry true 5 "ann" "fire" db).1.tables
store_entry-Ends_example = store_entry-Ends true 5 "ann" "fire" db
