-- ===== src/TakIngest/Tests.antt =====
-- The messages of two folders and of a bucket.
use tactix.Common.{
  ◌≡◌, refl, String, true, Option, none, some, List, [], ◌∷◌, ◌==◌, strip_prefix, if◌then◌else◌,
}
use tactix.Json.{Json, Members, object, with_member, text}
use tactix.Action.{ok, err, Db, query, modify, pure, throw, ◌>>=◌}
use tactix.Mcp.Suffix.{ends_with}
use tactix.TakIngest.Text.{without_slash, contains}
use tactix.TakIngest.{
  Message, Folder, Ingest, io, message_of, read_message, load_file, load_files, load_from_local,
  load_from_s3, load_messages, ensure_cache, is_found, search, get_messages,
}
use tactix.TakIngest.Loaded.{IsAnswer, get_messages-IsAnswer}

loading : Unit {0}
unfolding strip_prefix ends_with without_slash contains message_of read_message load_file load_files
    load_from_local load_from_s3 load_messages ensure_cache is_found search get_messages query
    modify pure throw ◌>>=◌
loading = tt

abbrev lower : String → String
lower s = if s == "FIRE" then "fire" else s

abbrev stringify : Message → String
stringify m = "{}"

-- The value of a text: a text is an object with this message, "{}" has none.
abbrev parse : String → Option Json
parse s =
    if s == "!"
    then none
    else if s == "{}"
    then some (object Members.done)
    else some (object (with_member "message" (text s) Members.done))

abbrev stored : List Folder
stored =
    record {
      path = "NATO";
      files =
          record { name = "a.json"; content = "fire at dawn" }
          ∷ record { name = "b.txt"; content = "!" }
          ∷ [];
    }
    ∷ record { path = "Canada"; files = record { name = "c.json"; content = "{}" } ∷ [] }
    ∷ record { path = "NATO/"; files = record { name = "NATO/k"; content = "water" } ∷ [] }
    ∷ []

abbrev start : Db Ingest (Unit {0})
start = record { tables = record { stored = stored; cache = [] }; sent = []; faults = [] }

abbrev fire : Message
fire = record {
  json = object (with_member "message" (text "fire at dawn") Members.done);
  folder = "NATO";
  message = text "fire at dawn";
}

abbrev blank : Message
blank = record { json = object Members.done; folder = "Canada"; message = text "" }

abbrev water : Message
water = record {
  json = object (with_member "message" (text "water") Members.done);
  folder = "NATO";
  message = text "water";
}

load_tests :
    ((get_messages lower stringify parse none none start).0 ≡ ok (fire ∷ blank ∷ []))
    × ((get_messages lower stringify parse none (some "FIRE") start).0 ≡ ok (fire ∷ []))
    × ((get_messages lower stringify parse none (some "{") start).0 ≡ ok (blank ∷ []))
    × ((get_messages lower stringify parse (some "b") (some "at") start).0 ≡ ok (water ∷ []))
    × ((get_messages lower stringify parse none none (record start { faults = true ∷ [] })).0
        ≡ err io)
    × ((get_messages lower stringify parse none none
          (record start { tables = record { stored = []; cache = fire ∷ [] } })).0
        ≡ ok (fire ∷ []))
unfolding loading
load_tests = (refl, refl, refl, refl, refl, refl)

get_messages-IsAnswer_example :
    IsAnswer parse lower stringify none
      (some "FIRE")
      start.tables
      (fire ∷ [])
      (get_messages lower stringify parse none (some "FIRE") start).1.tables
unfolding loading
get_messages-IsAnswer_example =
    get_messages-IsAnswer parse lower stringify none (some "FIRE") start (fire ∷ []) refl
