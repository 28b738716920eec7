-- ===== src/TakIngest.antt =====
-- services/tak-ingest-svc/messageLoader.js and index.js: messages that are read once, from local
-- folders or from a bucket, and the search in them. An error of a request is rejected by its
-- handler, and the request gets no answer.
pub mod Text
pub mod Loaded
pub mod Tests
use Prim.Native.String.{◌++◌ as str_append}
use tactix.Common.{
  String, Bool, true, false, ◌||◌, Option, none, some, List, [], ◌∷◌, ◌++◌, map, keep, find, truthy,
  or_else, strip_prefix, ◌==◌, if◌then◌else◌,
}
use tactix.Json
use tactix.Json.{Json, text, null, member}
use tactix.Action.{Action, Db, query, modify, pure, throw, ◌>>=◌}
use tactix.Mcp.Suffix.{ends_with}
use tactix.TakIngest.Text.{without_slash, contains}

-- `{ ...json, folder, message }`, kept as its three parts.
pub record Message : Type 0 where
  pub json : Json
  pub folder : String
  pub message : Json

pub record File : Type 0 where
  pub name : String
  pub content : String

-- The files of a folder, or the objects of the bucket under a prefix.
pub record Folder : Type 0 where
  pub path : String
  pub files : List File

-- What can be read, and the variable `cache`.
pub record Ingest : Type 0 where
  pub stored : List Folder
  pub cache : List Message

pub data Failure : Type 0 where
  io : Failure
  -- an error of JSON.parse or of a value that has no such member
  thrown : Failure

abbrev pub Step : Type 0 → Type 0
Step A = Action (Db Ingest (Unit {0})) Failure A

-- `v`, where it is truthy
abbrev pub when_truthy : Option Json → Option Json
when_truthy v = if Json.truthy v then v else none

abbrev pub or_empty : Option Json → Json
or_empty none = text ""
or_empty (some v) = v

-- `json.ACMREQ && json.ACMREQ.message`, where it is truthy
abbrev pub acm_message : Json → Option Json
acm_message json = elim (when_truthy (member "ACMREQ" json)) [
  | none ↦ none
  | some acm ↦ when_truthy (member "message" acm)
]

-- `json.message || (json.ACMREQ && json.ACMREQ.message) || ''`; `none` where it throws.
unfoldable pub message_of : Json → Option Json
message_of null = none
message_of json = elim (when_truthy (member "message" json)) [
  | none ↦ some (or_empty (acm_message json))
  | some m ↦ some m
]

abbrev pub is_at : String → Folder → Bool
is_at path f = f.path == path

abbrev pub is_named : String → File → Bool
is_named name f = f.name == name

-- The files of a folder, in the order of the listing.
abbrev pub listing : String → List Folder → Option (List File)
listing path stored = elim (find (is_at path) stored) [ none ↦ none | some f ↦ some f.files ]

abbrev pub file_at : (path name : String) → List Folder → Option File
file_at path name stored = elim (listing path stored) [
  | none ↦ none
  | some files ↦ find (is_named name) files
]

abbrev pub or_failure : {A : Type 0} → Failure → Option A → Step A
or_failure e none = throw e
or_failure e (some a) = pure a

-- `list.Contents || []`
abbrev pub contents : Option (List File) → List File
contents none = []
contents (some files) = files

abbrev pub folders : List String
folders = "NATO" ∷ "Canada" ∷ []

-- `parse` is `JSON.parse`, `none` where it throws.
module _ (parse : String → Option Json) where
  -- The message of a text that was read for a folder.
  unfoldable pub read_message : (folder content : String) → Option Message
  unfolding message_of
  read_message folder content = elim (parse content) [
    | none ↦ none
    | some json ↦ elim (message_of json) [
      | none ↦ none
      | some m ↦ some (record { json = json; folder = folder; message = m })
    ]
  ]

  -- One file, read at its path for the messages of `folder`.
  unfoldable pub load_file : (folder path name : String) → Step Message
  unfolding read_message
  load_file folder path name = do
    file ← query io (λ t. (file_at path name t.stored, t))
    elim file [ none ↦ throw io | some f ↦ or_failure thrown (read_message folder f.content) ]

  -- The inner loop of both loaders.
  unfoldable pub load_files : (folder path : String) → List String → Step (List Message)
  unfolding load_file
  load_files folder path [] = pure []
  load_files folder path (name ∷ names) =
      load_file folder path name >>= λ m. load_files folder path names >>= λ ms. pure (m ∷ ms)

  -- `loadFromLocal`
  unfoldable pub load_from_local : (folders : List String) → Step (List Message)
  unfolding load_files ends_with
  load_from_local [] = pure []
  load_from_local (folder ∷ folders) = do
    files ← query io (λ t. (listing folder t.stored, t))
    names ← or_failure io files
    ms ← load_files folder folder (keep (λ n. ends_with ".json" n) (map (λ f. f.name) names))
    rest ← load_from_local folders
    pure (ms ++ rest)

  -- `loadFromS3`, which takes every object that the listing of a prefix gives.
  unfoldable pub load_from_s3 : (prefixes : List String) → Step (List Message)
  unfolding load_files without_slash
  load_from_s3 [] = pure []
  load_from_s3 (prefix ∷ prefixes) = do
    files ← query io (λ t. (listing prefix t.stored, t))
    ms ← load_files (without_slash prefix) prefix (map (λ f. f.name) (contents files))
    rest ← load_from_s3 prefixes
    pure (ms ++ rest)

  -- `loadMessages`; the bucket is empty or missing where the files are local.
  unfoldable pub load_messages : (bucket : Option String) → Step (List Message)
  unfolding load_from_local load_from_s3
  load_messages bucket =
      if truthy bucket
      then load_from_s3 (map (λ f. str_append f "/") folders)
      else load_from_local folders

  -- `if (cache.length === 0)`
  abbrev pub filled : (bucket : Option String) → List Message → Step (List Message)
  filled bucket [] = load_messages bucket >>= λ ms. modify (λ t. (ms, record t { cache = ms }))
  filled bucket (m ∷ ms) = pure (m ∷ ms)

  -- `ensureCache`, with the cache that it leaves
  unfoldable pub ensure_cache : (bucket : Option String) → Step (List Message)
  unfolding load_messages
  ensure_cache bucket = modify (λ t. (t.cache, t)) >>= filled bucket

-- `lower` is `toLowerCase` and `stringify` `JSON.stringify`.
module _ (lower : String → String) (stringify : Message → String) where
  abbrev pub in_value : String → Json → Option Bool
  in_value q (text s) = some (contains q (lower s))
  in_value q _ = none

  -- The test of the filter; `none` where the message is no text, which has no `toLowerCase`.
  unfoldable pub is_found : String → Message → Option Bool
  unfolding contains
  is_found q m =
      if Json.truthy (some m.message)
      then in_value q m.message
      else some (contains q (lower (stringify m)))

  unfoldable pub search : String → List Message → Option (List Message)
  unfolding is_found
  search q [] = some []
  search q (m ∷ ms) = elim (is_found q m) [
    | none ↦ none
    | some hit ↦
        let rest = search q ms in
        elim rest [ none ↦ none | some found ↦ some (if hit then m ∷ found else found) ]
  ]

  -- `GET /messages`
  unfoldable pub get_messages :
      (parse : String → Option Json) (bucket q : Option String) → Step (List Message)
  unfolding ensure_cache search
  get_messages parse bucket q = do
    cache ← ensure_cache parse bucket
    let asked = lower (or_else q "")
    if asked == "" then pure cache else or_failure thrown (search asked cache)
