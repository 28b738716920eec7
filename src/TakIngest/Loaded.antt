-- ===== src/TakIngest/Loaded.antt =====
-- services/tak-ingest-svc: the files that a load reads, the cache that it fills, and the answers.
use mathlib.Core.Path.{subst}
use Prim.Native.String.{◌++◌ as str_append}
use tactix.Common.{
  String, ◌≡◌, ◌≢◌, refl, sym, Bool, false, Option, none, some, List, [], ◌∷◌, ◌++◌, map, keep,
  truthy, or_else, ◌==◌, Option-cases, Bool-cases, inl, inr, arith, if◌then◌else◌,
}
use tactix.Json.{Json}
use tactix.Action.{Action, ok, Db, pure, throw, ◌>>=◌}
use tactix.Action.Yields.{
  Yields, Yields-pure, Yields-throw, Yields-query, Yields-bind, Yields-modify, Yields-modify_last,
}
use tactix.Mcp.Suffix.{ends_with}
use tactix.TakIngest.Text.{without_slash}
use tactix.TakIngest.{
  Message, File, Folder, Ingest, Failure, listing, file_at, or_failure, contents, folders,
  read_message, load_file, load_files, load_from_local, load_from_s3, load_messages, filled,
  ensure_cache, search, is_found, get_messages,
}

-- A file to read: the folder that its message names, its path and its name.
pub record Reading : Type 0 where
  pub folder : String
  pub path : String
  pub name : String

abbrev pub sources_in : (folder path : String) → List String → List Reading
sources_in folder path [] = []
sources_in folder path (n ∷ ns) =
    record { folder = folder; path = path; name = n } ∷ sources_in folder path ns

-- The .json files of the folders, in order.
abbrev pub local_sources : List Folder → (folders : List String) → List Reading
local_sources stored [] = []
local_sources stored (folder ∷ folders) =
    sources_in folder folder
      (keep (λ n. ends_with ".json" n) (map (λ f. f.name) (contents (listing folder stored))))
    ++ local_sources stored folders

-- Everything that the bucket has under the prefixes, in order.
abbrev pub s3_sources : List Folder → (prefixes : List String) → List Reading
s3_sources stored [] = []
s3_sources stored (prefix ∷ prefixes) =
    sources_in (without_slash prefix) prefix (map (λ f. f.name) (contents (listing prefix stored)))
    ++ s3_sources stored prefixes

abbrev pub sources : (bucket : Option String) → List Folder → List Reading
sources bucket stored =
    if truthy bucket
    then s3_sources stored (map (λ f. str_append f "/") folders)
    else local_sources stored folders

module _ (parse : String → Option Json) where
  -- Each source is there and gives the message at its place.
  pub data IsRead (stored : List Folder) : List Reading → List Message → Type 0 where
    done : IsRead stored [] []
    next :
        {s : Reading} {m : Message} {ss : List Reading} {ms : List Message} (f : File)
        → file_at s.path s.name stored ≡ some f
        → read_message parse s.folder f.content ≡ some m
        → IsRead stored ss ms
        → IsRead stored (s ∷ ss) (m ∷ ms)

  IsRead-append :
      {stored : List Folder} {ss ts : List Reading} {ms ns : List Message}
      → IsRead stored ss ms
      → IsRead stored ts ns
      → IsRead stored (ss ++ ts) (ms ++ ns)
  IsRead-append done r = r
  IsRead-append (next f there reads l) r = next f there reads (IsRead-append l r)

  -- Reading changes nothing.
  abbrev pub Reads : Ingest → List Reading → List Message → Ingest → Type 0
  Reads t ss ms left = IsRead t.stored ss ms × (left ≡ t)

  Yields-or_failure :
      {A B : Type 0} (t : Ingest) (e : Failure) (o : Option A)
      (g : A → Action (Db Ingest (Unit {0})) Failure B) (Q : B → Ingest → Type 0)
      → ((a : A) → o ≡ some a → Yields t (g a) Q)
      → Yields t (or_failure e o >>= g) Q
  unfolding ◌>>=◌ throw pure
  Yields-or_failure t e none g Q y = record { at = λ s b here h. cc }
  Yields-or_failure t e (some a) g Q y = record { at = (y a refl).at }

  Yields-or_failure_last :
      {A : Type 0} (t : Ingest) (e : Failure) (o : Option A) (Q : A → Ingest → Type 0)
      → ((a : A) → o ≡ some a → Q a t)
      → Yields {N = Unit {0}} t (or_failure e o) Q
  Yields-or_failure_last t e none Q q = Yields-throw t e Q
  Yields-or_failure_last t e (some a) Q q = Yields-pure t a Q (q a refl)

  -- An action that reads, before the rest.
  Yields-after :
      {A B : Type 0} (t : Ingest) (m : Action (Db Ingest (Unit {0})) Failure A)
      (g : A → Action (Db Ingest (Unit {0})) Failure B) (P : A → Type 0) (Q : B → Ingest → Type 0)
      → Yields t m (λ a left. P a × (left ≡ t))
      → ((a : A) → P a → Yields t (g a) Q)
      → Yields t (m >>= g) Q
  Yields-after t m g P Q y k =
      Yields-bind t m g _ Q y λ a u (p, same). subst (λ v. Yields v (g a) Q) (sym same) (k a p)

  load_file-Yields :
      (folder path name : String) (t : Ingest)
      → Yields t (load_file parse folder path name) (λ m left.
        IsRead t.stored (record { folder = folder; path = path; name = name } ∷ []) (m ∷ [])
        × (left ≡ t))
  unfolding load_file
  load_file-Yields folder path name t =
      Yields-query t _ _ _ _ (elim (Option-cases (file_at path name t.stored)) [
        | inl missing ↦ rw missing (Yields-throw t _ _)
        | inr (f, there) ↦
            rw there (Yields-or_failure_last t _ _ _ λ m reads. (next f there reads done, refl))
      ])

  load_files-Reads :
      (folder path : String) (names : List String) (t : Ingest)
      → Yields t (load_files parse folder path names) (Reads t (sources_in folder path names))
  unfolding load_files
  load_files-Reads folder path [] t = Yields-pure t _ _ (done, refl)
  load_files-Reads folder path (n ∷ ns) t =
      Yields-after t _ _ _ _ (load_file-Yields folder path n t) λ m first.
        Yields-after t _ _ _ _ (load_files-Reads folder path ns t)
          λ ms rest. Yields-pure t _ _ (IsRead-append first rest, refl)

  load_from_local-Reads :
      (folders : List String) (t : Ingest)
      → Yields t (load_from_local parse folders) (Reads t (local_sources t.stored folders))
  unfolding load_from_local
  load_from_local-Reads [] t = Yields-pure t _ _ (done, refl)
  load_from_local-Reads (folder ∷ folders) t = Yields-query t _ _ _ _ (
      Yields-or_failure t _ _ _ _ λ names there. rw there (
        Yields-after t _ _ _ _ (load_files-Reads folder folder _ t) λ ms read.
          Yields-after t _ _ _ _ (load_from_local-Reads folders t)
            λ rest others. Yields-pure t _ _ (IsRead-append read others, refl)))

  load_from_s3-Reads :
      (prefixes : List String) (t : Ingest)
      → Yields t (load_from_s3 parse prefixes) (Reads t (s3_sources t.stored prefixes))
  unfolding load_from_s3
  load_from_s3-Reads [] t = Yields-pure t _ _ (done, refl)
  load_from_s3-Reads (prefix ∷ prefixes) t = Yields-query t _ _ _ _ (
      Yields-after t _ _ _ _ (load_files-Reads (without_slash prefix) prefix _ t) λ ms read.
        Yields-after t _ _ _ _ (load_from_s3-Reads prefixes t)
          λ rest others. Yields-pure t _ _ (IsRead-append read others, refl))

  load_messages-Reads :
      (bucket : Option String) (t : Ingest)
      → Yields t (load_messages parse bucket) (Reads t (sources bucket t.stored))
  unfolding load_messages
  load_messages-Reads bucket t = elim (Bool-cases (truthy bucket)) [
    | inl there ↦
        rw (load_messages, there) (load_from_s3-Reads (map (λ f. str_append f "/") folders) t)
    | inr local ↦ rw (load_messages, local) (load_from_local-Reads folders t)
  ]

  -- The messages that a request works on: the cache or, where it was empty, the files as they are.
  pub data IsFilled (bucket : Option String) (t : Ingest) : List Message → Ingest → Type 0 where
    kept : t.cache ≢ [] → IsFilled bucket t t.cache t
    loaded :
        (ms : List Message)
        → t.cache ≡ []
        → IsRead t.stored (sources bucket t.stored) ms
        → IsFilled bucket t ms (record t { cache = ms })

  ensure_cache-IsFilled :
      (bucket : Option String) (t : Ingest)
      → Yields t (ensure_cache parse bucket) (IsFilled bucket t)
  unfolding ensure_cache
  ensure_cache-IsFilled bucket t = Yields-modify t _ _ _ (go t.cache refl)
    where
      go :
          (ms : List Message) → t.cache ≡ ms → Yields t (filled parse bucket ms) (IsFilled bucket t)
      go [] empty =
          Yields-after t _ _ _ _ (load_messages-Reads bucket t)
            λ ms read. Yields-modify_last t _ _ (loaded ms empty read)
      go (m ∷ ms) there =
          Yields-pure t _ _
            (subst (λ x. IsFilled bucket t x t) there (kept (λ empty. cc (there, empty))))

  module _ (lower : String → String) (stringify : Message → String) where
    -- The message contains the text: its own message, or all of it where it has none.
    abbrev pub says : String → Message → Bool
    says q m = elim (is_found lower stringify q m) [ none ↦ false | some hit ↦ hit ]

    -- The answer and the cache that it comes from.
    pub record IsAnswer (bucket q : Option String) (t : Ingest) (found : List Message)
        (left : Ingest) : Type 0 where
      pub cache : List Message
      pub filling : IsFilled bucket t cache left
      pub found_lem :
          found
          ≡ (if lower (or_else q "") == "" then cache else keep (says (lower (or_else q ""))) cache)

    search-keep :
        (q : String) (ms found : List Message)
        → search lower stringify q ms ≡ some found
        → found ≡ keep (says q) ms
    unfolding search
    search-keep q [] found h = ground arith
    search-keep q (m ∷ ms) found h = elim (Option-cases (is_found lower stringify q m)) [
      | inl odd ↦ ground arith
      | inr (hit, there) ↦ elim (Option-cases (search lower stringify q ms)) [
        | inl later ↦ ground arith
        | inr (rest, later) ↦ let ih = search-keep q ms rest later in ground arith
      ]
    ]

    get_messages-Yields :
        (bucket q : Option String) (t : Ingest)
        → Yields t (get_messages lower stringify parse bucket q) (IsAnswer bucket q t)
    unfolding get_messages
    get_messages-Yields bucket q t =
        Yields-bind t _ _ _ _ (ensure_cache-IsFilled bucket t) λ cache left filling.
          elim (Bool-cases (lower (or_else q "") == "")) [
            | inl all ↦ rw all (
                Yields-pure left _ _
                  (record { cache = cache; filling = filling; found_lem = rw all refl }))
            | inr some_text ↦ rw some_text (
                Yields-or_failure_last left _ _ _ λ found there. record {
                  cache = cache;
                  filling = filling;
                  found_lem = rw some_text (search-keep _ cache found there);
                })
          ]

    -- A request that is answered: the messages of the cache that contain the text, where a cache that
    -- was empty first takes one message from each file that there is to read, in order; a cache that was
    -- not empty stays as it was, whatever has become of the files.
    pub get_messages-IsAnswer :
        (bucket q : Option String) (s : Db Ingest (Unit {0})) (found : List Message)
        → (get_messages lower stringify parse bucket q s).0 ≡ ok found
        → IsAnswer bucket q s.tables found (get_messages lower stringify parse bucket q s).1.tables
    get_messages-IsAnswer bucket q s found h =
        (get_messages-Yields bucket q s.tables).at s found refl h
