-- ===== src/Bootstrap.antt =====
-- services/bootstrap-svc/src/index.ts: the configuration file and the score of a machine. A file
-- holds the value that JSON.parse gives for its text; `none` is a file that is missing or no JSON.
pub mod Written
pub mod Tests
use tactix.Common.{
  ℕ, ◌*◌, String, Bool, true, false, Option, none, some, List, [], ◌∷◌, ◌++◌, length, ltb, eqb,
  ◌==◌, if◌then◌else◌,
}
use tactix.Json
use tactix.Json.{
  Json, Members, Elements, object, array, text, boolean, with_member, no_more, element, member,
  string_field,
}
use tactix.Action.{Action, Db, query, pure, throw, ◌>>=◌}

pub data Mode : Type 0 where
  single server client : Mode

pub record PinnedServer : Type 0 where
  pub id : String
  pub fingerprint : String
  pub url : String
  pub added_at : String

-- `Config`; the members of `ldap` are kept as they are.
pub record Config : Type 0 where
  pub mode : Mode
  pub ldap : Members
  pub lan : Bool
  pub cloud : Bool
  pub announce : Bool
  pub pinned_servers : List PinnedServer

unfoldable pub default_config : Config
default_config = record {
  mode = single;
  ldap = Members.done;
  lan = true;
  cloud = false;
  announce = true;
  pinned_servers = [];
}

-- `z.enum(['single', 'server', 'client'])`
unfoldable pub parse_mode : Option Json → Option Mode
parse_mode (some (text s)) =
    if s == "single"
    then some single
    else if s == "server"
    then some server
    else if s == "client"
    then some client
    else none
parse_mode _ = none

-- `z.record(z.any())`
abbrev pub record_field : Option Json → Option Members
record_field (some (object members)) = some members
record_field _ = none

-- `z.boolean()`
abbrev pub boolean_field : Option Json → Option Bool
boolean_field (some (boolean b)) = some b
boolean_field _ = none

unfoldable pub parse_server : Json → Option PinnedServer
parse_server json = elim (string_field (member "id" json)) [
  | none ↦ none
  | some id ↦ elim (string_field (member "fingerprint" json)) [
    | none ↦ none
    | some fingerprint ↦ elim (string_field (member "url" json)) [
      | none ↦ none
      | some url ↦ elim (string_field (member "addedAt" json)) [
        | none ↦ none
        | some added_at ↦
            some (record { id = id; fingerprint = fingerprint; url = url; added_at = added_at })
      ]
    ]
  ]
]

unfoldable pub parse_servers : Elements → Option (List PinnedServer)
unfolding parse_server
parse_servers no_more = some []
parse_servers (element json rest) = elim (parse_server json) [
  | none ↦ none
  | some s ↦ elim (parse_servers rest) [ none ↦ none | some servers ↦ some (s ∷ servers) ]
]

-- `z.array(…)` of servers
abbrev pub servers_field : Option Json → Option (List PinnedServer)
servers_field (some (array xs)) = parse_servers xs
servers_field _ = none

-- A member of an object under another member.
abbrev pub inner : (outer key : String) → Json → Option Json
inner outer key json = elim (member outer json) [ none ↦ none | some o ↦ member key o ]

-- `ConfigSchema.parse`, `none` where it throws; members that it does not name are left out.
unfoldable pub parse_config : Json → Option Config
unfolding parse_mode parse_servers
parse_config json = elim (parse_mode (member "mode" json)) [
  | none ↦ none
  | some mode ↦ elim (record_field (member "ldap" json)) [
    | none ↦ none
    | some ldap ↦ elim (boolean_field (inner "discovery" "lan" json)) [
      | none ↦ none
      | some lan ↦ elim (boolean_field (inner "discovery" "cloud" json)) [
        | none ↦ none
        | some cloud ↦ elim (boolean_field (inner "server" "announce" json)) [
          | none ↦ none
          | some announce ↦ elim (servers_field (member "pinnedServers" json)) [
            | none ↦ none
            | some servers ↦ some (record {
              mode = mode;
              ldap = ldap;
              lan = lan;
              cloud = cloud;
              announce = announce;
              pinned_servers = servers;
            })
          ]
        ]
      ]
    ]
  ]
]

abbrev pub mode_name : Mode → String
mode_name single = "single"
mode_name server = "server"
mode_name client = "client"

abbrev pub server_json : PinnedServer → Json
server_json s = object (
    with_member "id" (text s.id) (
      with_member "fingerprint" (text s.fingerprint)
        (with_member "url" (text s.url) (with_member "addedAt" (text s.added_at) Members.done))))

abbrev pub servers_json : List PinnedServer → Elements
servers_json [] = no_more
servers_json (s ∷ servers) = element (server_json s) (servers_json servers)

-- The value of a configuration that `JSON.stringify` writes.
abbrev pub config_json : Config → Json
config_json c = object (
    with_member "mode" (text (mode_name c.mode)) (
      with_member "ldap" (object c.ldap) (
        with_member "discovery"
          (object (
            with_member "lan" (boolean c.lan) (with_member "cloud" (boolean c.cloud) Members.done)))
          (with_member "server" (object (with_member "announce" (boolean c.announce) Members.done))
            (with_member "pinnedServers" (array (servers_json c.pinned_servers)) Members.done)))))

-- CONFIG_PATH, and the file beside it that is renamed.
pub record Files : Type 0 where
  pub config : Option Json
  pub tmp : Option Json

-- A file operation that fails, or a body that the schema refuses: the request gets no answer.
pub data Failure : Type 0 where
  io : Failure
  refused : Failure

abbrev pub Step : Type 0 → Type 0
Step A = Action (Db Files (Unit {0})) Failure A

-- `readConfig` on what the file holds; a file that cannot be read counts as missing.
unfoldable pub read_config : Option Json → Config
unfolding parse_config default_config
read_config none = default_config
read_config (some json) = elim (parse_config json) [ none ↦ default_config | some c ↦ c ]

-- `writeConfig`
unfoldable pub write_config : Json → Step (Unit {0})
unfolding parse_config
write_config cfg = elim (parse_config cfg) [
  | none ↦ throw refused
  | some c ↦ do
    written ← query io (λ t. (tt, record t { tmp = some (config_json c) }))
    renamed ← query io (λ t. (tt, record t { config = t.tmp; tmp = none }))
    pure tt
]

-- 'good', 'ok' and 'poor'
pub data Score : Type 0 where
  good fair poor : Score

-- `computeScore`, over the cores and the bytes; a share below 0.2 is a fifth of more than the whole.
unfoldable pub compute_score :
    (cores memory_free memory_total disk_free disk_total : ℕ) → Score × List String
compute_score cores memory_free memory_total disk_free disk_total =
    let few : Bool = ltb cores 2 in
    let small : Bool = ltb (memory_free * 5) memory_total in
    let full : Bool = ltb (disk_free * 10) disk_total in
    let rationale : List String =
      (if few then "Low CPU core count" ∷ [] else [])
      ++ ((if small then "Low free memory" ∷ [] else [])
          ++ (if full then "Low disk space" ∷ [] else [])) in
    let score : Score = if full then poor else if small then fair else if few then fair else good in
    (score, if eqb (length rationale) 0 then "System resources sufficient" ∷ [] else rationale)
