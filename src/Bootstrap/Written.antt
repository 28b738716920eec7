-- ===== src/Bootstrap/Written.antt =====
-- services/bootstrap-svc/src/index.ts: what is written is read again.
use tactix.Common.{◌≡◌, refl, Option, none, some, List, [], ◌∷◌, Option-cases, inl, inr}
use tactix.Json.{Json, text}
use tactix.Action.{Result, ok, err, Db, throw}
use tactix.Action.Outcome.{Outcome-query, Outcome-pure}
use tactix.Bootstrap.{
  Mode, single, server, client, PinnedServer, Config, Files, Failure, io, refused, parse_mode,
  parse_server, parse_servers, parse_config, mode_name, servers_json, config_json, read_config,
  write_config,
}

parse_mode-mode_name : (m : Mode) → parse_mode (some (text (mode_name m))) ≡ some m
unfolding parse_mode
parse_mode-mode_name single = refl
parse_mode-mode_name server = refl
parse_mode-mode_name client = refl

parse_servers-servers_json :
    (servers : List PinnedServer) → parse_servers (servers_json servers) ≡ some servers
unfolding parse_servers parse_server
parse_servers-servers_json [] = refl
parse_servers-servers_json (s ∷ servers) = rw (parse_servers-servers_json servers) refl

pub parse_config-config_json : (c : Config) → parse_config (config_json c) ≡ some c
unfolding parse_config
parse_config-config_json c =
    rw (parse_config, parse_mode-mode_name c.mode, parse_servers-servers_json c.pinned_servers) refl

-- The ways in which a write of the configuration ends, with the files that it leaves.
pub data Ends (cfg : Json) (t : Files) : Result Failure (Unit {0}) → Files → Type 0 where
  denied : parse_config cfg ≡ none → Ends cfg t (err refused) t
  broken : (tmp : Option Json) → Ends cfg t (err io) (record t { tmp = tmp })
  written :
      (c : Config) (u : Files)
      → parse_config cfg ≡ some c
      → read_config u.config ≡ c
      → Ends cfg t (ok tt) u

read_config-config_json : (c : Config) → read_config (some (config_json c)) ≡ c
unfolding read_config
read_config-config_json c = rw (read_config, parse_config-config_json c) refl

-- A write of the configuration stores one that the next read gives back, exactly as the schema read it
-- from the body; a body that the schema refuses changes no file, and a file operation that fails on the
-- way leaves the configuration as it was.
pub write_config-Ends :
    (cfg : Json) (s : Db Files (Unit {0}))
    → Ends cfg s.tables (write_config cfg s).0 (write_config cfg s).1.tables
unfolding write_config throw
write_config-Ends cfg s = elim (Option-cases (parse_config cfg)) [
  | inl bad ↦ rw (write_config, bad) (denied bad)
  | inr (c, good) ↦
      rw (write_config, good)
        ((Outcome-query s.tables io _ _ (Ends cfg s.tables) (broken s.tables.tmp) (
            Outcome-query _ io _ _ (Ends cfg s.tables) (broken (some (config_json c))) (
              Outcome-pure _ tt (Ends cfg s.tables)
                (written c _ good (read_config-config_json c))))).at
          s refl)
]
