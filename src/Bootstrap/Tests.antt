-- ===== src/Bootstrap/Tests.antt =====
-- The configuration and the score at concrete values.
use tactix.Common.{◌≡◌, refl, true, none, [], ◌∷◌}
use tactix.Json.{Json, Members, object}
use tactix.Action.{err, Db, query, pure, throw, ◌>>=◌}
use tactix.Bootstrap.{
  Files, refused, good, fair, poor, default_config, parse_mode, parse_server, parse_servers,
  parse_config, config_json, read_config, write_config, compute_score,
}
use tactix.Bootstrap.Written.{Ends, write_config-Ends}

bootstrap : Unit {0}
unfolding default_config parse_mode parse_server parse_servers parse_config read_config write_config
    compute_score query pure throw ◌>>=◌
bootstrap = tt

score_tests :
    (compute_score 1 1 4 5 100 ≡ (poor, "Low CPU core count" ∷ "Low disk space" ∷ []))
    × (compute_score 4 1 6 50 100 ≡ (fair, "Low free memory" ∷ []))
    × (compute_score 4 1 5 10 100 ≡ (good, "System resources sufficient" ∷ []))
unfolding bootstrap
score_tests = (refl, refl, refl)

abbrev db : Db Files (Unit {0})
db = record { tables = record { config = none; tmp = none }; sent = []; faults = [] }

refused_test : (write_config (object Members.done) db).0 ≡ err refused
unfolding bootstrap
refused_test = refl

abbrev body : Json
body = config_json (record default_config { cloud = true })

write_config-Ends_example :
    Ends body db.tables (write_config body db).0 (write_config body db).1.tables
write_config-Ends_example = write_config-Ends body db
