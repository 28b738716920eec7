-- ===== src/ZeroTrust/Tests.antt =====
-- The theorems on the zero-trust switch at concrete calls, and runs.
use tactix.Common.{String, Bool, ◌==◌, ◌≡◌, refl, true, false, Option, none, some, List, [], ◌∷◌}
use tactix.Json.{Json, Members, object, boolean, with_member}
use tactix.Action.{ok, err, query, modify, attempt, pure, ◌>>=◌}
use tactix.ZeroTrust.{
  db_source, default_source, Process, shown, forbidden, toggle_locked, rejected, resolve_zero_trust,
  get_zero_trust, put_zero_trust, zero_trust_gate, may_administer, get_security_settings,
  update_zero_trust_enabled, bust_zero_trust_cache, get_zero_trust_enabled,
}
use tactix.ZeroTrust.Lock.{show_call, put_call, stop, more, zero_trust_gate_strict}
use tactix.ZeroTrust.Toggle.{IsToggled, put_zero_trust-IsToggled}

switch : Unit {0}
unfolding resolve_zero_trust get_zero_trust put_zero_trust zero_trust_gate get_security_settings
    update_zero_trust_enabled bust_zero_trust_cache get_zero_trust_enabled query modify attempt pure
    ◌>>=◌
switch = tt

abbrev plain : String
plain = "next"

abbrev fails : String → Bool
fails chain = chain == "strict"

abbrev begin : Process
begin = record { tables = record { cache = none; row = none; audit = [] }; sent = []; faults = [] }

abbrev turn_on : Option Json
turn_on = some (object (with_member "enabled" (boolean true) Members.done))

abbrev admin : List String
admin = "Admin" ∷ []

abbrev on : Process
on = (put_zero_trust false false admin (some "ann") turn_on 10 11 begin).1

run_tests :
    ((put_zero_trust false false admin (some "ann") turn_on 10 11 begin).0
      ≡ ok (shown true false db_source (some 11) (some "ann")))
    × ((put_zero_trust true false admin (some "ann") turn_on 10 11 begin).0 ≡ ok toggle_locked)
    × ((put_zero_trust false false [] none turn_on 10 11 begin).0 ≡ ok forbidden)
    × ((put_zero_trust false false admin none turn_on 10 11 (record begin { faults = true ∷ [] })).0
        ≡ err rejected)
    × ((put_zero_trust false false admin none turn_on 10 11
          (record begin { faults = false ∷ true ∷ [] })).0
        ≡ ok (shown false false default_source (some 11) (some "system")))
    × ((zero_trust_gate false false fails plain (some "standard") (some "strict") 12 on).0
        ≡ ok ("strict" ∷ "standard" ∷ []))
    × ((zero_trust_gate false false fails plain none none 12 begin).0 ≡ ok ("next" ∷ []))
unfolding switch
run_tests = (refl, refl, refl, refl, refl, refl, refl)

put_zero_trust-IsToggled_test :
    (may_administer admin ≡ true)
    × (false ≡ false)
    × IsToggled false "ann" true 10 begin.tables
        (shown true false db_source (some 11) (some "ann"))
        on.tables
put_zero_trust-IsToggled_test =
    put_zero_trust-IsToggled false false admin (some "ann") turn_on 10 11 begin true false db_source
      (some 11) (some "ann") (run_tests.0)

zero_trust_gate_strict_example :
    (zero_trust_gate true false fails plain
      (some "standard")
      (some "strict")
      20
      (put_zero_trust true false admin none turn_on 10 11
        (get_zero_trust true false admin 5 begin).1).1).0
    ≡ ok ("strict" ∷ "standard" ∷ [])
zero_trust_gate_strict_example =
    zero_trust_gate_strict false String {s = begin} fails "next" "strict" (some "standard") 20
      (more (show_call admin 5) (more (put_call admin none turn_on 10 11) stop)) refl
