-- ===== src/Dispatch/Tests.antt =====
-- Requests to the incident service and the handlers that answer them.
use tactix.Common.{◌≡◌, refl, true, false, none, some, [], ◌∷◌, split_on}
use tactix.Dispatch.{
  word, digits, Rule, health, remove_assignment, read_incident, are_digits, fits, matches, rules,
  applies, dispatch,
}
use tactix.Dispatch.Order.{dispatch-rule_at}

routing : Unit {0}
unfolding are_digits fits matches rules applies dispatch split_on
routing = tt

dispatch_tests :
    (dispatch false "GET" "/health" ≡ some health)
    × (dispatch true "DELETE" "/operations/o1/assignments/a1" ≡ some remove_assignment)
    × (dispatch false "DELETE" "/operations/o1/assignments/a1" ≡ none)
    × (dispatch true "GET" "/incidents/12" ≡ some read_incident)
    × (dispatch true "GET" "/incidents/x" ≡ none)
    × (dispatch true "PATCH" "/incidents/12/tasks/" ≡ none)
unfolding routing
dispatch_tests = (refl, refl, refl, refl, refl, refl)

abbrev reading : Rule
reading = record {
  method = "GET";
  parts = word "" ∷ word "incidents" ∷ digits ∷ [];
  client = false;
  target = read_incident;
}

dispatch-rule_at_example : dispatch true "GET" "/incidents/12" ≡ some read_incident
unfolding routing
dispatch-rule_at_example = dispatch-rule_at true "GET" "/incidents/12" 17 reading refl refl
