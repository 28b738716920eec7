-- ===== src/Notify/Tests.antt =====
-- The store of notifications at concrete calls.
use tactix.Common.{◌≡◌, refl, String, List, [], ◌∷◌}
use tactix.Notify.{
  Notice, info, empty, publish, subscribe, splice, unsubscribe, push, dismiss, Call, subscribing,
  unsubscribing, pushing, dismissing, call, run,
}
use tactix.Notify.Current.{IsCurrent, run-IsCurrent}

store : Unit {0}
unfolding publish subscribe splice unsubscribe push dismiss call run
store = tt

abbrev notice : String → Notice
notice id = record { id = id; severity = info; title = "t"; text = "x"; at = "now" }

abbrev calls : List Call
calls =
    pushing (notice "a")
    ∷ subscribing 1
    ∷ subscribing 2
    ∷ pushing (notice "b")
    ∷ unsubscribing 2
    ∷ dismissing "a"
    ∷ []

run_test :
    run empty calls
    ≡ record { subs = record { key = 1; seen = notice "b" ∷ [] } ∷ []; items = notice "b" ∷ [] }
unfolding store
run_test = refl

run-IsCurrent_example : IsCurrent (run empty calls)
run-IsCurrent_example = run-IsCurrent calls
