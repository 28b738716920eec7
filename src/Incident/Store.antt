-- ===== src/Incident/Store.antt =====
-- services/incident/src/infrastructure/EventStore.ts: what the API relies on, and the in-memory
-- implementation.
use tactix.Common.{String, ◌≡◌, List, [], ◌∷◌, ◌++◌, ◌==◌, eq_iff, arith, if◌then◌else◌}
use tactix.Incident.{IncidentEvent}

-- The interface `EventStore`, with the promise that its clients rely on: the events of an
-- incident come back in the order of the appends, and an append is seen by no other incident.
pub record EventStore : Type 1 where
  pub Contents : Type 0
  pub append : Contents → String → IncidentEvent → Contents
  pub load : Contents → String → List IncidentEvent
  pub load-append :
      (s : Contents) (id other : String) (event : IncidentEvent)
      → load (append s id event) other
        ≡ (if id == other then load s id ++ (event ∷ []) else load s other)

-- `Map<string, IncidentEvent[]>`
abbrev pub EventMap : Type 0
EventMap = List (String × List IncidentEvent)

-- `events.get(id) ?? []`
unfoldable pub load : EventMap → String → List IncidentEvent
load [] id = []
load ((k, events) ∷ rest) id = if k == id then events else load rest id

-- `arr.push(event)` and `events.set(id, arr)`, for an old or a new array
unfoldable pub append : EventMap → String → IncidentEvent → EventMap
append [] id event = (id, event ∷ []) ∷ []
append ((k, events) ∷ rest) id event =
    let later = append rest id event in
    if k == id then (k, events ++ (event ∷ [])) ∷ rest else (k, events) ∷ later

-- The in-memory store keeps the promise.
pub load-append :
    (s : EventMap) (id other : String) (event : IncidentEvent)
    → load (append s id event) other
      ≡ (if id == other then load s id ++ (event ∷ []) else load s other)
unfolding load append
load-append [] id other event = ground (arith, eq_iff id other)
load-append ((k, events) ∷ rest) id other event =
    ground (arith, eq_iff k id, eq_iff k other, eq_iff id other, load-append rest id other event)

abbrev pub in_memory_event_store : EventStore
in_memory_event_store = record {
  Contents = EventMap;
  append = append;
  load = load;
  load-append = load-append;
}
