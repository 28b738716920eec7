-- ===== src/Schedule/Service/Invariant.antt =====
-- services/schedule.service.ts: sequences of calls of its operations, on well-formed tables.
use tactix.Common.{ℕ, String, ◌≡◌, Bool, Option, none, List}
use tactix.Action.{tick}
use tactix.Schedule.{ShiftInput, ShiftPatch, RosterRow}
use tactix.Schedule.Service.{Config, Schedule, create_shift, update_shift, delete_shift_of}
use tactix.Schedule.Service.Apart.{IsFresh}
use tactix.Schedule.Service.Valid.{IsNamed, IsValid, create_shift-IsValid, delete_shift_of-IsValid}
use tactix.Schedule.Service.Kept.{update_shift-IsValid}

module _ (date : String → Option ℕ) (cfg : Config) where
  -- A call of an operation, whatever it answers; new rows of the roster, which other programs write;
  -- and another oracle of the queries to come.
  pub data Step : Schedule → Schedule → Type 0 where
    create :
        {s : Schedule} (now : ℕ) (op : String) (input : ShiftInput) (created_by id : String)
        → IsFresh id s.tables.shifts
        → Step s (create_shift date cfg now op input created_by id s).1
    update :
        {s : Schedule} (now : ℕ) (op id : String) (patch : ShiftPatch)
        → Step s (update_shift date cfg now op id patch s).1
    delete : {s : Schedule} (op id : String) → Step s (delete_shift_of date cfg op id s).1
    seed :
        {s : Schedule} (rows : List RosterRow)
        → IsNamed rows
        → Step s (record s { tables = record s.tables { roster = rows } })
    weather : {s : Schedule} (faults : List Bool) → Step s (tick s faults)

  pub data Steps : Schedule → Schedule → Type 0 where
    done : {s : Schedule} → Steps s s
    more : {s t u : Schedule} → Step s t → Steps t u → Steps s u

  Step-IsValid : {s t : Schedule} → date "" ≡ none → Step s t → IsValid s.tables → IsValid t.tables
  Step-IsValid empty (create now op input created_by id fresh) v =
      create_shift-IsValid date cfg now op input created_by id _ fresh v
  Step-IsValid empty (update now op id patch) v =
      update_shift-IsValid date cfg now op id patch _ empty v
  Step-IsValid empty (delete op id) v = delete_shift_of-IsValid date cfg op id _ v
  Step-IsValid empty (seed rows named) v = record { named = named; apart = v.apart }
  Step-IsValid empty (weather faults) v = v

  -- Whatever calls are made one after another, failing queries included, from valid tables only
  -- valid tables are reached: no two shifts of one user in one role overlap. The identifiers that
  -- the database draws are new, the roster names users and roles, and the empty text is no date.
  pub Steps-IsValid :
      {s t : Schedule} → date "" ≡ none → Steps s t → IsValid s.tables → IsValid t.tables
  Steps-IsValid empty done v = v
  Steps-IsValid empty (more a l) v = Steps-IsValid empty l (Step-IsValid empty a v)
