-- ===== src/Schedule/Tests.antt =====
-- The theorems on the schedule at a concrete roster, and runs. The clock of the tests counts
-- milliseconds from zero.
use tactix.Common.{
  ℕ, String, ◌≡◌, refl, ap, ◌⊎◌, true, false, Option, none, some, [], ◌∷◌, inl, ◌==◌, if◌then◌else◌,
}
use tactix.Json.{Json, Members, text, object, with_member}
use tactix.Action.{ok, err, query, notify, pure, require, throw, ◌>>=◌}
use tactix.Action.Rules.{Same}
use tactix.Schedule.{ShiftInput, ShiftPatch, ShiftRow, RosterRow, clamp_to_horizon}
use tactix.Schedule.Repo.{get_shift, roster_exists, list_active_at, new_shift}
use tactix.Schedule.Horizon.{clamp_to_horizon-within_horizon}
use tactix.Schedule.Service.{
  Config, code, overlap, thrown, Schedule, create_shift, update_shift, delete_shift_of,
  shift_created, within_horizon,
}
use tactix.Schedule.Service.Errors.{create_shift-IsAtomic, update_shift-IsAtomic}
use tactix.Schedule.Service.Update.{update_shift-needs_all}
use tactix.Schedule.Service.Shown.{IsShown, list_active_at_of-IsShown}
use tactix.Schedule.Service.Valid.{IsValid}
use tactix.Schedule.Service.Invariant.{done, more, Steps-IsValid, create, update}
use tactix.Schedule.Service.Active.{
  Roles, entries, of_role, list_active_at_of, list_active_at_of-entries,
}
use tactix.Schedule.Routes.{post_shifts, parse_shift}
use tactix.Schedule.Routes.Effects.{Accepted, IsRefusal, post_shifts-Effect}

abbrev date : String → Option ℕ
date s =
    if s == "one"
    then some 3_600_000
    else if s == "two"
    then some 7_200_000
    else if s == "three"
    then some 10_800_000
    else none

abbrev cfg : Config
cfg = record { shift_max_hours = 1; allow_oversize_shifts = false; schedule_horizon_days = 1 }

abbrev member_of : String → RosterRow
member_of user = record {
  operation_id = "op";
  user_upn = user;
  role = "medic";
  display_name = some "Ann";
  active = true;
}

abbrev none_yet : Schedule
none_yet = record {
  tables = record { roster = member_of "ann" ∷ []; shifts = [] };
  sent = [];
  faults = [];
}

abbrev early : ShiftInput
early = record {
  user_upn = "ann";
  role = "medic";
  starts_at = "one";
  ends_at = "two";
  notes = none;
}

abbrev long : ShiftInput
long = record early { ends_at = "three" }

abbrev first_shift : ShiftRow
first_shift = new_shift "op" early 3_600_000 7_200_000 "system" "s1" 0

abbrev one_shift : Schedule
one_shift = record none_yet {
  tables = record { roster = member_of "ann" ∷ []; shifts = first_shift ∷ [] };
  sent = shift_created "op" first_shift ∷ [];
}

abbrev move : ShiftPatch
move = record {
  user_upn = some "ann";
  role = some "medic";
  starts_at = some "two";
  ends_at = some "three";
  notes = none;
}

abbrev move_end : ShiftPatch
move_end = record {
  user_upn = none;
  role = none;
  starts_at = none;
  ends_at = some "three";
  notes = none;
}

schedule : Unit {0}
unfolding create_shift update_shift delete_shift_of post_shifts parse_shift roster_exists
    list_active_at list_active_at_of get_shift clamp_to_horizon ◌>>=◌ query notify pure require
    throw
schedule = tt

create_tests :
    (create_shift date cfg 0 "op" early "system" "s1" none_yet ≡ (ok first_shift, one_shift))
    × (create_shift date cfg 0 "op" early "system" "s2" one_shift
        ≡ (err (thrown 409 (overlap "s1")), one_shift))
unfolding schedule
create_tests = (refl, refl)

create_shift-IsAtomic_example :
    Same one_shift (create_shift date cfg 0 "op" early "system" "s2" one_shift).1
create_shift-IsAtomic_example =
    (create_shift-IsAtomic date cfg 0 "op" early "system" "s2").at one_shift
      (thrown 409 (overlap "s1")) (ap (λ r. r.0) create_tests.1)

move_test :
    (update_shift date cfg 0 "op" "s2" move one_shift).0 ≡ err (thrown 404 (code "not_found"))
unfolding schedule
move_test = refl

update_shift-IsAtomic_test : Same one_shift (update_shift date cfg 0 "op" "s2" move one_shift).1
update_shift-IsAtomic_test =
    (update_shift-IsAtomic date cfg 0 "op" "s2" move).at one_shift (thrown 404 (code "not_found"))
      move_test

update_shift-needs_all_example :
    ¬ ((update_shift date cfg 0 "op" "s1" move_end one_shift).0 ≡ ok first_shift)
update_shift-needs_all_example =
    update_shift-needs_all date cfg 0 "op" "s1" move_end one_shift first_shift (inl refl)

Steps-IsValid_example :
    IsValid
      (update_shift date cfg 0 "op" "s1" move
        (create_shift date cfg 0 "op" early "system" "s1" none_yet).1).1.tables
Steps-IsValid_example =
    Steps-IsValid date cfg refl
      (more (create 0 "op" early "system" "s1" tt) (more (update 0 "op" "s1" move) done))
      (record { named = (refl, tt); apart = tt })

abbrev medics : Roles
medics =
    (
      "medic",
      record { user_upn = "ann"; display_name = some "Ann"; shift_id = "s1"; ends_at = 7_200_000 }
          ∷ [],
    )
    ∷ []

now_test :
    (list_active_at_of (λ role. role == "toString") "op" (some 3_600_000) one_shift).0 ≡ ok medics
unfolding schedule
now_test = refl

list_active_at_of-entries_test :
    entries "medic" medics ≡ of_role "medic" (list_active_at "op" 3_600_000 one_shift.tables)
list_active_at_of-entries_test =
    list_active_at_of-entries (λ role. role == "toString") "op" 3_600_000 one_shift medics now_test
      "medic"

list_active_at_of-IsShown_example :
    IsShown "op" "medic" 3_600_000 one_shift.tables.roster one_shift.tables.shifts
      (entries "medic" medics)
list_active_at_of-IsShown_example =
    list_active_at_of-IsShown (λ role. role == "toString") "op" 3_600_000 one_shift medics now_test
      "medic"

abbrev body : Json
body = object (
    with_member "userUpn" (text "ann") (
      with_member "role" (text "medic")
        (with_member "startsAt" (text "one") (with_member "endsAt" (text "two") Members.done))))

post_shifts-Effect_example :
    Accepted date cfg 0 "op" body "s1" none_yet
      (post_shifts date cfg 0 "op" body "s1" none_yet).0
      (post_shifts date cfg 0 "op" body "s1" none_yet).1
    ⊎ (IsRefusal (post_shifts date cfg 0 "op" body "s1" none_yet).0
        × Same none_yet (post_shifts date cfg 0 "op" body "s1" none_yet).1)
post_shifts-Effect_example = post_shifts-Effect date cfg 0 "op" body "s1" none_yet

clamp_to_horizon-within_horizon_test :
    (within_horizon date cfg 0 (some (clamp_to_horizon 90_000_000 1 0)) ≡ true)
    × (within_horizon date cfg 0 (some 90_000_000) ≡ true
        → clamp_to_horizon 90_000_000 1 0 ≡ 90_000_000)
clamp_to_horizon-within_horizon_test = clamp_to_horizon-within_horizon date cfg 0 90_000_000
