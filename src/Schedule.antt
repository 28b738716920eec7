-- ===== src/Schedule.antt =====
-- The schedule of an operation: services/incident-svc/src/types/schedule.ts, lib/time.ts and
-- repo/schedule.repo.ts. A table is the list of its rows. A time is a number of milliseconds since
-- the earliest date of JavaScript; `none` is an invalid date.
pub mod Service
pub mod Repo
pub mod Routes
pub mod Horizon
mod Tests
use tactix.Common.{
  ℕ, ◌+◌, ◌-◌, ◌*◌, ◌<◌, String, Bool, true, false, ◌&&◌, ◌||◌, not, Option, none, some, List, [],
  ◌∷◌, ◌++◌, ltb, leb, ◌==◌, if◌then◌else◌,
}

-- `ShiftInput`, from a parsed body
pub record ShiftInput : Type 0 where
  pub user_upn : String
  pub role : String
  pub starts_at : String
  pub ends_at : String
  pub notes : Option String

-- `Partial<ShiftInput>`; `none` is undefined
pub record ShiftPatch : Type 0 where
  pub user_upn : Option String
  pub role : Option String
  pub starts_at : Option String
  pub ends_at : Option String
  pub notes : Option String

-- A row of cp_shifts. `ShiftRow` has the same columns in camel case.
pub record ShiftRow : Type 0 where
  pub shift_id : String
  pub operation_id : String
  pub user_upn : String
  pub role : String
  pub starts_at : ℕ
  pub ends_at : ℕ
  pub notes : Option String
  pub created_by : String
  pub created_at : ℕ
  pub updated_at : ℕ

-- A row of cp_roster.
pub record RosterRow : Type 0 where
  pub operation_id : String
  pub user_upn : String
  pub role : String
  pub display_name : Option String
  pub active : Bool

pub record Tables : Type 0 where
  pub roster : List RosterRow
  pub shifts : List ShiftRow

-- `a < b` on two dates; false if one is invalid
abbrev pub before : Option ℕ → Option ℕ → Bool
before none b = false
before (some a) none = false
before (some a) (some b) = ltb a b

-- `Math.abs(a - b)`
abbrev pub distance : ℕ → ℕ → ℕ
distance a b = (a - b) + (b - a)

-- `durationHours(start, end) > max`, both sides in milliseconds; false if a date is invalid. The
-- code calls it on a start before the end only.
abbrev pub longer_than : ℕ → Option ℕ → Option ℕ → Bool
longer_than max none end = false
longer_than max (some start) none = false
longer_than max (some start) (some end) = ltb (max * 3_600_000) (end - start)

-- `clampToHorizon`
unfoldable pub clamp_to_horizon : ℕ → ℕ → ℕ → ℕ
clamp_to_horizon date horizon_days now =
    let earliest = now - horizon_days * 86_400_000 in
    let latest = now + horizon_days * 86_400_000 in
    if ltb date earliest then earliest else if ltb latest date then latest else date
