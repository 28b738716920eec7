-- ===== src/Schedule/Service.antt =====
-- services/incident-svc/src/services/schedule.service.ts: the operations on shifts. `date` is how
-- `Date` and the database read a text as a time, `now` the time of the call, and `id` the UUID
-- that the database draws.
pub mod Overlap
pub mod Apart
pub mod Update
pub mod Valid
pub mod Kept
pub mod Invariant
pub mod Errors
pub mod Active
pub mod Shown
pub mod Accepts
use tactix.Common.{
  ℕ, ◌*◌, String, Bool, true, false, ◌&&◌, ◌||◌, not, Option, none, some, List, [], ◌∷◌, ◌++◌, map,
  find, first, keep, leb, ◌==◌, truthy, if◌then◌else◌,
}
use tactix.Action.{Action, Result, ok, err, Db, query, notify, require, throw, pure, ◌>>=◌, ◌>>◌}
use tactix.Schedule.{
  ShiftInput, ShiftPatch, ShiftRow, RosterRow, Tables, before, distance, longer_than,
}
use tactix.Schedule.Repo.{
  given, list_roster, list_shifts, get_shift, new_shift, patched, sets_nothing, update_rows,
  delete_shift, is_shift, roster_exists, clashes, ActiveRow, list_active_at,
}

-- SHIFT_MAX_HOURS, ALLOW_OVERSIZE_SHIFTS and SCHEDULE_HORIZON_DAYS; whole numbers.
pub record Config : Type 0 where
  pub shift_max_hours : ℕ
  pub allow_oversize_shifts : Bool
  pub schedule_horizon_days : ℕ

-- The body of a thrown error.
pub data ErrorBody : Type 0 where
  code : String → ErrorBody
  duration_exceeds_max : (max_hours : ℕ) → ErrorBody
  overlap : (conflicting_shift_id : String) → ErrorBody

-- `throwErr(status, body)`, a call of what is no function, or a query that the database rejects
pub data Failure : Type 0 where
  thrown : ℕ → ErrorBody → Failure
  type_error : Failure
  rejected : Failure

pub data Envelope : Type 0 where
  shift_created shift_updated : (operation_id : String) → ShiftRow → Envelope
  shift_deleted : (operation_id shift_id : String) → Envelope

abbrev pub Schedule : Type 0
Schedule = Db Tables Envelope

abbrev pub Handler : Type 0 → Type 0
Handler A = Action Schedule Failure A

-- A statement that only reads.
abbrev pub select {ℓ} : {A : Type ℓ} → (Tables → A) → Tables → A × Tables
select f t = (f t, t)

-- `throwErr(409, …)` for a row that the overlap query returns
abbrev pub no_conflict : Option ShiftRow → Handler (Unit {0})
no_conflict none = pure tt
no_conflict (some r) = throw (thrown 409 (overlap r.shift_id))

-- Statements with times: the database rejects a text that is no time.
abbrev pub with_times {ℓ} : {A : Type ℓ} → Option ℕ → Option ℕ → A → (ℕ → ℕ → A) → A
with_times none end d f = d
with_times (some start) none d f = d
with_times (some start) (some end) d f = f start end

abbrev pub or_rejected : Option ℕ → Handler ℕ
or_rejected none = throw rejected
or_rejected (some t) = pure t

abbrev pub or_not_found : Option ShiftRow → Handler ShiftRow
or_not_found none = throw (thrown 404 (code "not_found"))
or_not_found (some r) = pure r

-- A field of `{ ...existing, ...patch }` that both have.
abbrev pub or_value : Option String → String → String
or_value none old = old
or_value (some new) old = new

-- The row that an UPDATE has returned, after the change.
abbrev pub insert_statement : ShiftRow → Tables → ShiftRow × Tables
insert_statement row t = (row, record t { shifts = t.shifts ++ (row ∷ []) })

abbrev pub update_statement :
    String → String → (ShiftRow → ShiftRow) → Tables → Option ShiftRow × Tables
update_statement op id change t = (
  first (map change (keep (is_shift op id) t.shifts)),
  record t { shifts = update_rows (is_shift op id) change t.shifts },
)

-- A comparison with NULL finds nothing.
abbrev pub roster_exists_for : String → Option String → String → Tables → Bool
roster_exists_for op none role t = false
roster_exists_for op (some user) role t = roster_exists op user role t

module _ (date : String → Option ℕ) (cfg : Config) where
  -- `new Date(x)` of a text or of undefined
  abbrev pub date_of : Option String → Option ℕ
  date_of none = none
  date_of (some s) = date s

  -- `withinHorizon`
  abbrev pub within_horizon : ℕ → Option ℕ → Bool
  within_horizon now none = false
  within_horizon now (some t) = leb (distance t now) (cfg.schedule_horizon_days * 86_400_000)

  -- the tests on the times that `createShift` and `updateShift` begin with
  abbrev pub check_times : ℕ → Option ℕ → Option ℕ → Handler (Unit {0})
  check_times now start end = do
    require (before start end) (thrown 400 (code "invalid_time"))
    require (within_horizon now start && within_horizon now end)
        (thrown 400 (code "out_of_horizon"))
    require (not (longer_than cfg.shift_max_hours start end && not cfg.allow_oversize_shifts))
        (thrown 400 (duration_exceeds_max cfg.shift_max_hours))

  -- `createShift`, behind its first two lines
  unfoldable pub create_between :
      (start end : Option ℕ) (now : ℕ) (op : String)
      → ShiftInput
      → (created_by id : String) → Handler ShiftRow
  create_between start end now op input created_by id = do
    check_times now start end
    roster_ok ← query rejected (select (roster_exists op input.user_upn input.role))
    require roster_ok (thrown 400 (code "not_in_roster"))
    conflict ← with_times start end (throw rejected) (λ s e.
        query rejected (select (λ t. find (clashes op input.user_upn input.role s e) t.shifts)))
    no_conflict conflict
    row ←
        with_times start end (throw rejected)
          (λ s e. query rejected (insert_statement (new_shift op input s e created_by id now)))
    notify (shift_created op row)
    pure row

  unfoldable pub create_shift :
      (now : ℕ) (op : String) → ShiftInput → (created_by id : String) → Handler ShiftRow
  unfolding create_between
  create_shift now op input created_by id =
      create_between (date input.starts_at) (date input.ends_at) now op input created_by id

  -- `updateShift`, behind the line that computes `end`
  unfoldable pub update_between :
      (start end : Option ℕ) (role : String) (now : ℕ) (op id : String)
      → ShiftPatch
      → Handler ShiftRow
  update_between start end role now op id patch = do
    check_times now start end
    roster_ok ← query rejected (select (roster_exists_for op patch.user_upn role))
    require roster_ok (thrown 400 (code "not_in_roster"))
    conflict ← with_times start end (throw rejected) (λ s e. query rejected (
        select (λ t.
          find (λ r. clashes op (given patch.user_upn) role s e r && not (r.shift_id == id))
            t.shifts)))
    no_conflict conflict
    updated ← query rejected (
        if sets_nothing patch
        then select (get_shift op id)
        else update_statement op id (patched patch start end now))
    row ← or_not_found updated
    notify (shift_updated op row)
    pure row

  -- `next` is `{ ...existing, ...patch }`: the row has snake-case columns, so that `role` is taken
  -- from the row if the patch has none, and the camel-case fields are the patch's or undefined.
  unfoldable pub update_shift : (now : ℕ) (op id : String) → ShiftPatch → Handler ShiftRow
  unfolding update_between
  update_shift now op id patch = do
    found ← query rejected (select (get_shift op id))
    existing ← or_not_found found
    update_between (date_of patch.starts_at) (date_of patch.ends_at)
        (or_value patch.role existing.role) now op id patch

  unfoldable pub delete_shift_of : (op id : String) → Handler (Unit {0})
  delete_shift_of op id = do
    query rejected (λ t. let done : Unit {0} = tt in (done, delete_shift op id t))
    notify (shift_deleted op id)

  -- `listShifts`: the window counts if both texts are truthy.
  unfoldable pub list_shifts_of :
      String → (from to role user : Option String) → Handler (List ShiftRow)
  list_shifts_of op from to role user =
      if truthy from && truthy to
      then with_times (date_of from) (date_of to) (throw rejected)
          (λ f t. query rejected (select (list_shifts op (some f) (some t) role user)))
      else query rejected (select (list_shifts op none none role user))

  unfoldable pub list_roster_of : String → Option String → Option Bool → Handler (List RosterRow)
  list_roster_of op role active = query rejected (select (list_roster op role active))
