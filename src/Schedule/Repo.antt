-- ===== src/Schedule/Repo.antt =====
-- The statements of services/incident-svc/src/repo/schedule.repo.ts on the tables, with the overlap
-- queries of services/schedule.service.ts.
use tactix.Common.{
  ℕ, String, Bool, true, false, ◌&&◌, ◌||◌, not, Option, none, some, List, [], ◌∷◌, ◌++◌, map, any,
  keep, first, ltb, leb, ◌==◌, truthy, if◌then◌else◌,
}
use tactix.Schedule.{ShiftInput, ShiftPatch, ShiftRow, RosterRow, Tables}

abbrev pub given : Option String → String
given none = ""
given (some s) = s

-- ` AND column=$n` if the filter is truthy
abbrev pub matches : Option String → String → Bool
matches filter column = if truthy filter then column == given filter else true

abbrev pub matches_flag : Option Bool → Bool → Bool
matches_flag none column = true
matches_flag (some true) column = column
matches_flag (some false) column = not column

unfoldable pub list_roster : String → Option String → Option Bool → Tables → List RosterRow
list_roster op role active t =
    keep (λ r. r.operation_id == op && matches role r.role && matches_flag active r.active) t.roster

-- ` AND starts_at < to AND ends_at > from`, only with both
abbrev pub in_window : Option ℕ → Option ℕ → ShiftRow → Bool
in_window (some from) (some to) r = ltb r.starts_at to && ltb from r.ends_at
in_window _ _ r = true

unfoldable pub list_shifts :
    String → Option ℕ → Option ℕ → Option String → Option String → Tables → List ShiftRow
list_shifts op from to role user t =
    keep
      (λ r.
        r.operation_id == op
        && in_window from to r
        && matches role r.role
        && matches user r.user_upn)
      t.shifts

-- WHERE operation_id=$1 AND shift_id=$2
abbrev pub is_shift : String → String → ShiftRow → Bool
is_shift op id r = r.operation_id == op && r.shift_id == id

unfoldable pub get_shift : String → String → Tables → Option ShiftRow
get_shift op id t = first (keep (is_shift op id) t.shifts)

-- VALUES (gen_random_uuid(), …), RETURNING *
abbrev pub new_shift : String → ShiftInput → ℕ → ℕ → String → String → ℕ → ShiftRow
new_shift op input start end created_by id now = record {
  shift_id = id;
  operation_id = op;
  user_upn = input.user_upn;
  role = input.role;
  starts_at = start;
  ends_at = end;
  notes = input.notes;
  created_by = created_by;
  created_at = now;
  updated_at = now;
}

-- The columns that `updateShift` of the repository sets; the trigger touches updated_at.
abbrev pub set_text : Option String → String → String
set_text new old = if truthy new then given new else old

abbrev pub set_time : Option ℕ → ℕ → ℕ
set_time none old = old
set_time (some new) old = new

abbrev pub set_notes : Option String → Option String → Option String
set_notes none old = old
set_notes (some new) old = some new

abbrev pub patched : ShiftPatch → Option ℕ → Option ℕ → ℕ → ShiftRow → ShiftRow
patched patch start end now r = record r {
  user_upn = set_text patch.user_upn r.user_upn;
  role = set_text patch.role r.role;
  starts_at = set_time (if truthy patch.starts_at then start else none) r.starts_at;
  ends_at = set_time (if truthy patch.ends_at then end else none) r.ends_at;
  notes = set_notes patch.notes r.notes;
  updated_at = now;
}

abbrev pub has_notes : Option String → Bool
has_notes none = false
has_notes (some s) = true

-- `if (!fields.length)`
abbrev pub sets_nothing : ShiftPatch → Bool
sets_nothing patch = not (
    truthy patch.user_upn
    || truthy patch.role
    || truthy patch.starts_at
    || truthy patch.ends_at
    || has_notes patch.notes)

unfoldable pub update_rows :
    (ShiftRow → Bool) → (ShiftRow → ShiftRow) → List ShiftRow → List ShiftRow
update_rows test change [] = []
update_rows test change (r ∷ rs) =
    let rest = update_rows test change rs in if test r then change r ∷ rest else r ∷ rest

unfoldable pub delete_shift : String → String → Tables → Tables
delete_shift op id t = record t { shifts = keep (λ r. not (is_shift op id r)) t.shifts }

-- `rows.length > 0`
unfoldable pub roster_exists : String → String → String → Tables → Bool
roster_exists op user role t =
    any (λ r. r.operation_id == op && r.user_upn == user && r.role == role && r.active) t.roster

-- WHERE operation_id=$1 AND user_upn=$2 AND role=$3 AND starts_at < $5 AND ends_at > $4
abbrev pub clashes : String → String → String → ℕ → ℕ → ShiftRow → Bool
clashes op user role start end r =
    r.operation_id == op
    && r.user_upn == user
    && r.role == role
    && ltb r.starts_at end
    && ltb start r.ends_at

-- What `listActiveAt` selects of a shift and the roster row that it is joined with.
pub record ActiveRow : Type 0 where
  pub shift_id : String
  pub user_upn : String
  pub role : String
  pub ends_at : ℕ
  pub display_name : Option String

abbrev pub joins : ShiftRow → RosterRow → Bool
joins s r = r.operation_id == s.operation_id && r.user_upn == s.user_upn && r.role == s.role

abbrev pub active_row : ShiftRow → Option String → ActiveRow
active_row s name = record {
  shift_id = s.shift_id;
  user_upn = s.user_upn;
  role = s.role;
  ends_at = s.ends_at;
  display_name = name;
}

-- LEFT JOIN: a shift that no roster row joins stays, with no name.
abbrev pub left_join : ShiftRow → List RosterRow → List ActiveRow
left_join s [] = active_row s none ∷ []
left_join s (r ∷ rs) = active_row s r.display_name ∷ map (λ x. active_row s x.display_name) rs

unfoldable pub join_all : List RosterRow → List ShiftRow → List ActiveRow
join_all roster [] = []
join_all roster (s ∷ ss) = left_join s (keep (joins s) roster) ++ join_all roster ss

abbrev pub is_active_at : String → ℕ → ShiftRow → Bool
is_active_at op at s = s.operation_id == op && leb s.starts_at at && ltb at s.ends_at

unfoldable pub list_active_at : String → ℕ → Tables → List ActiveRow
unfolding join_all
list_active_at op at t = join_all t.roster (keep (is_active_at op at) t.shifts)
