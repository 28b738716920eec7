-- ===== src/Schedule/Service/Shown.antt =====
-- services/schedule.service.ts and repo/schedule.repo.ts: what listActiveAt shows under a role, shift by
-- shift.
use mathlib.Core.Path.{subst}
use tactix.Common.{
  ℕ, ◌≤◌, ◌<◌, String, ◌≡◌, refl, sym, Bool, true, false, ◌&&◌, Option, some, none, List, [], ◌∷◌,
  ◌++◌, map, keep, ◌==◌, eq_iff, Bool-cases, inl, inr, arith, if◌then◌else◌,
}
use tactix.Action.{ok}
use tactix.Schedule.{ShiftRow, RosterRow}
use tactix.Schedule.Repo.{
  ActiveRow, joins, active_row, left_join, join_all, is_active_at, list_active_at,
}
use tactix.Schedule.Service.{Schedule}
use tactix.Schedule.Service.Active.{
  ActiveEntry, Roles, entries, of_role, list_active_at_of, list_active_at_of-entries,
}

-- The roster row is one of the user of the shift, in its operation and role.
abbrev pub IsHis : ShiftRow → RosterRow → Type 0
IsHis s r = (r.operation_id ≡ s.operation_id) × (r.user_upn ≡ s.user_upn) × (r.role ≡ s.role)

-- The names that the roster has for the user of a shift, in order.
pub data HasNames (s : ShiftRow) : List RosterRow → List (Option String) → Type 0 where
  no_rows : HasNames s [] []
  his :
      {r : RosterRow} {rs : List RosterRow} {names : List (Option String)}
      → IsHis s r
      → HasNames s rs names
      → HasNames s (r ∷ rs) (r.display_name ∷ names)
  not_his :
      {r : RosterRow} {rs : List RosterRow} {names : List (Option String)}
      → ¬ IsHis s r
      → HasNames s rs names
      → HasNames s (r ∷ rs) names

-- The shift is one of the operation and the role, and has begun and not ended at the time.
abbrev pub IsActive : (op role : String) (at : ℕ) → ShiftRow → Type 0
IsActive op role at s =
    (s.operation_id ≡ op) × (s.role ≡ role) × (s.starts_at ≤ at) × (at < s.ends_at)

abbrev pub entry : ShiftRow → (name : Option String) → ActiveEntry
entry s name = record {
  user_upn = s.user_upn;
  display_name = name;
  shift_id = s.shift_id;
  ends_at = s.ends_at;
}

-- One entry for each name, or one without a name.
abbrev pub shown : ShiftRow → List (Option String) → List ActiveEntry
shown s [] = entry s none ∷ []
shown s (name ∷ names) = entry s name ∷ map (entry s) names

-- The entries of the active shifts, in order.
pub data IsShown (op role : String) (at : ℕ) (roster : List RosterRow)
    : List ShiftRow → List ActiveEntry → Type 0 where
  no_shifts : IsShown op role at roster [] []
  active :
      {s : ShiftRow} {ss : List ShiftRow} {es : List ActiveEntry} (names : List (Option String))
      → IsActive op role at s
      → HasNames s roster names
      → IsShown op role at roster ss es
      → IsShown op role at roster (s ∷ ss) (shown s names ++ es)
  inactive :
      {s : ShiftRow} {ss : List ShiftRow} {es : List ActiveEntry}
      → ¬ IsActive op role at s
      → IsShown op role at roster ss es
      → IsShown op role at roster (s ∷ ss) es

abbrev names_in : ShiftRow → List RosterRow → List (Option String)
names_in s roster = map (λ r. r.display_name) (keep (joins s) roster)

joins-IsHis : (s : ShiftRow) (r : RosterRow) → joins s r ≡ true → IsHis s r
joins-IsHis s r h = (
  ground (arith, eq_iff r.operation_id s.operation_id),
  ground (arith, eq_iff r.user_upn s.user_upn),
  ground (arith, eq_iff r.role s.role),
)

joins_complete : (s : ShiftRow) (r : RosterRow) → IsHis s r → joins s r ≡ true
joins_complete s r (same, user, role) = ground (
  arith,
  eq_iff r.operation_id s.operation_id,
  eq_iff r.user_upn s.user_upn,
  eq_iff r.role s.role,
)

names_in-HasNames : (s : ShiftRow) (roster : List RosterRow) → HasNames s roster (names_in s roster)
names_in-HasNames s [] = no_rows
names_in-HasNames s (r ∷ rs) = elim (Bool-cases (joins s r)) [
  | inl hit ↦ rw hit (his (joins-IsHis s r hit) (names_in-HasNames s rs))
  | inr miss ↦
      rw miss
        (not_his (λ mine. absurd (cc (joins_complete s r mine, miss))) (names_in-HasNames s rs))
]

of_role-append :
    (role : String) (xs ys : List ActiveRow)
    → of_role role (xs ++ ys) ≡ of_role role xs ++ of_role role ys
of_role-append role [] ys = refl
of_role-append role (x ∷ xs) ys = ground (arith, of_role-append role xs ys)

of_role-map :
    (role : String) (s : ShiftRow) (rs : List RosterRow)
    → of_role role (map (λ x. active_row s x.display_name) rs)
      ≡ (if s.role == role then map (entry s) (map (λ r. r.display_name) rs) else [])
of_role-map role s [] = ground arith
of_role-map role s (r ∷ rs) = ground (arith, of_role-map role s rs)

of_role-left_join :
    (role : String) (s : ShiftRow) (rs : List RosterRow)
    → of_role role (left_join s rs)
      ≡ (if s.role == role then shown s (map (λ r. r.display_name) rs) else [])
of_role-left_join role s [] = ground arith
of_role-left_join role s (r ∷ rs) = ground (arith, of_role-map role s rs)

is_active_at-IsActive :
    (op role : String) (at : ℕ) (s : ShiftRow)
    → is_active_at op at s ≡ true
    → (s.role == role) ≡ true
    → IsActive op role at s
is_active_at-IsActive op role at s h same = (
  ground (arith, eq_iff s.operation_id op),
  ground (arith, eq_iff s.role role),
  ground arith,
  ground arith,
)

is_active_at_complete :
    (op role : String) (at : ℕ) (s : ShiftRow)
    → IsActive op role at s
    → (is_active_at op at s && s.role == role) ≡ true
is_active_at_complete op role at s (here, same, begun, not_over) =
    ground (arith, eq_iff s.operation_id op, eq_iff s.role role)

module _ (op role : String) (at : ℕ) (roster : List RosterRow) where
  of_role-IsShown :
      (ss : List ShiftRow)
      → IsShown op role at roster ss (of_role role (join_all roster (keep (is_active_at op at) ss)))
  unfolding join_all
  of_role-IsShown [] = no_shifts
  of_role-IsShown (s ∷ ss) = elim (Bool-cases (is_active_at op at s)) [
    | inr idle ↦ rw idle (inactive (not_active (ground arith)) (of_role-IsShown ss))
    | inl going ↦
        rw
          (
            going,
            join_all,
            of_role-append role (left_join s (keep (joins s) roster)) (others ss),
            of_role-left_join role s (keep (joins s) roster),
          )
          (elim (Bool-cases (s.role == role)) [
            | inl same ↦ rw same (
                active (names_in s roster) (is_active_at-IsActive op role at s going same)
                  (names_in-HasNames s roster) (of_role-IsShown ss))
            | inr other ↦ rw other (inactive (not_active (ground arith)) (of_role-IsShown ss))
          ])
  ]
    where
      others : List ShiftRow → List ActiveRow
      others ts = join_all roster (keep (is_active_at op at) ts)

      not_active : (is_active_at op at s && s.role == role) ≡ false → ¬ IsActive op role at s
      not_active h mine = absurd (cc (is_active_at_complete op role at s mine, h))

-- A listActiveAt that succeeds shows under each role, in the order of the table, the shifts of the
-- operation in this role that have begun and not ended at the time: one entry for every roster row of
-- the user of the shift in its operation and role, or one entry with no name if there is no such
-- row, and nothing else.
pub list_active_at_of-IsShown :
    (inherited : String → Bool) (op : String) (at : ℕ) (s : Schedule) (roles : Roles)
    → (list_active_at_of inherited op (some at) s).0 ≡ ok roles
    → (role : String) → IsShown op role at s.tables.roster s.tables.shifts (entries role roles)
unfolding list_active_at
list_active_at_of-IsShown inherited op at s roles h role =
    subst (IsShown op role at s.tables.roster s.tables.shifts)
      (sym (list_active_at_of-entries inherited op at s roles h role))
      (of_role-IsShown op role at s.tables.roster s.tables.shifts)
