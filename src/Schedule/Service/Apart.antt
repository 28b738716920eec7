-- ===== src/Schedule/Service/Apart.antt =====
-- The invariant of the table of shifts that schedule.service.ts keeps: distinct identifiers, and no
-- overlap of two shifts of one user in one role of one operation.
use tactix.Common.{
  String, ◌≡◌, refl, sym, ◌∙◌, Bool, true, false, ◌&&◌, none, some, List, [], ◌∷◌, ◌++◌, arith,
  first, find, keep, All, All-append, All-keep, ltb, ◌==◌, eq_iff, Bool-cases, inl, inr,
}
use tactix.Schedule.{ShiftRow}
use tactix.Schedule.Repo.{clashes, update_rows, is_shift}

-- Two shifts of one user in one role of one operation share a time.
abbrev pub clash : ShiftRow → ShiftRow → Bool
clash a b =
    a.operation_id == b.operation_id
    && a.user_upn == b.user_upn
    && a.role == b.role
    && ltb a.starts_at b.ends_at
    && ltb b.starts_at a.ends_at

pub record Apart (a b : ShiftRow) : Type 0 where
  pub ids : (a.shift_id == b.shift_id) ≡ false
  pub times : clash a b ≡ false

-- Any two rows of the table are apart.
abbrev pub IsApart : List ShiftRow → Type 0
IsApart [] = Unit
IsApart (r ∷ rs) = All (Apart r) rs × IsApart rs

Apart-sym : (a b : ShiftRow) → Apart a b → Apart b a
Apart-sym a b p = record {
  ids = ground (arith, eq_iff a.shift_id b.shift_id, eq_iff b.shift_id a.shift_id, p.ids);
  times = ground (
    arith,
    p.times,
    eq_iff a.operation_id b.operation_id,
    eq_iff b.operation_id a.operation_id,
    eq_iff a.user_upn b.user_upn,
    eq_iff b.user_upn a.user_upn,
    eq_iff a.role b.role,
    eq_iff b.role a.role,
  );
}

pub IsApart-concat :
    (rs : List ShiftRow) (new : ShiftRow)
    → IsApart rs
    → All (Apart new) rs
    → IsApart (rs ++ (new ∷ []))
IsApart-concat [] new h k = (tt, tt)
IsApart-concat (r ∷ rs) new (ps, h) (p, k) =
    (All-append (Apart r) rs (new ∷ []) ps (Apart-sym new r p, tt), IsApart-concat rs new h k)

-- No row has the identifier.
abbrev pub IsFresh : String → List ShiftRow → Type 0
IsFresh id rs = All (λ r. (id == r.shift_id) ≡ false) rs

clashes-clash :
    (a b : ShiftRow) → clashes a.operation_id a.user_upn a.role a.starts_at a.ends_at b ≡ clash a b
clashes-clash a b = ground (
  arith,
  eq_iff a.operation_id b.operation_id,
  eq_iff b.operation_id a.operation_id,
  eq_iff a.user_upn b.user_upn,
  eq_iff b.user_upn a.user_upn,
  eq_iff a.role b.role,
  eq_iff b.role a.role,
)

pub All-Apart_of_free :
    (rs : List ShiftRow) (new : ShiftRow)
    → IsFresh new.shift_id rs
    → find (clashes new.operation_id new.user_upn new.role new.starts_at new.ends_at) rs ≡ none
    → All (Apart new) rs
All-Apart_of_free [] new f h = tt
All-Apart_of_free (r ∷ rs) new (p, f) h =
    let test = clashes new.operation_id new.user_upn new.role new.starts_at new.ends_at r in
    elim (Bool-cases test) [
      | inl hit ↦ absurd (ground arith)
      | inr miss ↦ (
        record { ids = p; times = sym (clashes-clash new r) ∙ miss },
        All-Apart_of_free rs new f (ground arith),
      )
    ]

pub IsApart-keep :
    (test : ShiftRow → Bool) (rs : List ShiftRow) → IsApart rs → IsApart (keep test rs)
IsApart-keep test [] h = tt
IsApart-keep test (r ∷ rs) (ps, h) = elim (Bool-cases (test r)) [
  | inl hit ↦ rw hit (All-keep (Apart r) test rs ps, IsApart-keep test rs h)
  | inr miss ↦ rw miss (IsApart-keep test rs h)
]

-- A change of the row of one shift, in the role `current`, that keeps its identifier and is apart
-- from the rows of all other shifts.
module _ (op id current : String) (change : ShiftRow → ShiftRow) where
  -- The changed row is apart from another one.
  abbrev pub Fits : ShiftRow → Type 0
  Fits x =
      (r : ShiftRow)
      → is_shift op id r ≡ true
      → r.role ≡ current
      → (x.shift_id == id) ≡ false
      → Apart (change r) x

  -- The row of the shift has this role.
  abbrev pub IsCurrent : ShiftRow → Type 0
  IsCurrent r = is_shift op id r ≡ true → r.role ≡ current

  -- Rows with other identifiers are not changed.
  update_rows-others :
      (rs : List ShiftRow)
      → All (λ x. (x.shift_id == id) ≡ false) rs
      → update_rows (is_shift op id) change rs ≡ rs
  unfolding update_rows
  update_rows-others [] h = refl
  update_rows-others (x ∷ rs) (p, h) = ground (arith, p, update_rows-others rs h)

  others_of_Apart :
      (r : ShiftRow) (rs : List ShiftRow)
      → is_shift op id r ≡ true
      → All (Apart r) rs
      → All (λ x. (x.shift_id == id) ≡ false) rs
  others_of_Apart r [] hit h = tt
  others_of_Apart r (x ∷ rs) hit (p, h) = (
    ground (
      arith,
      p.ids,
      eq_iff r.shift_id id,
      eq_iff x.shift_id id,
      eq_iff r.shift_id x.shift_id,
      hit,
    ),
    others_of_Apart r rs hit h,
  )

  All-Fits :
      (r : ShiftRow) (rs : List ShiftRow)
      → is_shift op id r ≡ true
      → r.role ≡ current
      → All Fits rs
      → All (λ x. (x.shift_id == id) ≡ false) rs
      → All (Apart (change r)) rs
  All-Fits r [] hit role fits others = tt
  All-Fits r (x ∷ rs) hit role (fit, fits) (other, others) =
      (fit r hit role other, All-Fits r rs hit role fits others)

  update_rows-All :
      (a : ShiftRow) (rs : List ShiftRow)
      → Fits a
      → All IsCurrent rs
      → All (Apart a) rs
      → All (Apart a) (update_rows (is_shift op id) change rs)
  unfolding update_rows
  update_rows-All a [] fit roles ps = tt
  update_rows-All a (r ∷ rs) fit (role, roles) (p, ps) = elim (Bool-cases (is_shift op id r)) [
    | inl hit ↦
        rw (hit, update_rows)
          (
            Apart-sym (change r) a
                (fit r hit (role hit) (others_of_Apart r (a ∷ []) hit (Apart-sym a r p, tt)).0),
            update_rows-All a rs fit roles ps,
          )
    | inr miss ↦ rw (miss, update_rows) (p, update_rows-All a rs fit roles ps)
  ]

  pub update_rows-IsApart :
      (rs : List ShiftRow)
      → All Fits rs
      → All IsCurrent rs
      → IsApart rs
      → IsApart (update_rows (is_shift op id) change rs)
  unfolding update_rows
  update_rows-IsApart [] fits roles h = tt
  update_rows-IsApart (r ∷ rs) (fit, fits) (role, roles) (ps, h) =
      elim (Bool-cases (is_shift op id r)) [
        | inl hit ↦
            let others = others_of_Apart r rs hit ps in
            rw (hit, update_rows, update_rows-others rs others)
              (All-Fits r rs hit (role hit) fits others, h)
        | inr miss ↦
            rw (miss, update_rows)
              (update_rows-All r rs fit roles ps, update_rows-IsApart rs fits roles h)
      ]

  -- The row that the lookup returns is the row of the shift.
  pub All-IsCurrent_of_first :
      (rs : List ShiftRow) (row : ShiftRow)
      → first (keep (is_shift op id) rs) ≡ some row
      → row.role ≡ current
      → IsApart rs
      → All IsCurrent rs
  All-IsCurrent_of_first [] row found role h = tt
  All-IsCurrent_of_first (r ∷ rs) row found role (ps, h) = elim (Bool-cases (is_shift op id r)) [
    | inl hit ↦ (λ _. ground arith, vacuous rs (others_of_Apart r rs hit ps))
    | inr miss ↦
        ((λ hit. absurd (cc (hit, miss))), All-IsCurrent_of_first rs row (ground arith) role h)
  ]
    where
      vacuous : (rs : List ShiftRow) → All (λ x. (x.shift_id == id) ≡ false) rs → All IsCurrent rs
      vacuous [] _ = tt
      vacuous (x ∷ xs) (p, ps) = ((λ hit. absurd (ground (arith, hit, p))), vacuous xs ps)
