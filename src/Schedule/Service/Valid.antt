-- ===== src/Schedule/Service/Valid.antt =====
-- services/schedule.service.ts: well-formed tables, under createShift and deleteShift.
use mathlib.Core.Path.{subst}
use tactix.Common.{
  ℕ, String, ◌≡◌, ◌⊎◌, refl, sym, ap, ◌∙◌, true, false, ◌&&◌, not, Option, some, List, [], ◌∷◌,
  ◌++◌, arith, All, truthy, Option-cases, inl, inr,
}
use tactix.Action.{Result, ok, err, query, notify, ◌>>=◌}
use tactix.Schedule.{ShiftInput, ShiftRow, RosterRow, Tables, before}
use tactix.Schedule.Repo.{new_shift, is_shift, delete_shift}
use tactix.Schedule.Service.{Config, Failure, Schedule, create_shift, delete_shift_of}
use tactix.Schedule.Service.Overlap.{IsCreated, create_shift-IsCreated, create_shift-invalid_time}
use tactix.Schedule.Service.Update.{no_end_before}
use tactix.Schedule.Service.Errors.{create_shift-IsAtomic}
use tactix.Schedule.Service.Apart.{
  IsApart, IsFresh, IsApart-concat, All-Apart_of_free, IsApart-keep,
}

-- Every row of the roster names a user and a role.
abbrev pub IsNamed : List RosterRow → Type 0
IsNamed rows = All (λ r. (truthy (some r.user_upn) && truthy (some r.role)) ≡ true) rows

-- The tables as the operations on shifts need and keep them.
pub record IsValid (t : Tables) : Type 0 where
  pub named : IsNamed t.roster
  pub apart : IsApart t.shifts

pub Result-cases :
    {E A : Type 0} (r : Result E A) → ((e : E) × (r ≡ err e)) ⊎ ((a : A) × (r ≡ ok a))
Result-cases (ok a) = inr (a, refl)
Result-cases (err e) = inl (e, refl)

module _ (date : String → Option ℕ) (cfg : Config) where
  -- A createShift, whether it succeeds or not, keeps the tables valid, if the database draws an
  -- identifier that no shift has.
  pub create_shift-IsValid :
      (now : ℕ) (op : String) (input : ShiftInput) (created_by id : String) (s : Schedule)
      → IsFresh id s.tables.shifts
      → IsValid s.tables
      → IsValid (create_shift date cfg now op input created_by id s).1.tables
  create_shift-IsValid now op input created_by id s fresh valid =
      elim (Result-cases (create_shift date cfg now op input created_by id s).0) [
        | inl (e, refused) ↦ kept e refused
        | inr (row, done) ↦ elim (Option-cases (date input.starts_at)) [
          | inl no_start ↦ absurd (never row done (rw no_start))
          | inr (start, starts) ↦ elim (Option-cases (date input.ends_at)) [
            | inl no_end ↦ absurd (never row done (no_end_before (date input.starts_at) _ no_end))
            | inr (end, ends) ↦ added start end row (
                create_shift-IsCreated date cfg start end now op input created_by id s row starts
                  ends done)
          ]
        ]
      ]
    where
      kept :
          (e : Failure)
          → (create_shift date cfg now op input created_by id s).0 ≡ err e
          → IsValid (create_shift date cfg now op input created_by id s).1.tables
      kept e refused =
          let same = (create_shift-IsAtomic date cfg now op input created_by id).at s e refused in
          subst IsValid (sym same.tables) valid

      never :
          (row : ShiftRow)
          → (create_shift date cfg now op input created_by id s).0 ≡ ok row
          → before (date input.starts_at) (date input.ends_at) ≡ false
          → ⊥
      never row done h =
          cc (
            done,
            ap (λ r. r.0) (create_shift-invalid_time date cfg now op input created_by id s h),
          )

      added :
          (start end : ℕ) (row : ShiftRow)
          → IsCreated cfg now op input created_by id start end s.tables row
              (create_shift date cfg now op input created_by id s).1.tables
          → IsValid (create_shift date cfg now op input created_by id s).1.tables
      added start end row c =
          let new = new_shift op input start end created_by id now in
          subst IsValid
            (sym (
              c.tables
              ∙ ap (λ (r : ShiftRow). record s.tables { shifts = s.tables.shifts ++ (r ∷ []) })
                  c.row_lem))
            (record {
              named = valid.named;
              apart =
                  IsApart-concat s.tables.shifts new valid.apart
                    (All-Apart_of_free s.tables.shifts new fresh c.free);
            })

  delete_shift_of-tables :
      (op id : String) (s : Schedule)
      → (delete_shift_of date cfg op id s).1.tables ≡ s.tables
        ⊎ (delete_shift_of date cfg op id s).1.tables ≡ delete_shift op id s.tables
  unfolding delete_shift_of ◌>>=◌ query notify
  delete_shift_of-tables op id s = ground arith

  -- A deleteShift keeps the tables valid.
  pub delete_shift_of-IsValid :
      (op id : String) (s : Schedule)
      → IsValid s.tables
      → IsValid (delete_shift_of date cfg op id s).1.tables
  unfolding delete_shift
  delete_shift_of-IsValid op id s valid = elim (delete_shift_of-tables op id s) [
    | inl same ↦ subst IsValid (sym same) valid
    | inr deleted ↦ subst IsValid (sym deleted) (record {
      named = valid.named;
      apart = IsApart-keep (λ r. not (is_shift op id r)) s.tables.shifts valid.apart;
    })
  ]
