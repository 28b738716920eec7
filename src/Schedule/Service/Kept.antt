-- ===== src/Schedule/Service/Kept.antt =====
-- services/schedule.service.ts: well-formed tables, under updateShift.
use mathlib.Core.Path.{subst}
use tactix.Common.{
  ℕ, String, ◌≡◌, refl, sym, ap, true, false, ◌&&◌, not, Option, none, some, List, [], ◌∷◌, arith,
  find, any, All, ◌==◌, eq_iff, truthy, Bool-cases, Option-cases, inl, inr,
}
use tactix.Action.Yields.{Yields}
use tactix.Schedule.{ShiftPatch, ShiftRow, RosterRow, Tables, before}
use tactix.Schedule.Repo.{get_shift, clashes, roster_exists, given, patched}
use tactix.Schedule.Service.{Config, Schedule, update_shift, roster_exists_for, or_value, date_of}
use tactix.Schedule.Service.Update.{
  IsUpdated, update_between-Yields, no_end_before, needs_times, rest_of, update_shift-Yields,
}
use tactix.Schedule.Service.Errors.{update_shift-IsAtomic}
use tactix.Schedule.Service.Apart.{Fits, update_rows-IsApart, All-IsCurrent_of_first}
use tactix.Schedule.Service.Valid.{IsNamed, IsValid, Result-cases}

any_named :
    (op user role : String) (rows : List RosterRow)
    → IsNamed rows
    → any (λ r. r.operation_id == op && r.user_upn == user && r.role == role && r.active) rows
      ≡ true
    → (truthy (some user) && truthy (some role)) ≡ true
any_named op user role [] n h = ground arith
any_named op user role (r ∷ rs) (p, n) h =
    elim (Bool-cases (r.operation_id == op && r.user_upn == user && r.role == role && r.active)) [
      | inl hit ↦ ground (
        arith,
        p,
        eq_iff r.user_upn user,
        eq_iff r.role role,
        eq_iff user "",
        eq_iff role "",
        eq_iff r.user_upn "",
        eq_iff r.role "",
      )
      | inr miss ↦ any_named op user role rs n (ground arith)
    ]

roster_named :
    (op : String) (user : Option String) (role : String) (t : Tables)
    → IsNamed t.roster
    → roster_exists_for op user role t ≡ true
    → (truthy user && truthy (some role)) ≡ true
unfolding roster_exists
roster_named op none role t n h = absurd (ground arith)
roster_named op (some user) role t n h = any_named op user role t.roster n h

All-Fits_of_free :
    (start end now : ℕ) (op id current : String) (patch : ShiftPatch) (rs : List ShiftRow)
    → truthy patch.user_upn ≡ true
    → truthy (some (or_value patch.role current)) ≡ true
    → truthy patch.starts_at ≡ true
    → truthy patch.ends_at ≡ true
    → find
        (λ r.
          clashes op (given patch.user_upn) (or_value patch.role current) start end r
          && not (r.shift_id == id))
        rs
      ≡ none
    → All (Fits op id current (patched patch (some start) (some end) now)) rs
All-Fits_of_free start end now op id current patch [] u o s e free = tt
All-Fits_of_free start end now op id current patch (x ∷ rs) u o s e free = (
  (λ r hit same other. record {
    ids = ground (arith, eq_iff r.shift_id id, eq_iff x.shift_id id, eq_iff r.shift_id x.shift_id);
    times = ground (
      arith,
      hit,
      same,
      other,
      free,
      eq_iff r.operation_id op,
      eq_iff r.operation_id x.operation_id,
      eq_iff (given patch.user_upn) x.user_upn,
      eq_iff x.user_upn (given patch.user_upn),
      eq_iff (or_value patch.role current) x.role,
      eq_iff x.role (or_value patch.role current),
      eq_iff x.operation_id r.operation_id,
      eq_iff x.operation_id op,
    );
  }),
  All-Fits_of_free start end now op id current patch rs u o s e (ground arith),
)

module _ (date : String → Option ℕ) (cfg : Config) where
  truthy_of_date :
      (o : Option String) (t : ℕ) → date "" ≡ none → date_of date cfg o ≡ some t → truthy o ≡ true
  truthy_of_date none t empty h = cc
  truthy_of_date (some s) t empty h = elim (Bool-cases (s == "")) [
    | inl same ↦ let e : s ≡ "" = ground (arith, eq_iff s "") in absurd (cc (empty, h, ap date e))
    | inr other ↦ rw other refl
  ]

  -- The tables that a successful updateShift leaves.
  updated-IsValid :
      (start end now : ℕ) (op id : String) (patch : ShiftPatch) (t left : Tables)
      (row existing : ShiftRow)
      → date "" ≡ none
      → date_of date cfg patch.starts_at ≡ some start
      → date_of date cfg patch.ends_at ≡ some end
      → IsValid t
      → get_shift op id t ≡ some existing
      → IsUpdated start end (or_value patch.role existing.role) now op id patch t row left
      → IsValid left
  unfolding get_shift
  updated-IsValid start end now op id patch t left row existing empty starts ends valid there u =
      let both =
        roster_named op patch.user_upn (or_value patch.role existing.role) t valid.named
          u.on_roster in
      let user : truthy patch.user_upn ≡ true = ground arith in
      let role : truthy (some (or_value patch.role existing.role)) ≡ true = ground arith in
      let fits =
        All-Fits_of_free start end now op id existing.role patch t.shifts user role
          (truthy_of_date patch.starts_at start empty starts)
          (truthy_of_date patch.ends_at end empty ends) u.free in
      subst IsValid (sym u.tables) (
        rw user (record {
          named = valid.named;
          apart =
              update_rows-IsApart op id existing.role (patched patch (some start) (some end) now)
                t.shifts fits
                (All-IsCurrent_of_first op id existing.role
                  (patched patch (some start) (some end) now) t.shifts existing there refl
                  valid.apart)
                valid.apart;
        }))

  -- An updateShift, whether it succeeds or not, keeps the tables valid, if the empty text is no date.
  pub update_shift-IsValid :
      (now : ℕ) (op id : String) (patch : ShiftPatch) (s : Schedule)
      → date "" ≡ none
      → IsValid s.tables
      → IsValid (update_shift date cfg now op id patch s).1.tables
  update_shift-IsValid now op id patch s empty valid =
      elim (Result-cases (update_shift date cfg now op id patch s).0) [
        | inl (e, refused) ↦
            let same = (update_shift-IsAtomic date cfg now op id patch).at s e refused in
            subst IsValid (sym same.tables) valid
        | inr (row, done) ↦
            (update_shift-Yields date cfg now op id patch s.tables _ after).at s row refl done
      ]
    where
      after :
          (existing : ShiftRow)
          → get_shift op id s.tables ≡ some existing
          → Yields s.tables
              (rest_of date cfg (or_value patch.role existing.role) now op id patch)
              (λ row left. IsValid left)
      after existing there = elim (Option-cases (date_of date cfg patch.starts_at)) [
        | inl no_start ↦ never (rw no_start)
        | inr (start, starts) ↦ elim (Option-cases (date_of date cfg patch.ends_at)) [
          | inl no_end ↦ never (no_end_before (date_of date cfg patch.starts_at) _ no_end)
          | inr (end, ends) ↦ accepted start end starts ends
        ]
      ]
        where
          never :
              before (date_of date cfg patch.starts_at) (date_of date cfg patch.ends_at) ≡ false
              → Yields s.tables
                  (rest_of date cfg (or_value patch.role existing.role) now op id patch)
                  (λ row left. IsValid left)
          never h = needs_times date cfg _ _ _ now op id patch s.tables _ h

          accepted :
              (start end : ℕ)
              → date_of date cfg patch.starts_at ≡ some start
              → date_of date cfg patch.ends_at ≡ some end
              → Yields s.tables
                  (rest_of date cfg (or_value patch.role existing.role) now op id patch)
                  (λ row left. IsValid left)
          accepted start end starts ends =
              rw (starts, ends)
                (record {
                  at = λ db row here h.
                      updated-IsValid start end now op id patch s.tables _ row existing empty starts
                        ends valid there
                        ((update_between-Yields date cfg start end _ now op id patch s.tables).at db
                          row here h);
                })
