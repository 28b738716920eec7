-- ===== src/Schedule/Service/Update.antt =====
-- services/schedule.service.ts: what a successful updateShift needs and does.
use tactix.Common.{
  ℕ, ◌<◌, String, ◌≡◌, ◌⊎◌, refl, true, false, ◌&&◌, not, Option, none, some, arith, find, ◌==◌,
  if◌then◌else◌, inl, inr,
}
use tactix.Action.{ok, ◌>>=◌}
use tactix.Action.Yields.{
  Yields, Yields-pure, Yields-query, Yields-notify, Yields-require, Yields-require_thrice,
}
use tactix.Schedule.{ShiftPatch, ShiftRow, Tables, before}
use tactix.Schedule.Repo.{clashes, get_shift, patched, sets_nothing, given}
use tactix.Schedule.Service.{
  Config, Schedule, Handler, or_not_found, or_value, update_between, update_shift, date_of,
  roster_exists_for, update_statement, select,
}
use tactix.Schedule.Service.Overlap.{Yields-no_conflict}

Yields-or_not_found :
    {B : Type 0} (t : Tables) (o : Option ShiftRow) (g : ShiftRow → Handler B)
    (Q : B → Tables → Type 0)
    → ((r : ShiftRow) → o ≡ some r → Yields t (g r) Q)
    → Yields t (or_not_found o >>= g) Q
unfolding ◌>>=◌
Yields-or_not_found t none g Q y = record { at = λ s b here h. cc }
Yields-or_not_found t (some r) g Q y = record { at = (y r refl).at }

-- The statement that `repo.updateShift` runs.
abbrev pub statement : ℕ → ℕ → ℕ → String → String → ShiftPatch → Tables → Option ShiftRow × Tables
statement start end now op id patch =
    if sets_nothing patch
    then select (get_shift op id)
    else update_statement op id (patched patch (some start) (some end) now)

-- What holds of a patch that was accepted for the tables `t`, of the answer and of the tables left.
pub record IsUpdated (start end : ℕ) (role : String) (now : ℕ) (op id : String) (patch : ShiftPatch)
    (t : Tables) (row : ShiftRow) (left : Tables) : Type 0 where
  pub ordered : start < end
  pub on_roster : roster_exists_for op patch.user_upn role t ≡ true
  pub free :
      find
        (λ r. clashes op (given patch.user_upn) role start end r && not (r.shift_id == id))
        t.shifts
      ≡ none
  pub row_lem : (statement start end now op id patch t).0 ≡ some row
  pub tables : left ≡ (statement start end now op id patch t).1

pub no_end_before : (start end : Option ℕ) → end ≡ none → before start end ≡ false
no_end_before none end h = refl
no_end_before (some a) none h = refl
no_end_before (some a) (some b) h = cc

module _ (date : String → Option ℕ) (cfg : Config) where
  pub update_between-Yields :
      (start end : ℕ) (role : String) (now : ℕ) (op id : String) (patch : ShiftPatch) (t : Tables)
      → Yields t
          (update_between date cfg (some start) (some end) role now op id patch)
          (IsUpdated start end role now op id patch t)
  unfolding update_between
  update_between-Yields start end role now op id patch t =
      Yields-require_thrice t _ _ _ _ _ _ _ _ λ ordered near short. Yields-query t _ _ _ _ (
        Yields-require t _ _ _ _ λ on_roster. Yields-query t _ _ _ _ (
          Yields-no_conflict t _ _ _ λ free. Yields-query t _ _ _ _ (
            Yields-or_not_found _ _ _ _ λ row returned. Yields-notify _ _ _ _ (
              Yields-pure _ _ _ (record {
                ordered = ground arith;
                on_roster = on_roster;
                free = free;
                row_lem = returned;
                tables = refl;
              })))))

  -- The rest of updateShift, behind the lookup of the row, for the role that it finds.
  abbrev pub rest_of : String → (now : ℕ) (op id : String) → ShiftPatch → Handler ShiftRow
  rest_of role now op id patch =
      update_between date cfg (date_of date cfg patch.starts_at) (date_of date cfg patch.ends_at)
        role now op id patch

  pub update_shift-Yields :
      (now : ℕ) (op id : String) (patch : ShiftPatch) (t : Tables) (Q : ShiftRow → Tables → Type 0)
      → ((existing : ShiftRow)
          → get_shift op id t ≡ some existing
          → Yields t (rest_of (or_value patch.role existing.role) now op id patch) Q)
      → Yields t (update_shift date cfg now op id patch) Q
  unfolding update_shift
  update_shift-Yields now op id patch t Q y =
      Yields-query t _ _ _ _ (Yields-or_not_found t _ _ _ λ existing there. y existing there)

  pub needs_times :
      (start end : Option ℕ) (role : String) (now : ℕ) (op id : String) (patch : ShiftPatch)
      (t : Tables) (Q : ShiftRow → Tables → Type 0)
      → before start end ≡ false
      → Yields t (update_between date cfg start end role now op id patch) Q
  unfolding update_between
  needs_times start end role now op id patch t Q h =
      Yields-require_thrice t _ _ _ _ _ _ _ _ λ ordered near short. cc

  needs_roster :
      (start end : Option ℕ) (role : String) (now : ℕ) (op id : String) (patch : ShiftPatch)
      (t : Tables) (Q : ShiftRow → Tables → Type 0)
      → roster_exists_for op patch.user_upn role t ≡ false
      → Yields t (update_between date cfg start end role now op id patch) Q
  unfolding update_between
  needs_roster start end role now op id patch t Q h =
      Yields-require_thrice t _ _ _ _ _ _ _ _
        λ ordered near short. Yields-query t _ _ _ _ (Yields-require t _ _ _ _ λ on_roster. cc)

  -- One of these three fields is missing from the patch.
  abbrev pub IsPartial : ShiftPatch → Type 0
  IsPartial patch = patch.user_upn ≡ none ⊎ patch.starts_at ≡ none ⊎ patch.ends_at ≡ none

  partial-Yields :
      (role : String) (now : ℕ) (op id : String) (patch : ShiftPatch) (t : Tables)
      → IsPartial patch
      → Yields t (rest_of role now op id patch) (λ row left. ⊥)
  partial-Yields role now op id patch t (inl no_user) =
      needs_roster _ _ role now op id patch t _ (rw no_user)
  partial-Yields role now op id patch t (inr (inl no_start)) =
      needs_times _ _ role now op id patch t _ (rw no_start)
  partial-Yields role now op id patch t (inr (inr no_end)) =
      needs_times _ _ role now op id patch t _
        (no_end_before (date_of date cfg patch.starts_at) _ (rw no_end))

  -- A patch that leaves out the user, the start or the end never succeeds, whatever the
  -- tables hold: these fields of the stored row are not filled in.
  pub update_shift-needs_all :
      (now : ℕ) (op id : String) (patch : ShiftPatch) (s : Schedule) (row : ShiftRow)
      → IsPartial patch
      → ¬ ((update_shift date cfg now op id patch s).0 ≡ ok row)
  update_shift-needs_all now op id patch s row partial h =
      (update_shift-Yields now op id patch s.tables _
          (λ existing there. partial-Yields _ now op id patch s.tables partial)).at
        s row refl h
