-- ===== src/Schedule/Service/Overlap.antt =====
-- services/schedule.service.ts: what a successful createShift or updateShift has checked and written,
-- and that no two shifts of one person in one role overlap.
use mathlib.Core.Path.{subst₂}
use tactix.Common.{
  ℕ, ◌-◌, ◌*◌, ◌<◌, ◌≤◌, String, ◌≡◌, ◌⊎◌, refl, sym, true, false, Option, none, some, [], ◌∷◌,
  ◌++◌, arith, find,
}
use tactix.Action.{ok, err, require, ◌>>=◌}
use tactix.Action.Yields.{
  Yields, Yields-pure, Yields-query, Yields-notify, Yields-require, Yields-require_thrice,
}
use tactix.Schedule.{ShiftInput, ShiftRow, Tables, distance, before}
use tactix.Schedule.Repo.{new_shift, roster_exists, clashes}
use tactix.Schedule.Service.{
  Config, thrown, code, Schedule, Handler, no_conflict, create_between, create_shift,
}

pub Yields-no_conflict :
    {B : Type 0} (t : Tables) (o : Option ShiftRow) (g : Unit {0} → Handler B)
    (Q : B → Tables → Type 0)
    → (o ≡ none → Yields t (g tt) Q)
    → Yields t (no_conflict o >>= g) Q
unfolding ◌>>=◌
Yields-no_conflict t none g Q y = record { at = (y refl).at }
Yields-no_conflict t (some r) g Q y = record { at = λ s b here h. cc }

-- What holds of a shift that was accepted for the tables `t`, and of the tables left behind.
pub record IsCreated (cfg : Config) (now : ℕ) (op : String) (input : ShiftInput)
    (created_by id : String) (start end : ℕ) (t : Tables) (row : ShiftRow) (left : Tables)
    : Type 0 where
  pub ordered : start < end
  pub near_start : distance start now ≤ cfg.schedule_horizon_days * 86_400_000
  pub near_end : distance end now ≤ cfg.schedule_horizon_days * 86_400_000
  pub short : (end - start ≤ cfg.shift_max_hours * 3_600_000) ⊎ (cfg.allow_oversize_shifts ≡ true)
  pub on_roster : roster_exists op input.user_upn input.role t ≡ true
  pub free : find (clashes op input.user_upn input.role start end) t.shifts ≡ none
  pub row_lem : row ≡ new_shift op input start end created_by id now
  pub tables : left ≡ record t { shifts = t.shifts ++ (row ∷ []) }

module _ (date : String → Option ℕ) (cfg : Config) where
  create_between-Yields :
      (start end : ℕ) (now : ℕ) (op : String) (input : ShiftInput) (created_by id : String)
      (t : Tables)
      → Yields t
          (create_between date cfg (some start) (some end) now op input created_by id)
          (IsCreated cfg now op input created_by id start end t)
  unfolding create_between
  create_between-Yields start end now op input created_by id t =
      Yields-require_thrice t _ _ _ _ _ _ _ _ λ ordered near short. Yields-query t _ _ _ _ (
        Yields-require t _ _ _ _ λ on_roster. Yields-query t _ _ _ _ (
          Yields-no_conflict t _ _ _ λ free. Yields-query t _ _ _ _ (
            Yields-notify _ _ _ _ (
              Yields-pure _ _ _ (record {
                ordered = ground arith;
                near_start = ground arith;
                near_end = ground arith;
                short = ground arith;
                on_roster = on_roster;
                free = free;
                row_lem = refl;
                tables = refl;
              })))))

  -- A shift that createShift returns: its times are in order, within the horizon and short enough (or
  -- oversize shifts are allowed), its user is on the roster in its role, it overlaps no other shift
  -- of this user in this role, and it has been added, as the answer shows it, behind the others.
  pub create_shift-IsCreated :
      (start end now : ℕ) (op : String) (input : ShiftInput) (created_by id : String) (s : Schedule)
      (row : ShiftRow)
      → date input.starts_at ≡ some start
      → date input.ends_at ≡ some end
      → (create_shift date cfg now op input created_by id s).0 ≡ ok row
      → IsCreated cfg now op input created_by id start end s.tables row
          (create_shift date cfg now op input created_by id s).1.tables
  unfolding create_shift
  create_shift-IsCreated start end now op input created_by id s row starts ends h =
      subst₂
        (λ a b.
          (create_between date cfg a b now op input created_by id s).0 ≡ ok row
          → IsCreated cfg now op input created_by id start end s.tables row
              (create_between date cfg a b now op input created_by id s).1.tables)
        (sym starts) (sym ends)
        ((create_between-Yields start end now op input created_by id s.tables).at s row refl) h

  -- A text that is no time is refused.
  pub create_shift-invalid_time :
      (now : ℕ) (op : String) (input : ShiftInput) (created_by id : String) (s : Schedule)
      → before (date input.starts_at) (date input.ends_at) ≡ false
      → create_shift date cfg now op input created_by id s
        ≡ (err (thrown 400 (code "invalid_time")), s)
  unfolding create_shift create_between ◌>>=◌
  create_shift-invalid_time now op input created_by id s h =
      rw (h, create_shift, create_between, ◌>>=◌, require)
