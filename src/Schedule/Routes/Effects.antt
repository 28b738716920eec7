-- ===== src/Schedule/Routes/Effects.antt =====
-- services/incident-svc/src/routes/schedule.routes.ts: what an answer says about the tables.
use tactix.Common.{ℕ, String, ◌≡◌, ◌⊎◌, refl, ap, false, Option, some, inl, inr, Option-cases}
use tactix.Json.{Json}
use tactix.Action.{Result, ok, err}
use tactix.Action.Rules.{Same, Same-refl}
use tactix.Schedule.{ShiftInput, ShiftRow, before}
use tactix.Schedule.Service.{
  Config, ErrorBody, code, Failure, thrown, type_error, rejected, Schedule, create_shift,
}
use tactix.Schedule.Service.Overlap.{IsCreated, create_shift-invalid_time, create_shift-IsCreated}
use tactix.Schedule.Service.Update.{no_end_before}
use tactix.Schedule.Service.Errors.{create_shift-IsAtomic}
use tactix.Schedule.Routes.{error, shift, Reply, replied, parse_shift, refuse, answer, post_shifts}

abbrev pub IsRefusal : Reply → Type 0
IsRefusal r = (status : ℕ) × (body : ErrorBody) × (r ≡ replied status (error body))

refuse-IsRefusal : (e : Failure) → IsRefusal (refuse e)
refuse-IsRefusal (thrown status body) = (status, body, refl)
refuse-IsRefusal type_error = (500, code "error", refl)
refuse-IsRefusal rejected = (500, code "error", refl)

-- A shift of the body was accepted and added.
pub record Accepted (date : String → Option ℕ) (cfg : Config) (now : ℕ) (op : String) (body : Json)
    (id : String) (s : Schedule) (r : Reply) (left : Schedule) : Type 0 where
  pub input : ShiftInput
  pub row : ShiftRow
  pub start : ℕ
  pub end : ℕ
  pub parsed : parse_shift body ≡ some input
  pub starts : date input.starts_at ≡ some start
  pub ends : date input.ends_at ≡ some end
  pub reply : r ≡ replied 201 (shift row)
  pub effect : IsCreated cfg now op input "system" id start end s.tables row left.tables

answer-cases :
    {A : Type 0} (show : A → Reply) (r : Result Failure A × Schedule)
    → ((e : Failure) × (r.0 ≡ err e) × (answer show r ≡ (refuse e, r.1)))
      ⊎ ((a : A) × (r.0 ≡ ok a) × (answer show r ≡ (show a, r.1)))
answer-cases show (ok a, s) = inr (a, refl, refl)
answer-cases show (err e, s) = inl (e, refl, refl)

module _ (date : String → Option ℕ) (cfg : Config) where
  -- A createShift that succeeds has read both times.
  created_times :
      (now : ℕ) (op : String) (input : ShiftInput) (created_by id : String) (s : Schedule)
      (row : ShiftRow)
      → (create_shift date cfg now op input created_by id s).0 ≡ ok row
      → (start : ℕ) × (end : ℕ) × (date input.starts_at ≡ some start)
        × (date input.ends_at ≡ some end)
  created_times now op input created_by id s row h = elim (Option-cases (date input.starts_at)) [
    | inl no_start ↦ absurd (never (rw no_start))
    | inr (start, starts) ↦ elim (Option-cases (date input.ends_at)) [
      | inl no_end ↦ absurd (never (no_end_before (date input.starts_at) _ no_end))
      | inr (end, ends) ↦ (start, end, starts, ends)
    ]
  ]
    where
      never : before (date input.starts_at) (date input.ends_at) ≡ false → ⊥
      never k =
          cc (h, ap (λ r. r.0) (create_shift-invalid_time date cfg now op input created_by id s k))

  -- A POST /shifts either answers 201 with a shift that was checked and added, or answers an error
  -- and has written nothing and notified nobody.
  pub post_shifts-Effect :
      (now : ℕ) (op : String) (body : Json) (id : String) (s : Schedule)
      → Accepted date cfg now op body id s
          (post_shifts date cfg now op body id s).0
          (post_shifts date cfg now op body id s).1
        ⊎ (IsRefusal (post_shifts date cfg now op body id s).0
            × Same s (post_shifts date cfg now op body id s).1)
  unfolding post_shifts
  post_shifts-Effect now op body id s = elim (Option-cases (parse_shift body)) [
    | inl bad ↦ inr (rw (post_shifts, bad) ((400, code "invalid", refl), Same-refl s))
    | inr (input, good) ↦
        elim (answer-cases (λ row. replied 201 (shift row))
          (create_shift date cfg now op input "system" id s)) [
            | inl (e, refused, said) ↦ inr (
                rw (post_shifts, good, said)
                  (
                    refuse-IsRefusal e,
                    (create_shift-IsAtomic date cfg now op input "system" id).at s e refused,
                  ))
            | inr (row, done, said) ↦
                let (start, end, starts, ends) =
                  created_times now op input "system" id s row done in
                inl (
                  rw (post_shifts, good, said)
                    (record {
                      input = input;
                      row = row;
                      start = start;
                      end = end;
                      parsed = good;
                      starts = starts;
                      ends = ends;
                      reply = refl;
                      effect =
                          create_shift-IsCreated date cfg start end now op input "system" id s row
                            starts ends done;
                    }))
          ]
  ]
