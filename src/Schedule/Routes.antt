-- ===== src/Schedule/Routes.antt =====
-- services/incident-svc/src/routes/schedule.routes.ts: the requests on the schedule of an operation.
-- A handler without a try block whose promise is rejected sends no answer.
pub mod Effects
use tactix.Common.{
  ℕ, ◌*◌, ◌<◌, ◌≤◌, String, ◌≡◌, ◌⊎◌, refl, sym, ap, ◌∙◌, Bool, true, false, Option, none, some,
  List, [], ◌∷◌, ◌==◌, arith, if◌then◌else◌, inl, inr, Bool-cases, Option-cases, or_else,
}
use tactix.Json.{Json, member, is_object, string_field, optional_string}
use tactix.Action.{Result, ok, err, Db}
use tactix.Action.Rules.{Same}
use tactix.Schedule.{ShiftInput, ShiftPatch, ShiftRow, RosterRow, Tables}
use tactix.Schedule.Service.{
  Config, ErrorBody, code, Failure, thrown, type_error, rejected, Schedule, create_shift,
  update_shift, delete_shift_of, list_shifts_of, list_roster_of, date_of,
}
use tactix.Schedule.Service.Active.{Roles, list_active_at_of}

pub data Body : Type 0 where
  error : ErrorBody → Body
  shift : ShiftRow → Body
  shift_rows : List ShiftRow → Body
  roster_rows : List RosterRow → Body
  active_at : (at : String) → Roles → Body
  empty : Body

pub data Reply : Type 0 where
  replied : (status : ℕ) → Body → Reply
  no_reply : Reply

-- `shiftInput.safeParse`
unfoldable pub parse_shift : Json → Option ShiftInput
parse_shift body = elim (string_field (member "userUpn" body)) [
  | none ↦ none
  | some user ↦ elim (string_field (member "role" body)) [
    | none ↦ none
    | some role ↦ elim (string_field (member "startsAt" body)) [
      | none ↦ none
      | some start ↦ elim (string_field (member "endsAt" body)) [
        | none ↦ none
        | some end ↦ elim (optional_string (member "notes" body)) [
          | none ↦ none
          | some notes ↦ some (record {
            user_upn = user;
            role = role;
            starts_at = start;
            ends_at = end;
            notes = notes;
          })
        ]
      ]
    ]
  ]
]

-- `shiftInput.partial().safeParse`
unfoldable pub parse_patch : Json → Option ShiftPatch
parse_patch body = elim (optional_string (member "userUpn" body)) [
  | none ↦ none
  | some user ↦ elim (optional_string (member "role" body)) [
    | none ↦ none
    | some role ↦ elim (optional_string (member "startsAt" body)) [
      | none ↦ none
      | some start ↦ elim (optional_string (member "endsAt" body)) [
        | none ↦ none
        | some end ↦ elim (optional_string (member "notes" body)) [
          | none ↦ none
          | some notes ↦
              if is_object body
              then some (record {
                user_upn = user;
                role = role;
                starts_at = start;
                ends_at = end;
                notes = notes;
              })
              else none
        ]
      ]
    ]
  ]
]

-- `res.status(e.status || 500).json(e.body || { code: 'error' })`
abbrev pub refuse : Failure → Reply
refuse (thrown status body) = replied status (error body)
refuse type_error = replied 500 (error (code "error"))
refuse rejected = replied 500 (error (code "error"))

-- The end of a handler with a try block.
abbrev pub answer : {A : Type 0} → (A → Reply) → Result Failure A × Schedule → Reply × Schedule
answer show (ok a, s) = (show a, s)
answer show (err e, s) = (refuse e, s)

-- The end of a handler without one.
abbrev pub answer_or_none :
    {A : Type 0} → (A → Reply) → Result Failure A × Schedule → Reply × Schedule
answer_or_none show (ok a, s) = (show a, s)
answer_or_none show (err e, s) = (no_reply, s)

abbrev pub invalid : Reply
invalid = replied 400 (error (code "invalid"))

-- `active === undefined ? undefined : active === 'true'`
abbrev pub flag : Option String → Option Bool
flag none = none
flag (some s) = some (s == "true")

module _ (date : String → Option ℕ) (cfg : Config) where
  -- GET /roster
  unfoldable pub get_roster : String → (role active : Option String) → Schedule → Reply × Schedule
  get_roster op role active s =
      answer_or_none (λ rows. replied 200 (roster_rows rows))
        (list_roster_of date cfg op role (flag active) s)

  -- GET /shifts
  unfoldable pub get_shifts :
      String → (from to role user : Option String) → Schedule → Reply × Schedule
  get_shifts op from to role user s =
      answer_or_none (λ rows. replied 200 (shift_rows rows))
        (list_shifts_of date cfg op from to role user s)

  -- POST /shifts, at the time `now`
  unfoldable pub post_shifts :
      (now : ℕ) (op : String) → Json → (id : String) → Schedule → Reply × Schedule
  post_shifts now op body id s = elim (parse_shift body) [
    | none ↦ (invalid, s)
    | some input ↦
        answer (λ row. replied 201 (shift row)) (create_shift date cfg now op input "system" id s)
  ]

  -- PATCH /shifts/:shiftId
  unfoldable pub patch_shift : (now : ℕ) (op id : String) → Json → Schedule → Reply × Schedule
  patch_shift now op id body s = elim (parse_patch body) [
    | none ↦ (invalid, s)
    | some patch ↦ answer (λ row. replied 200 (shift row)) (update_shift date cfg now op id patch s)
  ]

  -- DELETE /shifts/:shiftId
  unfoldable pub delete_shifts : (op id : String) → Schedule → Reply × Schedule
  delete_shifts op id s = answer (λ _. replied 204 empty) (delete_shift_of date cfg op id s)

  -- GET /now; `clock` is the current time as a text.
  unfoldable pub get_now :
      (inherited : String → Bool) (clock op : String) → Option String → Schedule → Reply × Schedule
  get_now inherited clock op at s =
      let time = or_else at clock in
      answer_or_none (λ roles. replied 200 (active_at time roles))
        (list_active_at_of inherited op (date time) s)
