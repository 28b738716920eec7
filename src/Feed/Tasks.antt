-- ===== src/Feed/Tasks.antt =====
-- services/incident-svc/src/routes/incidents/tasks.ts. `now` is the time of the call, `id` the drawn
-- UUID, `sub` is `req.user?.sub`.
use tactix.Common.{
  ℕ, String, Bool, true, false, not, ◌&&◌, ◌||◌, Option, none, some, [], ◌∷◌, ◌++◌, map, keep,
  first, eqb, ◌==◌, truthy, or_else, if◌then◌else◌,
}
use tactix.Json.{Json, text, member, is_object, string_field, optional_string}
use tactix.Action.{query, notify, pure, ◌>>=◌, ◌>>◌}
use tactix.Feed.{
  TaskStatus, opened, in_progress, done, cancelled, TaskRow, Tables, task_created, task_updated,
  rejected, Reply, problem, blank, task, task_rows, Handler, select, update_where,
}
use tactix.Feed.Order.{latest_first}

abbrev pub status_name : TaskStatus → String
status_name opened = "open"
status_name in_progress = "in_progress"
status_name done = "done"
status_name cancelled = "cancelled"

-- ` AND status=$2` if the text is truthy
abbrev pub has_status : Option String → TaskRow → Bool
has_status none r = true
has_status (some s) r = if truthy (some s) then status_name r.status == s else true

-- `getTasksHandler`
unfoldable pub get_tasks : (status : Option String) (incident : ℕ) → Handler Reply
get_tasks status incident = do
  rows ← query rejected (
      select (λ t.
        latest_first (λ r. r.updated_at)
          (keep (λ r. eqb r.incident_id incident && has_status status r) t.tasks)))
  pure (task_rows 200 rows)

-- What the schema of `postTaskHandler` accepts.
pub record TaskInput : Type 0 where
  pub role : String
  pub assignee_upn : Option String
  pub title : String
  pub description : String

unfoldable pub parse_task : Option Json → Option TaskInput
parse_task none = none
parse_task (some body) = elim (string_field (member "role" body)) [
  | none ↦ none
  | some role ↦ elim (optional_string (member "assigneeUpn" body)) [
    | none ↦ none
    | some assignee ↦ elim (string_field (member "title" body)) [
      | none ↦ none
      | some title ↦ elim (string_field (member "description" body)) [
        | none ↦ none
        | some description ↦ some (record {
          role = role;
          assignee_upn = assignee;
          title = title;
          description = description;
        })
      ]
    ]
  ]
]

-- `s || null`
abbrev pub or_null : Option String → Option String
or_null none = none
or_null (some s) = if truthy (some s) then some s else none

abbrev pub new_task : (now incident : ℕ) → TaskInput → (sub : Option String) (id : String) → TaskRow
new_task now incident input sub id = record {
  task_id = id;
  incident_id = incident;
  role = input.role;
  assignee_upn = or_null input.assignee_upn;
  title = input.title;
  description = input.description;
  status = opened;
  created_by = or_else sub (or_else input.assignee_upn "unknown");
  created_at = now;
  updated_at = now;
}

abbrev pub insert_task : TaskRow → Tables → TaskRow × Tables
insert_task row t = (row, record t { tasks = t.tasks ++ (row ∷ []) })

-- `postTaskHandler`
unfoldable pub post_task :
    (now incident : ℕ) → Option Json → (sub : Option String) (id : String) → Handler Reply
post_task now incident body sub id = elim (parse_task body) [
  | none ↦ pure (problem 400 "invalid body")
  | some input ↦ do
    row ← query rejected (insert_task (new_task now incident input sub id))
    notify (task_created incident id row.title row.status)
    pure (task 201 row)
]

-- What the schema of `patchTaskHandler` accepts; `none` is undefined.
pub record TaskPatch : Type 0 where
  pub status : Option TaskStatus
  pub title : Option String
  pub description : Option String
  pub assignee_upn : Option String

abbrev pub status_of : String → Option TaskStatus
status_of s =
    if s == "open"
    then some opened
    else if s == "in_progress"
    then some in_progress
    else if s == "done"
    then some done
    else if s == "cancelled"
    then some cancelled
    else none

-- `z.enum([…]).optional()`: outer `none` refuses it, inner `none` is undefined.
abbrev pub optional_status : Option Json → Option (Option TaskStatus)
optional_status none = some none
optional_status (some (text s)) = elim (status_of s) [
  | none ↦ none
  | some status ↦ some (some status)
]
optional_status (some _) = none

unfoldable pub parse_task_patch : Option Json → Option TaskPatch
parse_task_patch none = none
parse_task_patch (some body) = elim (optional_status (member "status" body)) [
  | none ↦ none
  | some status ↦ elim (optional_string (member "title" body)) [
    | none ↦ none
    | some title ↦ elim (optional_string (member "description" body)) [
      | none ↦ none
      | some description ↦ elim (optional_string (member "assigneeUpn" body)) [
        | none ↦ none
        | some assignee ↦
            if is_object body
            then some (record {
              status = status;
              title = title;
              description = description;
              assignee_upn = assignee;
            })
            else none
      ]
    ]
  ]
]

abbrev pub is_given : {A : Type 0} → Option A → Bool
is_given none = false
is_given (some a) = true

-- `!fields.length`
abbrev pub changes_nothing : TaskPatch → Bool
changes_nothing p =
    not (is_given p.status || truthy p.title || truthy p.description || is_given p.assignee_upn)

abbrev pub set_status : Option TaskStatus → TaskStatus → TaskStatus
set_status none old = old
set_status (some new) old = new

-- A column that is set only to a truthy text.
abbrev pub set_column : Option String → String → String
set_column none old = old
set_column (some s) old = if truthy (some s) then s else old

abbrev pub set_assignee : Option String → Option String → Option String
set_assignee none old = old
set_assignee (some new) old = some new

abbrev pub patched_task : (now : ℕ) → TaskPatch → TaskRow → TaskRow
patched_task now p r = record r {
  status = set_status p.status r.status;
  title = set_column p.title r.title;
  description = set_column p.description r.description;
  assignee_upn = set_assignee p.assignee_upn r.assignee_upn;
  updated_at = now;
}

-- WHERE incident_id=$ AND task_id=$
abbrev pub is_task : ℕ → String → TaskRow → Bool
is_task incident id r = eqb r.incident_id incident && r.task_id == id

abbrev pub patch_statement : ℕ → String → (TaskRow → TaskRow) → Tables → Option TaskRow × Tables
patch_statement incident id change t = (
  first (map change (keep (is_task incident id) t.tasks)),
  record t { tasks = update_where (is_task incident id) change t.tasks },
)

abbrev pub reply_task : ℕ → String → Option TaskRow → Handler Reply
reply_task incident id none = pure (blank 404)
reply_task incident id (some row) = do
  notify (task_updated incident id row.status)
  pure (task 200 row)

-- `patchTaskHandler`
unfoldable pub patch_task : (now incident : ℕ) (id : String) → Option Json → Handler Reply
patch_task now incident id body = elim (parse_task_patch body) [
  | none ↦ pure (problem 400 "invalid body")
  | some p ↦ if changes_nothing p then pure (blank 200) else (do
    row ← query rejected (patch_statement incident id (patched_task now p))
    reply_task incident id row)
]
