-- ===== src/Mcp.antt =====
-- src/mcp/mcp_agent.ts, src/mcp/dispatcher.ts and src/handlers/sitrep.ts: the agent that works
-- through a directory of tasks. The oracle of `Db` says which file operations fail; a write that
-- fails leaves its file as it was.
pub mod Suffix
pub mod Names
pub mod Works
pub mod Tests
use Prim.Native.String.{◌++◌ as str_append}
use tactix.Common.{
  ℕ, String, Bool, true, false, not, ◌&&◌, ◌||◌, Option, none, some, List, [], ◌∷◌, ◌++◌, map, keep,
  find, ◌==◌, if◌then◌else◌,
}
use tactix.Json.{Json, text, null, member, truthy}
use tactix.Action.{Action, Result, ok, err, Db, query, pure, throw, require, ◌>>=◌, ◌>>◌}
use tactix.Mcp.Suffix.{ends_with}

pub record File : Type 0 where
  pub name : String
  pub content : String

-- An entry of the log: `status` is "success" or "failed", `timestamp` a time.
pub data LogEntry : Type 0 where
  success : (task_id type : Json) (timestamp : ℕ) (output : Option String) → LogEntry
  failed : (task_id : String) (timestamp : ℕ) (error : String) → LogEntry

-- What the log file holds: nothing, a text that is no JSON, JSON that is no array, or entries.
pub data LogFile : Type 0 where
  absent : LogFile
  garbled : LogFile
  no_array : LogFile
  entries : List LogEntry → LogFile

-- ./tasks/queue, ./tasks/archive and ./logs/mcp_tasks.json
pub record Disk : Type 0 where
  pub queue : List File
  pub archive : List File
  pub log : LogFile

-- The error of a step is its message.
abbrev pub Step : Type 0 → Type 0
Step A = Action (Db Disk (Unit {0})) String A

abbrev pub is_named : String → File → Bool
is_named name f = f.name == name

abbrev pub other_than : String → File → Bool
other_than name f = not (f.name == name)

module _ {A : Type 0} where
  abbrev pub resumed :
      Result String A × Db Disk (Unit {0})
      → (String → Step A)
      → Result String A × Db Disk (Unit {0})
  resumed (ok a, s) handler = (ok a, s)
  resumed (err e, s) handler = handler e s

  -- `try { … } catch (err) { … }`
  unfoldable pub recover : Step A → (String → Step A) → Step A
  recover m handler s = resumed (m s) handler

  abbrev pub closed :
      Result String A
      → Result String (Unit {0}) × Db Disk (Unit {0})
      → Result String A × Db Disk (Unit {0})
  closed r (ok done, s) = (r, s)
  closed r (err e, s) = (err e, s)

  -- `try { … } finally { … }`
  unfoldable pub ensure : Step A → Step (Unit {0}) → Step A
  ensure m last s = let (r, s') = m s in closed r (last s')

-- `io` is the message of a file operation that fails.
module _ (io : String) where
  -- `fs.readFile` of a task
  unfoldable pub read_task : String → Step String
  read_task name = do
    found ← query io (λ t. (find (is_named name) t.queue, t))
    elim found [ none ↦ throw io | some f ↦ pure f.content ]

  -- `archiveTask`: the file takes the place of one of the same name.
  unfoldable pub archive_task : String → Step (Unit {0})
  archive_task name = do
    moved ← query io (λ t. elim (find (is_named name) t.queue) [
      | none ↦ (false, t)
      | some f ↦ (
        true,
        record t {
          queue = keep (other_than name) t.queue;
          archive = keep (other_than name) t.archive ++ (f ∷ []);
        },
      )
    ])
    require moved io

  -- What the log holds for `logs.push`: `none` is a value that is no array.
  abbrev pub logs_of : LogFile → Option (List LogEntry)
  logs_of absent = some []
  logs_of garbled = some []
  logs_of no_array = none
  logs_of (entries logs) = some logs

  -- `logTaskResult`; an error of the read is caught there, and the log then starts anew.
  unfoldable pub log_task_result : LogEntry → Step (Unit {0})
  unfolding recover
  log_task_result entry = do
    logs ← recover (query io (λ t. (logs_of t.log, t))) (λ e. pure (some []))
    elim logs [
      | none ↦ throw "logs.push is not a function"
      | some l ↦ query io (λ t. (tt, record t { log = entries (l ++ (entry ∷ [])) }))
    ]

  -- `parse` is `JSON.parse`, an error where it throws; `show` is the text of a value in a template;
  -- `now` is the time at which the result of a file is written down.
  module _ (parse : String → Result String Json) (show : Json → String) (now : String → ℕ) where
    -- `handleSitrepTask`
    abbrev pub handle_sitrep_task : Json → Result String (Option String)
    handle_sitrep_task task = ok none

    -- `dispatchTask`, with the type of the task
    unfoldable pub dispatch_task : (type task : Json) → Result String (Option String)
    dispatch_task (text s) task =
        if s == "generate_sitrep"
        then handle_sitrep_task task
        else err (str_append "Unsupported task type: " (show (text s)))
    dispatch_task type task = err (str_append "Unsupported task type: " (show type))

    -- A member that the agent requires.
    abbrev pub field : String → Json → Option Json
    field key task = let v = member key task in if truthy v then v else none

    -- The checks of `processTask` on the value that was read, and the dispatch.
    unfoldable pub perform : Json → Result String (Json × Json × Option String)
    unfolding dispatch_task
    perform null = err "Cannot read properties of null (reading 'task_id')"
    perform task = elim (field "task_id" task) [
      | none ↦ err "Missing required task fields"
      | some task_id ↦ elim (field "type" task) [
        | none ↦ err "Missing required task fields"
        | some type ↦ elim (field "context" task) [
          | none ↦ err "Missing required task fields"
          | some context ↦ elim (dispatch_task type task) [
            | err e ↦ err e
            | ok output ↦ ok (task_id, type, output)
          ]
        ]
      ]
    ]

    abbrev pub lift : {A : Type 0} → Result String A → Step A
    lift (ok a) = pure a
    lift (err e) = throw e

    -- The block under `try` of `processTask`.
    unfoldable pub attempt_task : String → Step (Unit {0})
    unfolding read_task perform log_task_result
    attempt_task name = do
      raw ← read_task name
      task ← lift (parse raw)
      result ← lift (perform task)
      let (task_id, type, output) = result
      log_task_result (success task_id type (now name) output)

    unfoldable pub process_task : String → Step (Unit {0})
    unfolding attempt_task archive_task recover ensure log_task_result
    process_task name =
        ensure (recover (attempt_task name) (λ e. log_task_result (failed name (now name) e)))
          (archive_task name)

    -- the loop of `main`
    unfoldable pub process_all : List String → Step (Unit {0})
    unfolding process_task
    process_all [] = pure tt
    process_all (name ∷ names) = process_task name >>= (λ done. process_all names)

    -- `main`; `ensureDirectories` makes two calls, which write no file.
    unfoldable pub main : Step (Unit {0})
    unfolding process_all ends_with
    main = do
      archive ← query io (λ t. (tt, t))
      logs ← query io (λ t. (tt, t))
      files ← query io (λ t. (map (λ f. f.name) t.queue, t))
      process_all (keep (λ name. ends_with ".json" name) files)
