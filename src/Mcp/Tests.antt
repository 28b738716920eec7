-- ===== src/Mcp/Tests.antt =====
-- A run of the agent at a concrete queue.
use tactix.Common.{refl, ℕ, String, List, [], ◌∷◌, ◌==◌, if◌then◌else◌}
use tactix.Json.{Json, Members, object, with_member, text}
use tactix.Action.{Result, ok, err, query, pure, throw, require, ◌>>=◌}
use tactix.Mcp.Suffix.{ends_with}
use tactix.Mcp.{
  File, LogEntry, success, failed, absent, Disk, recover, ensure, read_task, archive_task,
  log_task_result, dispatch_task, perform, attempt_task, process_task, process_all, main,
}
use tactix.Mcp.Works.{Ends, main-Ends}
use tactix.Common.{none}

agent : Unit {0}
unfolding ends_with recover ensure read_task archive_task log_task_result dispatch_task perform
    attempt_task process_task process_all main query pure throw require ◌>>=◌
agent = tt

abbrev file : String → String → File
file name content = record { name = name; content = content }

abbrev task_of : String → Json
task_of type = object (
    with_member "task_id" (text "t1")
      (with_member "type" (text type) (with_member "context" (text "c") Members.done)))

abbrev parse : String → Result String Json
parse content =
    if content == "sitrep"
    then ok (task_of "generate_sitrep")
    else if content == "other"
    then ok (task_of "other")
    else err "Unexpected token"

abbrev show : Json → String
show (text s) = s
show _ = ""

abbrev now : String → ℕ
now name = 7

abbrev disk : Disk
disk = record {
  queue =
      file "a.json" "sitrep" ∷ file "notes.txt" "" ∷ file "b.json" "other" ∷ file "c.json" "{" ∷ [];
  archive = [];
  log = absent;
}

abbrev logged : List LogEntry
logged =
    success (text "t1") (text "generate_sitrep") 7 none
    ∷ failed "b.json" 7 "Unsupported task type: other"
    ∷ failed "c.json" 7 "Unexpected token"
    ∷ []

main-Ends_example :
    Ends "EIO" parse show now
      (main "EIO" parse show now)
      disk
      (file "notes.txt" "" ∷ [])
      (file "a.json" "sitrep" ∷ file "b.json" "other" ∷ file "c.json" "{" ∷ [])
      logged
unfolding agent
main-Ends_example =
    main-Ends "EIO" parse show now disk []
      ((refl, (refl, (refl, tt))), ((refl, (refl, tt)), ((refl, tt), (tt, tt)))) refl
