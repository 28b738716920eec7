-- ===== src/Feed/Tests.antt =====
-- The theorems on messages, chat, tasks and the feed of an incident at concrete requests, and runs.
use tactix.Common.{
  ℕ, String, ◌≡◌, refl, arith, Option, none, some, [], ◌∷◌, keep, first, ◌==◌, if◌then◌else◌,
}
use tactix.Json.{Json, Members, text, object, with_member}
use tactix.Action.{ok, query, notify, pure, throw, ◌>>=◌}
use tactix.Feed.{
  MessageRow, draft, submitted, ChatRow, TaskRow, opened, done, Feed, message, blank, problem, task,
  task_rows, war_logged, activity, chat_item, Numeral, not_a_number, whole, update_where,
}
use tactix.Feed.Messages.{
  draft_message, submit_message_of, submit_message, save_draft, log_warlog, is_message,
}
use tactix.Feed.Tasks.{get_tasks, post_task, parse_task, patch_task, parse_task_patch, is_task}
use tactix.Feed.Order.{latest_first, insert_latest}
use tactix.Feed.Activity.{get_activity, all_items, IsFeed, get_activity-IsFeed}
use tactix.Feed.Latest.{get_tasks-post_task, listed}
use tactix.Feed.Effects.{submit_message_of-stored, patch_task-stored}
use tactix.Feed.Growth.{Evolves}
use tactix.Feed.Growth.Steps.{stop, more, submit_call, patch_call, Steps-Evolves}

feed : Unit {0}
unfolding draft_message submit_message_of submit_message save_draft log_warlog post_task parse_task
    get_tasks patch_task parse_task_patch get_activity latest_first insert_latest update_where ◌>>=◌
    query notify pure throw
feed = tt

abbrev as_text : Json → String
as_text (text s) = s
as_text _ = ""

abbrev url : Option String
url = some "http://warlog"

abbrev number : String → Numeral
number s = if s == "1" then whole 1 else not_a_number

abbrev draft_row : MessageRow
draft_row = record {
  id = "m1";
  incident_id = 7;
  author = "ann";
  content = "on site";
  status = draft;
  created_at = 10;
}

abbrev old_task : TaskRow
old_task = record {
  task_id = "t1";
  incident_id = 7;
  role = "medic";
  assignee_upn = none;
  title = "Triage";
  description = "";
  status = opened;
  created_by = "ann";
  created_at = 20;
  updated_at = 20;
}

abbrev chat_row : ChatRow
chat_row = record {
  msg_id = "c1";
  incident_id = 7;
  author_upn = "bob";
  text = "hello";
  created_at = 30;
}

abbrev start : Feed
start = record {
  tables = record {
    messages = draft_row ∷ [];
    chat = chat_row ∷ [];
    warlog = [];
    tasks = old_task ∷ [];
  };
  sent = [];
  faults = [];
}

abbrev submit_body : Option Json
submit_body = some (object (with_member "messageId" (text "m1") Members.done))

abbrev done_body : Option Json
done_body = some (object (with_member "status" (text "done") Members.done))

abbrev task_body : Option Json
task_body = some (
    object (
      with_member "role" (text "medic")
        (with_member "title" (text "Search") (with_member "description" (text "") Members.done))))

abbrev new_row : TaskRow
new_row = record old_task {
  task_id = "t2";
  title = "Search";
  created_by = "bob";
  created_at = 40;
  updated_at = 40;
}

message_tests :
    ((submit_message_of as_text url 7 submit_body start).0
      ≡ ok (message 200 (record draft_row { status = submitted })))
    × ((submit_message_of as_text url 7 submit_body start).1.sent ≡ war_logged "ann" "on site" ∷ [])
    × ((submit_message_of as_text url 8 submit_body start).0 ≡ ok (blank 404))
    × ((draft_message as_text url 10 7 none (some "ann") "m2" start).0
        ≡ ok (problem 400 "content required"))
unfolding feed
message_tests = (refl, refl, refl, refl)

task_tests :
    ((post_task 40 7 task_body (some "bob") "t2" start).0 ≡ ok (task 201 new_row))
    × ((get_tasks none 7 (post_task 40 7 task_body (some "bob") "t2" start).1).0
        ≡ ok (task_rows 200 (new_row ∷ old_task ∷ [])))
    × ((patch_task 50 7 "t1" done_body start).0
        ≡ ok (task 200 (record old_task { status = done; updated_at = 50 })))
unfolding feed
task_tests = (refl, refl, refl)

feed_test :
    (get_activity number (some "1") 7 start).0
    ≡ ok (activity 200 (chat_item "c1" "bob" "hello" 30 ∷ []))
unfolding feed
feed_test = refl

get_activity-IsFeed_example :
    IsFeed 1 (all_items 7 start.tables) (activity 200 (chat_item "c1" "bob" "hello" 30 ∷ []))
get_activity-IsFeed_example = get_activity-IsFeed number (some "1") 7 1 start _ refl feed_test

get_tasks-post_task_test :
    task_rows 200 (new_row ∷ old_task ∷ []) ≡ task_rows 200 (new_row ∷ listed 7 start.tables.tasks)
get_tasks-post_task_test =
    get_tasks-post_task 40 7 task_body (some "bob") "t2" start new_row
      (task_rows 200 (new_row ∷ old_task ∷ [])) (omega arith, tt) (task_tests.0) (task_tests.1)

submit_message_of-stored_test :
    (submitted ≡ submitted)
    × (first (
          keep
            (is_message 7 "m1")
            (submit_message_of as_text url 7 submit_body start).1.tables.messages)
        ≡ some (record draft_row { status = submitted }))
submit_message_of-stored_test =
    submit_message_of-stored as_text url 7 submit_body start
      (record draft_row { status = submitted }) (message_tests.0)

patch_task-stored_test :
    (◌≡◌ {A = ℕ} 50 50)
    × (first (keep (is_task 7 "t1") (patch_task 50 7 "t1" done_body start).1.tables.tasks)
        ≡ some (record old_task { status = done; updated_at = 50 }))
patch_task-stored_test =
    patch_task-stored 50 7 "t1" done_body start (record old_task { status = done; updated_at = 50 })
      (task_tests.2)

Steps-Evolves_example :
    Evolves start.tables
      (patch_task 50 7 "t1" done_body
        (submit_message_of as_text url 7 submit_body start).1).1.tables
Steps-Evolves_example =
    Steps-Evolves as_text url
      (more (submit_call 7 submit_body) (more (patch_call 50 7 "t1" done_body) stop))
