-- ===== src/Feed/Growth/Handlers.antt =====
-- What each handler that writes does to what is on record of an incident.
use tactix.Common.{
  ℕ, String, ◌≡◌, refl, List, Option, none, some, Option-cases, Bool-cases, inl, inr, truthy,
}
use tactix.Json
use tactix.Json.{Json, member}
use tactix.Feed.{MessageRow, ChatRow, TaskRow, Tables, Handler, Reply}
use tactix.Feed.Messages.{
  submitted_row, log_found, log_warlog, save_draft, submit_message, draft_content, message_id,
  draft_message, submit_message_of, member_of,
}
use tactix.Feed.Chat.{insert_chat, post_chat, parse_chat}
use tactix.Feed.Tasks.{
  TaskPatch, post_task, parse_task, patched_task, patch_task, parse_task_patch, reply_task,
  changes_nothing,
}
use tactix.Feed.Growth.{
  Extends, Extends-append, Extends-update, MessageEvolves, MessageEvolves-refl, TaskEvolves,
  TaskEvolves-refl, Evolves, Evolves-refl, Grows, Grows-pure, Grows-throw, Grows-query,
  Grows-notify, Grows-bind,
}

Evolves-messages :
    (t : Tables) (ms : List MessageRow)
    → Extends MessageEvolves t.messages ms
    → Evolves t (record t { messages = ms })
Evolves-messages t ms h =
    let e = Evolves-refl t in record { messages = h; chat = e.chat; tasks = e.tasks; warlog = refl }

Evolves-tasks :
    (t : Tables) (ts : List TaskRow)
    → Extends TaskEvolves t.tasks ts
    → Evolves t (record t { tasks = ts })
Evolves-tasks t ts h =
    let e = Evolves-refl t in
    record { messages = e.messages; chat = e.chat; tasks = h; warlog = refl }

submitted_row-MessageEvolves : (r : MessageRow) → MessageEvolves r (submitted_row r)
submitted_row-MessageEvolves r = record {
  id = refl;
  incident = refl;
  author = refl;
  content = refl;
  since = refl;
  status = λ h. refl;
}

module _ (as_text : Json → String) (warlog_url : Option String) where
  log_warlog-Grows :
      (author content : String) → Grows (log_warlog as_text warlog_url author content)
  unfolding log_warlog
  log_warlog-Grows author content = elim (Bool-cases (truthy warlog_url)) [
    | inl set ↦ rw (log_warlog, set) (Grows-notify _)
    | inr unset ↦ rw (log_warlog, unset) (Grows-pure tt)
  ]

  log_found-Grows : (o : Option MessageRow) → Grows (log_found as_text warlog_url o)
  log_found-Grows none = Grows-pure none
  log_found-Grows (some m) =
      Grows-bind _ _ (log_warlog-Grows m.author m.content) λ _. Grows-pure (some m)

  submit_message-Grows :
      (incident : ℕ) (id : String) → Grows (submit_message as_text warlog_url incident id)
  unfolding submit_message
  submit_message-Grows incident id =
      Grows-bind _ _
        (Grows-query _ _ λ t. Evolves-messages t _ (
          Extends-update MessageEvolves _ _ MessageEvolves-refl submitted_row-MessageEvolves
            t.messages))
        log_found-Grows

  save_draft-Grows :
      (now incident : ℕ) (content : String) (author : Option String) (id : String)
      → Grows (save_draft as_text warlog_url now incident content author id)
  unfolding save_draft
  save_draft-Grows now incident content none id = Grows-throw _
  save_draft-Grows now incident content (some author) id =
      Grows-query _ _
        λ t. Evolves-messages t _ (Extends-append MessageEvolves MessageEvolves-refl t.messages _)

  draft_content-Grows :
      (content : Option Json) (accept : Json → Handler Reply)
      → ((c : Json) → Grows (accept c))
      → Grows (draft_content content accept)
  draft_content-Grows none accept g = Grows-pure _
  draft_content-Grows (some c) accept g = elim (Bool-cases (tactix.Json.truthy (some c))) [
    | inl there ↦ rw there (g c)
    | inr empty ↦ rw empty (Grows-pure _)
  ]

  message_id-Grows :
      (id : Option Json) (accept : Json → Handler Reply)
      → ((c : Json) → Grows (accept c))
      → Grows (message_id id accept)
  message_id-Grows none accept g = Grows-pure _
  message_id-Grows (some c) accept g = elim (Bool-cases (tactix.Json.truthy (some c))) [
    | inl there ↦ rw there (g c)
    | inr empty ↦ rw empty (Grows-pure _)
  ]

  pub draft_message-Grows :
      (now incident : ℕ) (body : Option Json) (sub : Option String) (id : String)
      → Grows (draft_message as_text warlog_url now incident body sub id)
  unfolding draft_message
  draft_message-Grows now incident body sub id =
      draft_content-Grows (member_of "content" body) _
        λ c. Grows-bind _ _ (save_draft-Grows now incident (as_text c) sub id) λ m. Grows-pure _

  pub submit_message_of-Grows :
      (incident : ℕ) (body : Option Json)
      → Grows (submit_message_of as_text warlog_url incident body)
  unfolding submit_message_of
  submit_message_of-Grows incident body =
      message_id-Grows (member_of "messageId" body) _
        λ id. Grows-bind _ _ (submit_message-Grows incident (as_text id)) λ m. Grows-pure _

pub post_chat-Grows :
    (now incident : ℕ) (body : Option Json) (sub : Option String) (id : String)
    → Grows (post_chat now incident body sub id)
unfolding post_chat
post_chat-Grows now incident body sub id = elim (Option-cases (parse_chat body)) [
  | inl bad ↦ rw (post_chat, bad) (Grows-pure _)
  | inr (input, good) ↦
      rw (post_chat, good)
        (Grows-bind _ _ (Grows-query _ _ (added _))
          λ m. Grows-bind _ _ (Grows-notify _) λ _. Grows-pure _)
]
  where
    added : (row : ChatRow) (t : Tables) → Evolves t (insert_chat row t).1
    added row t =
        let e = Evolves-refl t in
        record {
          messages = e.messages;
          chat = Extends-append (λ x y. y ≡ x) (λ x. refl) t.chat _;
          tasks = e.tasks;
          warlog = refl;
        }

pub post_task-Grows :
    (now incident : ℕ) (body : Option Json) (sub : Option String) (id : String)
    → Grows (post_task now incident body sub id)
unfolding post_task
post_task-Grows now incident body sub id = elim (Option-cases (parse_task body)) [
  | inl bad ↦ rw (post_task, bad) (Grows-pure _)
  | inr (input, good) ↦
      rw (post_task, good)
        (Grows-bind _ _
          (Grows-query _ _
            λ t. Evolves-tasks t _ (Extends-append TaskEvolves TaskEvolves-refl t.tasks _))
          λ m. Grows-bind _ _ (Grows-notify _) λ _. Grows-pure _)
]

reply_task-Grows :
    (incident : ℕ) (id : String) (o : Option TaskRow) → Grows (reply_task incident id o)
reply_task-Grows incident id none = Grows-pure _
reply_task-Grows incident id (some row) = Grows-bind _ _ (Grows-notify _) λ _. Grows-pure _

patched_task-TaskEvolves :
    (now : ℕ) (p : TaskPatch) (x : TaskRow) → TaskEvolves x (patched_task now p x)
patched_task-TaskEvolves now p x = record {
  id = refl;
  incident = refl;
  role = refl;
  creator = refl;
  since = refl;
}

pub patch_task-Grows :
    (now incident : ℕ) (id : String) (body : Option Json) → Grows (patch_task now incident id body)
unfolding patch_task
patch_task-Grows now incident id body = elim (Option-cases (parse_task_patch body)) [
  | inl bad ↦ rw (patch_task, bad) (Grows-pure _)
  | inr (p, good) ↦ elim (Bool-cases (changes_nothing p)) [
    | inl nothing ↦ rw (patch_task, good, nothing) (Grows-pure _)
    | inr something ↦
        rw (patch_task, good, something)
          (Grows-bind _ _
            (Grows-query _ _ λ t. Evolves-tasks t _ (
              Extends-update TaskEvolves _ _ TaskEvolves-refl (patched_task-TaskEvolves now p)
                t.tasks))
            (reply_task-Grows incident id))
  ]
]
