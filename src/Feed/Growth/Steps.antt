-- ===== src/Feed/Growth/Steps.antt =====
-- The handlers that write, in any order and with any queries rejected.
use tactix.Common.{ℕ, String, Bool, List, Option}
use tactix.Json.{Json}
use tactix.Action.{tick}
use tactix.Feed.{Feed}
use tactix.Feed.Messages.{draft_message, submit_message_of}
use tactix.Feed.Chat.{post_chat}
use tactix.Feed.Tasks.{post_task, patch_task}
use tactix.Feed.Growth.{Evolves, Evolves-refl, Evolves-trans}
use tactix.Feed.Growth.Handlers.{
  draft_message-Grows, submit_message_of-Grows, post_chat-Grows, post_task-Grows, patch_task-Grows,
}

module _ (as_text : Json → String) (warlog_url : Option String) where
  -- A request that writes, or another oracle of the queries to come.
  pub data Step : Feed → Feed → Type 0 where
    draft_call :
        {s : Feed} (now incident : ℕ) (body : Option Json) (sub : Option String) (id : String)
        → Step s (draft_message as_text warlog_url now incident body sub id s).1
    submit_call :
        {s : Feed} (incident : ℕ) (body : Option Json)
        → Step s (submit_message_of as_text warlog_url incident body s).1
    chat_call :
        {s : Feed} (now incident : ℕ) (body : Option Json) (sub : Option String) (id : String)
        → Step s (post_chat now incident body sub id s).1
    task_call :
        {s : Feed} (now incident : ℕ) (body : Option Json) (sub : Option String) (id : String)
        → Step s (post_task now incident body sub id s).1
    patch_call :
        {s : Feed} (now incident : ℕ) (id : String) (body : Option Json)
        → Step s (patch_task now incident id body s).1
    weather : {s : Feed} (faults : List Bool) → Step s (tick s faults)

  pub data Steps : Feed → Feed → Type 0 where
    stop : {s : Feed} → Steps s s
    more : {s t u : Feed} → Step s t → Steps t u → Steps s u

  Step-Evolves : {s t : Feed} → Step s t → Evolves s.tables t.tables
  Step-Evolves (draft_call now incident body sub id) =
      (draft_message-Grows as_text warlog_url now incident body sub id).at _
  Step-Evolves (submit_call incident body) =
      (submit_message_of-Grows as_text warlog_url incident body).at _
  Step-Evolves (chat_call now incident body sub id) =
      (post_chat-Grows now incident body sub id).at _
  Step-Evolves (task_call now incident body sub id) =
      (post_task-Grows now incident body sub id).at _
  Step-Evolves (patch_call now incident id body) = (patch_task-Grows now incident id body).at _
  Step-Evolves (weather faults) = Evolves-refl _

  -- Whatever requests are made one after another, rejected queries included: messages and chat keep
  -- their authors and texts, a submitted message stays submitted, tasks keep their role and creator,
  -- and no row is removed.
  pub Steps-Evolves : {s t : Feed} → Steps s t → Evolves s.tables t.tables
  Steps-Evolves stop = Evolves-refl _
  Steps-Evolves (more a l) = Evolves-trans _ _ _ (Step-Evolves a) (Steps-Evolves l)
