-- ===== src/Feed.antt =====
-- What is written down on an incident: services/incident-svc/src/incidents/messages.ts, warlog.ts and
-- routes/incidents/{messages,chat,tasks,activity}.ts. A table is the list of its rows in the order of
-- insertion; a time is a number of milliseconds. The body of a request is `none` if it is no JSON.
pub mod Messages
pub mod Chat
pub mod Tasks
pub mod Order
pub mod Activity
pub mod Growth
pub mod Latest
pub mod Effects
mod Tests
use tactix.Common.{
  ℕ, ◌+◌, ◌*◌, String, Bool, true, false, not, Option, none, some, List, [], ◌∷◌, ◌++◌, map, keep,
  first, min, length, ltb, eqb, leb, ◌==◌, truthy, if◌then◌else◌,
}
use tactix.Action.{Action, Db, Result, query}

pub data MessageStatus : Type 0 where
  draft submitted : MessageStatus

-- `Message`
pub record MessageRow : Type 0 where
  pub id : String
  pub incident_id : ℕ
  pub author : String
  pub content : String
  pub status : MessageStatus
  pub created_at : ℕ

pub record ChatRow : Type 0 where
  pub msg_id : String
  pub incident_id : ℕ
  pub author_upn : String
  pub text : String
  pub created_at : ℕ

-- The status `open` is `opened`, since `open` is a keyword here.
pub data TaskStatus : Type 0 where
  opened in_progress done cancelled : TaskStatus

pub record TaskRow : Type 0 where
  pub task_id : String
  pub incident_id : ℕ
  pub role : String
  pub assignee_upn : Option String
  pub title : String
  pub description : String
  pub status : TaskStatus
  pub created_by : String
  pub created_at : ℕ
  pub updated_at : ℕ

-- A row of incident_messages, which only the activity feed reads.
pub record WarlogRow : Type 0 where
  pub message_id : String
  pub incident_id : ℕ
  pub author_upn : String
  pub content : String
  pub created_at : ℕ

pub record Tables : Type 0 where
  pub messages : List MessageRow
  pub chat : List ChatRow
  pub warlog : List WarlogRow
  pub tasks : List TaskRow

-- What goes out: the notifications of `tactix_events`, and the POST of `logWarlog`.
pub data Note : Type 0 where
  task_created : (incident : ℕ) (task title : String) → TaskStatus → Note
  task_updated : (incident : ℕ) (task : String) → TaskStatus → Note
  chat_posted : (incident : ℕ) (msg author text : String) (created_at : ℕ) → Note
  war_logged : (author content : String) → Note

-- A query that the database rejects; no handler catches it.
pub data Rejection : Type 0 where
  rejected : Rejection

pub data ActivityItem : Type 0 where
  chat_item : (id author text : String) (created_at : ℕ) → ActivityItem
  warlog_item : (id author text : String) (created_at : ℕ) → ActivityItem
  task_item : (id title : String) → TaskStatus → (created_at : ℕ) → ActivityItem

pub data Reply : Type 0 where
  problem : (status : ℕ) (error : String) → Reply
  blank : (status : ℕ) → Reply
  message : (status : ℕ) → MessageRow → Reply
  chat_message : (status : ℕ) → ChatRow → Reply
  chat_messages : (status : ℕ) → List ChatRow → Reply
  task : (status : ℕ) → TaskRow → Reply
  task_rows : (status : ℕ) → List TaskRow → Reply
  activity : (status : ℕ) → List ActivityItem → Reply

abbrev pub Feed : Type 0
Feed = Db Tables Note

abbrev pub Handler : Type 0 → Type 0
Handler A = Action Feed Rejection A

-- A statement that only reads.
abbrev pub select {ℓ} : {A : Type ℓ} → (Tables → A) → Tables → A × Tables
select f t = (f t, t)

-- UPDATE … WHERE the test holds
unfoldable pub update_where : {A : Type 0} → (A → Bool) → (A → A) → List A → List A
update_where test change [] = []
update_where test change (r ∷ rs) =
    let rest = update_where test change rs in if test r then change r ∷ rest else r ∷ rest

-- `Number(text)`, a fraction left out
pub data Numeral : Type 0 where
  not_a_number : Numeral
  whole : ℕ → Numeral
  negative : ℕ → Numeral

-- `Math.min(Number(…) || default, most)`; 0 and NaN are falsy.
abbrev pub bounded : (default most : ℕ) → Numeral → Numeral
bounded default most not_a_number = whole (min default most)
bounded default most (whole n) = whole (min (if eqb n 0 then default else n) most)
bounded default most (negative n) = negative n
