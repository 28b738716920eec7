-- ===== src/Feed/Messages.antt =====
-- services/incident-svc/src/incidents/messages.ts, warlog.ts and routes/incidents/messages.ts.
-- `as_text` is how the database client writes a JSON value as the text of a column; `now` the time of
-- the call; `id` the drawn UUID; `sub` is `req.user!.sub`.
use tactix.Common.{
  ℕ, String, Bool, ◌&&◌, Option, none, some, [], ◌∷◌, ◌++◌, map, keep, first, eqb, ◌==◌, truthy,
  if◌then◌else◌,
}
use tactix.Json.{Json, member}
use tactix.Action.{query, notify, pure, throw, ◌>>=◌, ◌>>◌}
use tactix.Feed.{
  MessageRow, draft, submitted, Tables, war_logged, rejected, Reply, problem, blank, message,
  Handler, update_where,
}

abbrev pub insert_message : MessageRow → Tables → MessageRow × Tables
insert_message row t = (row, record t { messages = t.messages ++ (row ∷ []) })

-- WHERE id=$2 AND incident_id=$3
abbrev pub is_message : ℕ → String → MessageRow → Bool
is_message incident id r = r.id == id && eqb r.incident_id incident

abbrev pub submitted_row : MessageRow → MessageRow
submitted_row r = record r { status = submitted }

abbrev pub submit_statement : ℕ → String → Tables → Option MessageRow × Tables
submit_statement incident id t = (
  first (map submitted_row (keep (is_message incident id) t.messages)),
  record t { messages = update_where (is_message incident id) submitted_row t.messages },
)

abbrev pub member_of : String → Option Json → Option Json
member_of key none = none
member_of key (some body) = member key body

abbrev pub draft_content : Option Json → (Json → Handler Reply) → Handler Reply
draft_content none accept = pure (problem 400 "content required")
draft_content (some content) accept =
    if tactix.Json.truthy (some content)
    then accept content
    else pure (problem 400 "content required")

abbrev pub reply_found : Option MessageRow → Reply
reply_found none = blank 404
reply_found (some msg) = message 200 msg

abbrev pub message_id : Option Json → (Json → Handler Reply) → Handler Reply
message_id none accept = pure (problem 400 "messageId required")
message_id (some id) accept =
    if tactix.Json.truthy (some id) then accept id else pure (problem 400 "messageId required")

module _ (as_text : Json → String) (warlog_url : Option String) where
  -- `logWarlog`, whose errors are dropped
  unfoldable pub log_warlog : String → String → Handler (Unit {0})
  log_warlog author content =
      if truthy warlog_url then notify (war_logged author content) else pure tt

  -- `saveDraft`; the column author is NOT NULL.
  unfoldable pub save_draft :
      (now incident : ℕ) (content : String) (author : Option String) (id : String)
      → Handler MessageRow
  save_draft now incident content none id = throw rejected
  save_draft now incident content (some author) id = query rejected (
      insert_message (record {
        id = id;
        incident_id = incident;
        author = author;
        content = content;
        status = draft;
        created_at = now;
      }))

  abbrev pub log_found : Option MessageRow → Handler (Option MessageRow)
  log_found none = pure none
  log_found (some msg) = do log_warlog msg.author msg.content; pure (some msg)

  -- `submitMessage`
  unfoldable pub submit_message : (incident : ℕ) (id : String) → Handler (Option MessageRow)
  unfolding log_warlog
  submit_message incident id = do msg ← query rejected (submit_statement incident id); log_found msg

  -- `draftMessageHandler`
  unfoldable pub draft_message :
      (now incident : ℕ) → Option Json → (sub : Option String) (id : String) → Handler Reply
  unfolding save_draft
  draft_message now incident body sub id =
      draft_content (member_of "content" body)
        λ content. do msg ← save_draft now incident (as_text content) sub id; pure (message 201 msg)

  -- `submitMessageHandler`
  unfoldable pub submit_message_of : (incident : ℕ) → Option Json → Handler Reply
  unfolding submit_message
  submit_message_of incident body =
      message_id (member_of "messageId" body)
        λ id. do msg ← submit_message incident (as_text id); pure (reply_found msg)
