-- ===== src/Feed/Chat.antt =====
-- services/incident-svc/src/routes/incidents/chat.ts. `number` is `Number` of a text, `date` is
-- `new Date` of a text, which the database rejects if it is no date.
use Prim.Native.Char.{code}
use Prim.Native.String.{[], ◌∷◌}
use tactix.Common.{
  ℕ, ◌+◌, String, Bool, ◌&&◌, Option, none, some, List, ◌++◌, keep, take, ltb, leb, eqb, truthy,
  or_else, if◌then◌else◌,
}
use tactix.Json.{Json, member, string_field, optional_string}
use tactix.Action.{query, notify, pure, throw, ◌>>=◌, ◌>>◌}
use tactix.Feed.{
  ChatRow, Tables, chat_posted, rejected, Reply, problem, chat_message, chat_messages, Handler,
  select, Numeral, not_a_number, whole, negative, bounded,
}
use tactix.Feed.Order.{latest_first}

-- `length` of a text, in units of 16 bits
unfoldable pub units : String → ℕ
units [] = 0
units (c ∷ s) = (if ltb 65_535 (code c) then 2 else 1) + units s

-- ` AND created_at > since`
abbrev pub is_since : ℕ → Option ℕ → ChatRow → Bool
is_since incident none r = eqb r.incident_id incident
is_since incident (some t) r = eqb r.incident_id incident && ltb t r.created_at

-- LIMIT of a negative number is an error.
abbrev pub limited : {A : Type 0} → Numeral → (ℕ → Handler A) → Handler A
limited not_a_number f = throw rejected
limited (negative n) f = throw rejected
limited (whole n) f = f n

-- `new Date(since)`, if the text is truthy
abbrev pub since_date :
    (String → Option ℕ) → Option String → (Option ℕ → Handler Reply) → Handler Reply
since_date date none f = f none
since_date date (some since) f =
    if truthy (some since)
    then (elim (date since) [ none ↦ throw rejected | some t ↦ f (some t) ])
    else f none

abbrev pub number_of : (String → Numeral) → Option String → Numeral
number_of number none = whole 0
number_of number (some s) = number s

-- `getChatHandler`
unfoldable pub get_chat :
    (date : String → Option ℕ) (number : String → Numeral) (since limit : Option String)
    (incident : ℕ)
    → Handler Reply
get_chat date number since limit incident = since_date date since λ t.
    limited (bounded 50 200 (number_of number limit)) λ n. do
      rows ← query rejected (
          select (λ tables.
            take n (latest_first (λ r. r.created_at) (keep (is_since incident t) tables.chat))))
      pure (chat_messages 200 rows)

-- `z.string().min(1).max(2000)` and the optional author
unfoldable pub parse_chat : Option Json → Option (String × Option String)
unfolding units
parse_chat none = none
parse_chat (some body) = elim (string_field (member "text" body)) [
  | none ↦ none
  | some text ↦ elim (optional_string (member "authorUpn" body)) [
    | none ↦ none
    | some author ↦
        if leb 1 (units text) && leb (units text) 2000 then some (text, author) else none
  ]
]

abbrev pub insert_chat : ChatRow → Tables → ChatRow × Tables
insert_chat row t = (row, record t { chat = t.chat ++ List.◌∷◌ row List.[] })

-- `authorUpn || req.user?.sub || 'unknown'`
abbrev pub author_of : Option String → Option String → String
author_of author sub = or_else author (or_else sub "unknown")

-- `postChatHandler`
unfoldable pub post_chat :
    (now incident : ℕ) → Option Json → (sub : Option String) (id : String) → Handler Reply
post_chat now incident body sub id = elim (parse_chat body) [
  | none ↦ pure (problem 400 "invalid body")
  | some (text, author) ↦ do
    msg ← query rejected (
        insert_chat (record {
          msg_id = id;
          incident_id = incident;
          author_upn = author_of author sub;
          text = text;
          created_at = now;
        }))
    notify (chat_posted incident id (author_of author sub) msg.text msg.created_at)
    pure (chat_message 201 msg)
]
