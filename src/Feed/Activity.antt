-- ===== src/Feed/Activity.antt =====
-- services/incident-svc/src/routes/incidents/activity.ts: the merged feed, the latest first.
use tactix.Common.{
  ℕ, min, ◌-◌, ◌≤◌, String, ◌≡◌, refl, ap, ◌∙◌, Option, List, [], ◌++◌, map, keep, take, length,
  eqb, arith, length-take,
}
use tactix.Action.{ok, query, pure, ◌>>=◌}
use tactix.Action.Yields.{Yields, Yields-query, Yields-pure}
use tactix.Feed.{
  Tables, ActivityItem, chat_item, warlog_item, task_item, rejected, Reply, activity, Handler, Feed,
  select, Numeral, not_a_number, whole, negative, bounded,
}
use tactix.Feed.Chat.{number_of}
use tactix.Feed.Order.{
  latest_first, IsDescending, latest_first-IsDescending, SameElements, latest_first-SameElements,
  length-latest_first, drop, take-drop,
}

abbrev pub chat_items : ℕ → Tables → List ActivityItem
chat_items incident t =
    map (λ r. chat_item r.msg_id r.author_upn r.text r.created_at)
      (keep (λ r. eqb r.incident_id incident) t.chat)

abbrev pub warlog_items : ℕ → Tables → List ActivityItem
warlog_items incident t =
    map (λ r. warlog_item r.message_id r.author_upn r.content r.created_at)
      (keep (λ r. eqb r.incident_id incident) t.warlog)

abbrev pub task_items : ℕ → Tables → List ActivityItem
task_items incident t =
    map (λ r. task_item r.task_id r.title r.status r.updated_at)
      (keep (λ r. eqb r.incident_id incident) t.tasks)

-- `createdAt`
abbrev pub item_time : ActivityItem → ℕ
item_time (chat_item id author text at) = at
item_time (warlog_item id author text at) = at
item_time (task_item id title status at) = at

-- `slice(0, limit)`
abbrev pub slice_to : {A : Type 0} → Numeral → List A → List A
slice_to not_a_number xs = []
slice_to (whole n) xs = take n xs
slice_to (negative n) xs = take (length xs - n) xs

-- `getActivityHandler`
unfoldable pub get_activity :
    (number : String → Numeral) (limit : Option String) (incident : ℕ) → Handler Reply
get_activity number limit incident = do
  chat ← query rejected (select (chat_items incident))
  warlog ← query rejected (select (warlog_items incident))
  tasks ← query rejected (select (task_items incident))
  pure (
      activity 200 (
        slice_to (bounded 100 500 (number_of number limit))
          (latest_first item_time (chat ++ (warlog ++ tasks)))))

-- The items of an incident, from the three tables.
abbrev pub all_items : ℕ → Tables → List ActivityItem
all_items incident t = chat_items incident t ++ (warlog_items incident t ++ task_items incident t)

-- The answer shows the `n` latest of the items, the latest first; `omitted` are the others.
pub record IsFeed (n : ℕ) (items : List ActivityItem) (r : Reply) : Type 0 where
  pub shown : List ActivityItem
  pub omitted : List ActivityItem
  pub reply : r ≡ activity 200 shown
  pub same : SameElements (shown ++ omitted) items
  pub descending : IsDescending item_time (shown ++ omitted)
  pub many : length shown ≡ min n (length items)
  pub bound : n ≤ 500

IsFeed-take :
    (n : ℕ) (items : List ActivityItem)
    → n ≤ 500
    → IsFeed n items (activity 200 (take n (latest_first item_time items)))
IsFeed-take n items le = record {
  shown = take n (latest_first item_time items);
  omitted = drop n (latest_first item_time items);
  reply = refl;
  same =
      rw (take-drop n (latest_first item_time items)) (latest_first-SameElements item_time items);
  descending =
      rw (take-drop n (latest_first item_time items)) (latest_first-IsDescending item_time items);
  many =
      length-take n (latest_first item_time items)
      ∙ ap (min n) (length-latest_first item_time items);
  bound = le;
}

bounded_le : (default most n : ℕ) (l : Numeral) → bounded default most l ≡ whole n → n ≤ most
bounded_le default most n not_a_number h = ground arith
bounded_le default most n (whole m) h = ground arith
bounded_le default most n (negative m) h = cc

-- A feed that is answered, for a limit that is not negative, shows the latest items of the incident's
-- chat, log and tasks, the latest first, as many as the limit allows and 500 at most.
pub get_activity-IsFeed :
    (number : String → Numeral) (limit : Option String) (incident n : ℕ) (s : Feed) (r : Reply)
    → bounded 100 500 (number_of number limit) ≡ whole n
    → (get_activity number limit incident s).0 ≡ ok r
    → IsFeed n (all_items incident s.tables) r
unfolding get_activity
get_activity-IsFeed number limit incident n s r h done = (yields s.tables).at s r refl done
  where
    yields :
        (t : Tables)
        → Yields t
            (get_activity number limit incident)
            (λ r left. IsFeed n (all_items incident t) r)
    yields t =
        let Q : Reply → Tables → Type 0 = λ r left. IsFeed n (all_items incident t) r in
        Yields-query t _ _ _ Q (
          Yields-query t _ _ _ Q (
            Yields-query t _ _ _ Q (
              Yields-pure t _ Q (
                rw h (
                  IsFeed-take n (all_items incident t)
                    (bounded_le 100 500 n (number_of number limit) h))))))
