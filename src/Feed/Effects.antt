-- ===== src/Feed/Effects.antt =====
-- services/incident-svc/src/routes/incidents/{messages,tasks}.ts: an answer that shows a changed row
-- shows what the table holds.
use tactix.Common.{
  ℕ, String, ◌≡◌, refl, sym, ap, ◌∙◌, Bool, true, Option, none, some, List, [], ◌∷◌, map, keep,
  first, eq_iff, truthy, arith, Bool-cases, Option-cases, inl, inr,
}
use mathlib.Core.Path.{subst}
use tactix.Json
use tactix.Json.{Json}
use tactix.Action.{ok, notify, pure, ◌>>=◌}
use tactix.Action.Yields.{Yields, Yields-query, Yields-pure, Yields-notify, Yields-bind}
use tactix.Feed.{MessageRow, TaskRow, Tables, Feed, Reply, message, task, submitted, update_where}
use tactix.Feed.Messages.{
  is_message, submitted_row, submit_statement, submit_message, submit_message_of, log_found,
  log_warlog, member_of, message_id, reply_found,
}
use tactix.Feed.Tasks.{
  TaskPatch, is_task, patched_task, patch_statement, patch_task, parse_task_patch, changes_nothing,
  reply_task,
}

module _ {A : Type 0} (test : A → Bool) (change : A → A) where
  -- UPDATE … RETURNING * answers the row that is then stored.
  returned_stored :
      ((x : A) → test x ≡ true → test (change x) ≡ true)
      → (l : List A) (row : A) → first (map change (keep test l)) ≡ some row
      → first (keep test (update_where test change l)) ≡ some row
  unfolding update_where
  returned_stored still [] row h = cc
  returned_stored still (x ∷ xs) row h = elim (Bool-cases (test x)) [
    | inl hit ↦ ground (arith, still x hit)
    | inr miss ↦ ground (arith, returned_stored still xs row (ground arith))
  ]

  returned_changed :
      (P : A → Type 0)
      → ((x : A) → test x ≡ true → P (change x))
      → (l : List A) (row : A) → first (map change (keep test l)) ≡ some row
      → P row
  returned_changed P p [] row h = cc
  returned_changed P p (x ∷ xs) row h = elim (Bool-cases (test x)) [
    | inl hit ↦ let e : change x ≡ row = ground arith in subst P e (p x hit)
    | inr miss ↦ returned_changed P p xs row (ground arith)
  ]

reply_found-some :
    (o : Option MessageRow) (msg : MessageRow) → reply_found o ≡ message 200 msg → o ≡ some msg
reply_found-some none msg h = absurd cc
reply_found-some (some m) msg h = cc

-- What `submit_statement` returns.
submitted_stored :
    (incident : ℕ) (id : String) (t left : Tables) (msg : MessageRow)
    → (submit_statement incident id t).0 ≡ some msg
    → left ≡ (submit_statement incident id t).1
    → (msg.status ≡ submitted)
      × (first (keep (is_message incident msg.id) left.messages) ≡ some msg)
submitted_stored incident id t left msg h l =
    let test = is_message incident id in
    let (now, hit) =
      returned_changed test submitted_row (λ m. (m.status ≡ submitted) × (test m ≡ true))
        (λ x k. (refl, k)) t.messages msg h in
    let own : msg.id ≡ id = ground (arith, eq_iff msg.id id) in
    (
      now,
      subst (λ i. first (keep (is_message incident i) left.messages) ≡ some msg) (sym own)
          (ap (λ (u : Tables). first (keep test u.messages)) l
            ∙ returned_stored test submitted_row (λ x k. k) t.messages msg h),
    )

module _ (as_text : Json → String) (warlog_url : Option String) where
  log_warlog-Yields :
      (author content : String) (t : Tables)
      → Yields t (log_warlog as_text warlog_url author content) (λ done left. left ≡ t)
  unfolding log_warlog notify pure
  log_warlog-Yields author content t = elim (Bool-cases (truthy warlog_url)) [
    | inl set ↦ rw (log_warlog, set) (record { at = λ s a here h. ground (arith, here) })
    | inr unset ↦ rw (log_warlog, unset) (record { at = λ s a here h. here })
  ]

  log_found-Yields :
      (o : Option MessageRow) (t : Tables)
      → Yields t (log_found as_text warlog_url o) (λ answer left. (answer ≡ o) × (left ≡ t))
  log_found-Yields none t = Yields-pure t none _ (refl, refl)
  log_found-Yields (some m) t =
      Yields-bind t _ _ _ _ (log_warlog-Yields m.author m.content t)
        λ _ u same. Yields-pure u (some m) _ (refl, same)

  submit_message-Yields :
      (incident : ℕ) (id : String) (t : Tables)
      → Yields t (submit_message as_text warlog_url incident id) (λ answer left.
        (answer ≡ (submit_statement incident id t).0) × (left ≡ (submit_statement incident id t).1))
  unfolding submit_message
  submit_message-Yields incident id t =
      Yields-query t _ _ _ _
        (log_found-Yields (submit_statement incident id t).0 (submit_statement incident id t).1)

  -- The message that a submit answers is submitted, and it is the stored message of this identifier.
  pub submit_message_of-stored :
      (incident : ℕ) (body : Option Json) (s : Feed) (msg : MessageRow)
      → (submit_message_of as_text warlog_url incident body s).0 ≡ ok (message 200 msg)
      → (msg.status ≡ submitted)
        × (first (
              keep
                (is_message incident msg.id)
                (submit_message_of as_text warlog_url incident body s).1.tables.messages)
            ≡ some msg)
  unfolding submit_message_of
  submit_message_of-stored incident body s msg h =
      (yields s.tables).at s (message 200 msg) refl h msg refl
    where
      Q : Reply → Tables → Type 0
      Q r left =
          (msg : MessageRow)
          → r ≡ message 200 msg
          → (msg.status ≡ submitted)
            × (first (keep (is_message incident msg.id) left.messages) ≡ some msg)

      accepted :
          (id : Json) (t : Tables)
          → Yields t
              (submit_message as_text warlog_url incident (as_text id) >>= λ msg.
                pure (reply_found msg))
              Q
      accepted id t =
          Yields-bind t _ _ _ Q (submit_message-Yields incident (as_text id) t) λ o u (e, l).
            Yields-pure u (reply_found o) Q λ msg said.
              submitted_stored incident (as_text id) t u msg (sym e ∙ reply_found-some o msg said) l

      by_id :
          (id : Option Json) (t : Tables)
          → Yields t
              (message_id id (λ id.
                submit_message as_text warlog_url incident (as_text id) >>= λ msg.
                pure (reply_found msg)))
              Q
      by_id none t = Yields-pure t _ Q λ msg said. absurd cc
      by_id (some id) t = elim (Bool-cases (tactix.Json.truthy (some id))) [
        | inl there ↦ rw there (accepted id t)
        | inr empty ↦ rw empty (Yields-pure t _ Q λ msg said. absurd cc)
      ]

      yields : (t : Tables) → Yields t (submit_message_of as_text warlog_url incident body) Q
      yields t = by_id (member_of "messageId" body) t

task_injective : {n : ℕ} {a b : TaskRow} → task n a ≡ task n b → a ≡ b
task_injective h = cc

-- What `patch_statement` returns.
patched_stored :
    (now incident : ℕ) (id : String) (p : TaskPatch) (t : Tables) (row : TaskRow)
    → (patch_statement incident id (patched_task now p) t).0 ≡ some row
    → (row.updated_at ≡ now)
      × (first (
            keep (is_task incident id) (patch_statement incident id (patched_task now p) t).1.tasks)
          ≡ some row)
patched_stored now incident id p t row h = (
  returned_changed (is_task incident id) (patched_task now p) (λ x. x.updated_at ≡ now)
      (λ x k. refl) t.tasks row h,
  returned_stored (is_task incident id) (patched_task now p) (λ x k. k) t.tasks row h,
)

-- The task that a patch answers carries the time of the patch, and it is the stored task.
pub patch_task-stored :
    (now incident : ℕ) (id : String) (body : Option Json) (s : Feed) (row : TaskRow)
    → (patch_task now incident id body s).0 ≡ ok (task 200 row)
    → (row.updated_at ≡ now)
      × (first (keep (is_task incident id) (patch_task now incident id body s).1.tables.tasks)
          ≡ some row)
unfolding patch_task
patch_task-stored now incident id body s row h =
    (yields s.tables).at s (task 200 row) refl h row refl
  where
    Q : Reply → Tables → Type 0
    Q r left =
        (row : TaskRow)
        → r ≡ task 200 row
        → (row.updated_at ≡ now) × (first (keep (is_task incident id) left.tasks) ≡ some row)

    replied :
        (o : Option TaskRow) (u : Tables)
        → ((row : TaskRow)
            → o ≡ some row
            → (row.updated_at ≡ now) × (first (keep (is_task incident id) u.tasks) ≡ some row))
        → Yields u (reply_task incident id o) Q
    replied none u k = Yields-pure u _ Q λ row said. absurd cc
    replied (some r) u k =
        Yields-notify u _ _ Q (Yields-pure u _ Q λ row said. k row (ap some (task_injective said)))

    yields : (t : Tables) → Yields t (patch_task now incident id body) Q
    yields t = elim (Option-cases (parse_task_patch body)) [
      | inl bad ↦ rw (patch_task, bad) (Yields-pure t _ Q λ row said. absurd cc)
      | inr (p, good) ↦ elim (Bool-cases (changes_nothing p)) [
        | inl nothing ↦ rw (patch_task, good, nothing) (Yields-pure t _ Q λ row said. absurd cc)
        | inr something ↦
            rw (patch_task, good, something)
              (Yields-query t _ _ _ Q (replied _ _ (patched_stored now incident id p t)))
      ]
    ]
