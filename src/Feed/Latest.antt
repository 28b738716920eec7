-- ===== src/Feed/Latest.antt =====
-- services/incident-svc/src/routes/incidents/{tasks,chat}.ts: what the lists show.
use tactix.Common.{
  ℕ, ◌<◌, String, ◌≡◌, refl, sym, ap, ◌∙◌, Bool, true, ◌&&◌, Option, none, List, [], ◌∷◌, ◌++◌,
  keep, eqb, arith, All, All-keep, Option-cases, inl, inr,
}
use tactix.Json.{Json}
use tactix.Action.{ok}
use tactix.Action.Yields.{Yields, Yields-query, Yields-pure, Yields-notify}
use tactix.Feed.{TaskRow, Tables, Reply, task, task_rows, Feed}
use tactix.Feed.Order.{latest_first}
use tactix.Feed.Tasks.{get_tasks, post_task, parse_task}

module _ {A : Type 0} (time : A → ℕ) where
  -- What is written last is shown first.
  pub latest_first-append :
      (xs : List A) (x : A)
      → All (λ y. time y < time x) xs
      → latest_first time (xs ++ (x ∷ [])) ≡ x ∷ latest_first time xs
  unfolding latest_first
  latest_first-append [] x h = refl
  latest_first-append (y ∷ ys) x (p, h) = rw (latest_first-append ys x h) (ground arith)

keep-append :
    {A : Type 0} (p : A → Bool) (xs ys : List A) → keep p (xs ++ ys) ≡ keep p xs ++ keep p ys
keep-append p [] ys = refl
keep-append p (x ∷ xs) ys = ground (arith, keep-append p xs ys)

-- The tasks of an incident as `getTasksHandler` shows them.
abbrev pub listed : ℕ → List TaskRow → List TaskRow
listed incident rows =
    latest_first (λ r. r.updated_at) (keep (λ r. eqb r.incident_id incident && true) rows)

get_tasks-Yields :
    (incident : ℕ) (t : Tables)
    → Yields t (get_tasks none incident) (λ r left. r ≡ task_rows 200 (listed incident t.tasks))
unfolding get_tasks
get_tasks-Yields incident t = Yields-query t _ _ _ _ (Yields-pure t _ _ refl)

task_injective : {a b : TaskRow} → task 201 a ≡ task 201 b → a ≡ b
task_injective h = cc

post_task-Yields :
    (now incident : ℕ) (body : Option Json) (sub : Option String) (id : String) (row : TaskRow)
    (t : Tables)
    → Yields t (post_task now incident body sub id) (λ r left.
      r ≡ task 201 row
      → (left.tasks ≡ t.tasks ++ (row ∷ []))
        × (row.updated_at ≡ now)
        × (row.incident_id ≡ incident))
unfolding post_task
post_task-Yields now incident body sub id row t = elim (Option-cases (parse_task body)) [
  | inl bad ↦ rw (post_task, bad) (Yields-pure t _ _ (λ h. cc))
  | inr (input, good) ↦
      rw (post_task, good)
        (Yields-query t _ _ _ _ (
          Yields-notify _ _ _ _ (
            Yields-pure _ _ _ (λ h.
              let e = task_injective h in
              (
                ap (λ (x : TaskRow). t.tasks ++ (x ∷ [])) e,
                ap (λ (x : TaskRow). x.updated_at) (sym e),
                ap (λ (x : TaskRow). x.incident_id) (sym e),
              )))))
]

-- A task that postTask has answered is the first one that getTasks then shows, before all that it
-- showed earlier, if the clock is past the last change of every task.
pub get_tasks-post_task :
    (now incident : ℕ) (body : Option Json) (sub : Option String) (id : String) (s : Feed)
    (row : TaskRow) (r : Reply)
    → All (λ (x : TaskRow). x.updated_at < now) s.tables.tasks
    → (post_task now incident body sub id s).0 ≡ ok (task 201 row)
    → (get_tasks none incident (post_task now incident body sub id s).1).0 ≡ ok r
    → r ≡ task_rows 200 (row ∷ listed incident s.tables.tasks)
get_tasks-post_task now incident body sub id s row r old done shown =
    let left = (post_task now incident body sub id s).1.tables in
    let (added, new, own) =
      (post_task-Yields now incident body sub id row s.tables).at s (task 201 row) refl done refl in
    let test : TaskRow → Bool = λ x. eqb x.incident_id incident && true in
    let mine : test row ≡ true = ground arith in
    let kept : keep test left.tasks ≡ keep test s.tables.tasks ++ (row ∷ []) =
      ap (keep test) added ∙ (keep-append test s.tables.tasks (row ∷ []) ∙ rw mine refl) in
    let earlier =
      All-keep (λ (x : TaskRow). x.updated_at < row.updated_at) test s.tables.tasks (rw new old) in
    (get_tasks-Yields incident left).at (post_task now incident body sub id s).1 r refl shown
    ∙ ap (task_rows 200) (
        ap (latest_first (λ (x : TaskRow). x.updated_at)) kept
        ∙ latest_first-append (λ (x : TaskRow). x.updated_at) (keep test s.tables.tasks) row
            earlier)
