-- ===== src/Mcp/Works.antt =====
-- src/mcp/mcp_agent.ts: what a run of the agent does when no file operation fails.
use tactix.Common.{
  ℕ, String, ◌≡◌, refl, sym, ap, ◌∙◌, not, some, List, [], ◌∷◌, ◌++◌, map, keep, find, inl, inr,
  ◌⊎◌,
}
use mathlib.Core.List.{append_assoc, append-nil}
use tactix.Json.{Json}
use tactix.Action.{Result, ok, err, Db, query, pure, throw, require, ◌>>=◌}
use tactix.Mcp.Names.{
  AreFound, without, filed, AreFound-keep, IsDistinct, is_task, keep-names, AreFound-of_IsDistinct,
  without-tasks,
}
use tactix.Mcp.{
  File, LogEntry, success, failed, LogFile, entries, Disk, Step, is_named, other_than, recover,
  ensure, read_task, archive_task, logs_of, log_task_result, perform, attempt_task, process_task,
  process_all, main,
}

-- No file operation is to fail.
abbrev pub quiet : Disk → Db Disk (Unit {0})
quiet t = record { tables = t; sent = []; faults = [] }

module _ (io : String) where
  log_task_result-quiet :
      (entry : LogEntry) (t : Disk) (l : List LogEntry)
      → logs_of io t.log ≡ some l
      → log_task_result io entry (quiet t)
        ≡ (ok tt, quiet (record t { log = entries (l ++ (entry ∷ [])) }))
  unfolding log_task_result recover query pure ◌>>=◌
  log_task_result-quiet entry t l h = rw h refl

  read_task-quiet :
      (name : String) (t : Disk) (f : File)
      → find (is_named name) t.queue ≡ some f
      → read_task io name (quiet t) ≡ (ok f.content, quiet t)
  unfolding read_task query pure ◌>>=◌
  read_task-quiet name t f h = rw h refl

  archive_task-quiet :
      (name : String) (t : Disk) (f : File)
      → find (is_named name) t.queue ≡ some f
      → archive_task io name (quiet t) ≡ (
        ok tt,
        quiet (record t {
          queue = keep (other_than name) t.queue;
          archive = keep (other_than name) t.archive ++ (f ∷ []);
        }),
      )
  unfolding archive_task query require ◌>>=◌
  archive_task-quiet name t f h = rw h refl

Result-cases :
    {A : Type 0} (r : Result String A) → ((e : String) × (r ≡ err e)) ⊎ ((a : A) × (r ≡ ok a))
Result-cases (ok a) = inr (a, refl)
Result-cases (err e) = inl (e, refl)

module _ (io : String) (parse : String → Result String Json) (show : Json → String)
    (now : String → ℕ) where
  -- The entry that a task file calls for: its result, or the error that it raises.
  abbrev pub entry_of : File → LogEntry
  entry_of f = elim (parse f.content) [
    | err e ↦ failed f.name (now f.name) e
    | ok task ↦ elim (perform io parse show now task) [
      | err e ↦ failed f.name (now f.name) e
      | ok result ↦ success result.0 result.1 (now f.name) result.2
    ]
  ]

  -- The disk after one task, with the entry for it.
  abbrev pub after : File → LogEntry → List LogEntry → Disk → Disk
  after f entry l t = record {
    queue = keep (other_than f.name) t.queue;
    archive = keep (other_than f.name) t.archive ++ (f ∷ []);
    log = entries (l ++ (entry ∷ []));
  }

  attempt_cases :
      (t : Disk) (f : File) (l : List LogEntry)
      → find (is_named f.name) t.queue ≡ some f
      → logs_of io t.log ≡ some l
      → ((attempt_task io parse show now f.name (quiet t)
          ≡ (ok tt, quiet (record t { log = entries (l ++ (entry_of f ∷ [])) }))))
        ⊎ ((e : String) × (attempt_task io parse show now f.name (quiet t) ≡ (err e, quiet t))
            × (entry_of f ≡ failed f.name (now f.name) e))
  unfolding attempt_task query pure throw ◌>>=◌
  attempt_cases t f l here logs = elim (Result-cases (parse f.content)) [
    | inl (e, bad) ↦ inr (
      e,
      rw (attempt_task, read_task-quiet io f.name t f here, bad) refl,
      rw (entry_of, bad) refl,
    )
    | inr (task, good) ↦ elim (Result-cases (perform io parse show now task)) [
      | inl (e, bad) ↦ inr (
        e,
        rw (attempt_task, read_task-quiet io f.name t f here, good, bad) refl,
        rw (entry_of, good, bad) refl,
      )
      | inr (result, done) ↦ inl (
          rw (attempt_task, read_task-quiet io f.name t f here, good, done, entry_of)
            (log_task_result-quiet io (success result.0 result.1 (now f.name) result.2) t l logs))
    ]
  ]

  broken :
      (t : Disk) (f : File) (l : List LogEntry) (e : String)
      → find (is_named f.name) t.queue ≡ some f
      → logs_of io t.log ≡ some l
      → attempt_task io parse show now f.name (quiet t) ≡ (err e, quiet t)
      → process_task io parse show now f.name (quiet t)
        ≡ (ok tt, quiet (after f (failed f.name (now f.name) e) l t))
  unfolding process_task ensure recover
  broken t f l e here logs broke =
      let entry = failed f.name (now f.name) e in
      rw (process_task, ensure, recover, broke, log_task_result-quiet io entry t l logs)
        (rw (archive_task-quiet io f.name (record t { log = entries (l ++ (entry ∷ [])) }) f here)
          refl)

  process_task-quiet :
      (t : Disk) (f : File) (l : List LogEntry)
      → find (is_named f.name) t.queue ≡ some f
      → logs_of io t.log ≡ some l
      → process_task io parse show now f.name (quiet t) ≡ (ok tt, quiet (after f (entry_of f) l t))
  unfolding process_task ensure recover
  process_task-quiet t f l here logs = elim (attempt_cases t f l here logs) [
    | inl worked ↦
        rw (process_task, ensure, recover, worked)
          (rw
            (archive_task-quiet io f.name (record t { log = entries (l ++ (entry_of f ∷ [])) }) f
              here)
            refl)
    | inr (e, broke, same) ↦
        broken t f l e here logs broke ∙ ap (λ x. (ok tt, quiet (after f x l t))) (sym same)
  ]

module _ (io : String) (parse : String → Result String Json) (show : Json → String)
    (now : String → ℕ) where
  -- A run that ends without an error, on this disk but for its log, which then has these entries.
  pub record Ends (run : Step (Unit {0})) (t : Disk) (queue archive : List File)
      (logs : List LogEntry) : Type 0 where
    pub log : LogFile
    pub result :
        run (quiet t) ≡ (ok tt, quiet (record { queue = queue; archive = archive; log = log }))
    pub logged : logs_of io log ≡ some logs

  process_all-quiet :
      (fs : List File) (t : Disk) (l : List LogEntry)
      → AreFound t.queue fs
      → logs_of io t.log ≡ some l
      → Ends
          (process_all io parse show now (map (λ f. f.name) fs))
          t
          (without fs t.queue)
          (filed fs t.archive)
          (l ++ map (entry_of io parse show now) fs)
  unfolding process_all pure ◌>>=◌
  process_all-quiet [] t l found logs = record {
    log = t.log;
    result = refl;
    logged = rw (append-nil l) logs;
  }
  process_all-quiet (f ∷ fs) t l (here, apart, found) logs =
      let entry = entry_of io parse show now f in
      let rest =
        process_all-quiet fs (after io parse show now f entry l t) (l ++ (entry ∷ []))
          (AreFound-keep f.name t.queue fs apart found) refl in
      record {
        log = rest.log;
        result = rw (process_all, process_task-quiet io parse show now t f l here logs) rest.result;
        logged =
            rest.logged
            ∙ ap some (append_assoc l (entry ∷ []) (map (entry_of io parse show now) fs));
      }

  -- A run of the agent in which no file operation fails, on a queue of distinct names and a log that is
  -- no other JSON than an array: it ends without an error, with every .json file moved from the queue
  -- to the archive and every other file left, whatever the tasks are, and with one entry more in the log
  -- for each of them, in order: its result or the error that it raised.
  pub main-Ends :
      (t : Disk) (l : List LogEntry)
      → IsDistinct t.queue
      → logs_of io t.log ≡ some l
      → Ends
          (main io parse show now)
          t
          (keep (λ f. not (is_task f)) t.queue)
          (filed (keep is_task t.queue) t.archive)
          (l ++ map (entry_of io parse show now) (keep is_task t.queue))
  unfolding main query ◌>>=◌
  main-Ends t l distinct logs =
      let all =
        process_all-quiet (keep is_task t.queue) t l (AreFound-of_IsDistinct t.queue distinct)
          logs in
      record {
        log = all.log;
        result = rw (keep-names t.queue, ← without-tasks t.queue) all.result;
        logged = all.logged;
      }
