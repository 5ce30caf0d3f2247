-- ===== src/Jobs/Scheduler/Workers.antt =====
-- scheduler.py: several schedulers on the same tables, and a task that raises.
use mindsdb.Common.{
  ℕ, ◌+◌, ◌*◌, ◌≤◌, ◌≡◌, refl, ap, ◌∙◌, true, false, none, some, List, [], ◌∷◌, arith, ltb, ok,
  if◌then◌else◌,
}
use mindsdb.Jobs.Schedule.{DateTime, second}
use mindsdb.Jobs.Store.{
  Job, JobsHistory, Db, get_history, set_history, with_updated_at, get_job, get_project,
  with_history, delete_history,
}
use mindsdb.Jobs.Planning.{Config}
use mindsdb.Jobs.Locks.{lock_record, heartbeat}
use mindsdb.Jobs.Locks.Exclusion.{lock_record_again}
use mindsdb.Jobs.Execution.{Engine}
use mindsdb.Jobs.Execution.Outcome.{find-set_row, execute_task_local_orphan}
use mindsdb.Jobs.Scheduler.{
  Outcome, done, running, Event, timeout, thread, Times, working, died, worked, step, wait, handed,
  execute_task,
}

module _ (cfg : Config) (engine : Engine) where
  fresh :
      (now now' : DateTime) (i : ℕ) (db : Db)
      → now' ≤ now + 30 * second
      → with_history
          (if ltb (now + 30 * second) now' then delete_history i db.history else db.history)
          db
        ≡ db
  fresh now now' i db h =
      let young : ltb (now + 30 * second) now' ≡ false = ground arith in rw young refl

  -- Of two schedulers on the same tables, one that comes to a job whose run the other has locked,
  -- within 30 seconds, runs nothing and leaves the tables as they are.
  pub execute_task_locked :
      (times : Times) (now : DateTime) (record_id i : ℕ) (db db' : Db) (j : Job) (t : DateTime)
      → get_job record_id db ≡ some j
      → j.next_run_at ≡ some t
      → lock_record now record_id db ≡ (ok (some i), db')
      → times.locked_at ≤ now + 30 * second
      → execute_task cfg engine true times record_id db' ≡ done db'
  unfolding execute_task handed
  execute_task_locked times now record_id i db db' j t job run locked soon =
      ap (handed cfg engine times record_id)
        (lock_record_again now times.locked_at record_id i db db' j t job run locked)
      ∙ ap done (fresh now times.locked_at i db' soon)

  -- the row of the history that is the lock, after the updates of the events
  abbrev touched : List Event → JobsHistory → JobsHistory
  touched [] h = h
  touched (timeout t ∷ es) h = touched es (with_updated_at t h)
  touched (thread now ∷ es) h = touched es h

  -- that a call is in its loop still, and has changed the row of the history only
  abbrev StillRuns : ℕ → JobsHistory → Outcome → Type 0
  StillRuns i h o = (db : Db) × (o ≡ running db) × (get_history i db ≡ some h)

  heartbeat_lem :
      (t : DateTime) (i : ℕ) (db : Db) (h : JobsHistory)
      → get_history i db ≡ some h
      → let hs = set_history (with_updated_at t h) db.history in
        (heartbeat t i db ≡ ok (with_history hs db))
        × (get_history i (with_history hs db) ≡ some (with_updated_at t h))
  unfolding heartbeat
  heartbeat_lem t i db h found = (
    rw (found, heartbeat) refl,
    find-set_row (λ x. x.id) i db.history h (with_updated_at t h) found refl,
  )

  wait_died :
      (es : List Event) (record_id i : ℕ) (db : Db) (h : JobsHistory)
      → get_history i db ≡ some h
      → StillRuns i (touched es h) (wait cfg engine record_id i es (died, db))
  unfolding wait step
  wait_died [] record_id i db h found = (db, refl, found)
  wait_died (timeout t ∷ es) record_id i db h found =
      let (beats, found') = heartbeat_lem t i db h found in
      rw (beats, wait) (wait_died es record_id i _ (with_updated_at t h) found')
  wait_died (thread now ∷ es) record_id i db h found = wait_died es record_id i db h found

  wait_orphan :
      (es : List Event) (record_id i : ℕ) (db : Db) (j : Job) (h : JobsHistory)
      → get_job record_id db ≡ some j
      → get_project j.company_id j.project_id db ≡ none
      → get_history i db ≡ some h
      → StillRuns i (touched es h) (wait cfg engine record_id i es (working, db))
  unfolding wait step worked
  wait_orphan [] record_id i db j h job project found = (db, refl, found)
  wait_orphan (timeout t ∷ es) record_id i db j h job project found =
      let (beats, found') = heartbeat_lem t i db h found in
      rw (beats, wait) (wait_orphan es record_id i _ j (with_updated_at t h) job project found')
  wait_orphan (thread now ∷ es) record_id i db j h job project found =
      rw (execute_task_local_orphan cfg engine now record_id i db j job project, wait, step, worked)
        (wait_died es record_id i db h found)

  -- A scheduler that locks a job whose project is gone does not come back: after any sequence of
  -- timeouts of `q_out` and turns of the worker thread, its call is in the loop still, and the row
  -- of the history is the lock, updated at the last of the timeouts.
  pub execute_task_orphan :
      (times : Times) (record_id i : ℕ) (db db' : Db) (j : Job) (h : JobsHistory)
      → lock_record times.locked_at record_id db ≡ (ok (some i), db')
      → get_job record_id db' ≡ some j
      → get_project j.company_id j.project_id db' ≡ none
      → get_history i db' ≡ some h
      → StillRuns i (touched times.events h) (execute_task cfg engine true times record_id db)
  unfolding execute_task handed
  execute_task_orphan times record_id i db db' j h locked job project found =
      rw locked (wait_orphan times.events record_id i db' j h job project found)
