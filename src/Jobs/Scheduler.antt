-- ===== src/Jobs/Scheduler.antt =====
-- `Scheduler` of mindsdb/interfaces/jobs/scheduler.py: jobs that are due are locked and handed to the
-- worker thread, one after the other.
pub mod Workers
mod Examples
use mindsdb.Common.{
  ℕ, suc, Bool, true, false, Option, none, some, List, [], ◌∷◌, Error, Result, ok, err,
  if◌then◌else◌, not_implemented,
}
use mindsdb.Jobs.Schedule.{DateTime}
use mindsdb.Jobs.Store.{Job, Db}
use mindsdb.Jobs.Planning.{Config, get_next_tasks}
use mindsdb.Jobs.Locks.{lock_record, heartbeat}
use mindsdb.Jobs.Execution.{Engine, execute_task_local}

-- How far a call is when the events that are considered are over, with the tables then: `running` is
-- still in the loop on `q_out`.
pub data Outcome : Type 0 where
  done running : Db → Outcome
  raised : Error → Db → Outcome

-- What happens while a task is handled: three seconds pass with nothing in `q_out`, or the worker
-- thread, whose clock is given, comes to run.
pub data Event : Type 0 where
  timeout : DateTime → Event
  thread : (ℕ → DateTime) → Event

pub record Times : Type 0 where
  pub locked_at : DateTime
  pub events : List Event

-- The worker thread, `execute_async`: it has the task in `q_in`, has put `True` into `q_out`, or died
-- of an exception that the task raised, which nothing there catches.
pub data Worker : Type 0 where
  working finished died : Worker

-- the thread after a task; one that raises does so before it commits anything
worked : Db → Result Db → Worker × Db
worked db (ok db') = (finished, db')
worked db (err e) = (died, db)

module _ (cfg : Config) (engine : Engine) where
  -- one step of the worker thread, which has no further task
  step : (ℕ → DateTime) → ℕ → ℕ → Worker → Db → Worker × Db
  unfolding worked
  step now record_id history_id working db =
      worked db (execute_task_local cfg engine now record_id (some history_id) db)
  step now record_id history_id finished db = (finished, db)
  step now record_id history_id died db = (died, db)

  -- The loop on `q_out`: it ends when something is there, and updates the lock on each timeout.
  wait : ℕ → ℕ → List Event → Worker × Db → Outcome
  unfolding step
  wait record_id history_id events (finished, db) = done db
  wait record_id history_id [] (w, db) = running db
  wait record_id history_id (timeout t ∷ events) (w, db) = elim (heartbeat t history_id db) [
    | ok db' ↦ wait record_id history_id events (w, db')
    | err e ↦ raised e db
  ]
  wait record_id history_id (thread now ∷ events) (w, db) =
      wait record_id history_id events (step now record_id history_id w db)

  -- what follows `lock_record`
  handed : Times → ℕ → Result (Option ℕ) × Db → Outcome
  unfolding wait
  handed times record_id (err e, db) = raised e db
  handed times record_id (ok none, db) = done db
  handed times record_id (ok (some history_id), db) =
      wait record_id history_id times.events (working, db)

  -- `execute_task`, with whether `exec_method` is `local`
  unfoldable pub execute_task : Bool → Times → ℕ → Db → Outcome
  unfolding handed
  execute_task false times record_id db = raised not_implemented db
  execute_task true times record_id db =
      handed times record_id (lock_record times.locked_at record_id db)

  -- The loop over the jobs; what raises ends it.
  abbrev go_on : (Db → Outcome) → Outcome → Outcome
  go_on again (done db) = again db
  go_on again (running db) = running db
  go_on again (raised e db) = raised e db

  execute_all : Bool → (ℕ → Times) → List Job → Db → Outcome
  unfolding execute_task
  execute_all is_local times [] db = done db
  execute_all is_local times (j ∷ js) db =
      go_on (execute_all is_local (λ k. times (suc k)) js) (execute_task is_local (times 0) j.id db)

  -- `check_timetable`
  unfoldable pub check_timetable : Bool → DateTime → (ℕ → Times) → Db → Outcome
  unfolding execute_all
  check_timetable is_local now times db = execute_all is_local times (get_next_tasks now db) db
