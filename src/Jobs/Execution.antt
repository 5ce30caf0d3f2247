-- ===== src/Jobs/Execution.antt =====
-- `execute_task_local` of mindsdb/interfaces/jobs/jobs_controller.py. `now i` is what the clock says when
-- the function reads it for the time `i`. The proofs are in the modules below.
pub mod Statements
pub mod Outcome
use mindsdb.Common.{
  ℕ, suc, ◌+◌, ◌-◌, ◌*◌, Bool, true, false, not, ◌&&◌, Option, none, some, List, [], ◌∷◌, ◌++◌, ltb,
  ◌==◌, if◌then◌else◌, codes, Error, Result, ok, err, attribute_error,
}
use mindsdb.Jobs.Split.{split_sql}
use mindsdb.Jobs.Schedule.{DateTime, second}
use mindsdb.Jobs.Templates.{Attempt, done, failed, fill_templates}
use mindsdb.Jobs.Store.{
  Project, Job, JobsHistory, Db, get_job, get_history, get_project, set_job, set_history,
  with_history, with_jobs, with_next_run_at,
}
use mindsdb.Jobs.Planning.{Config, update_task_schedule}
use mindsdb.Jobs.Locks.{insert_history}

-- The parser of mindsdb_sql, and the executor of commands for a user, a class of users and a project:
-- the text of the error, if there is one. `message` is `str(e)`.
pub record Engine : Type 0 where
  pub parse_sql : List ℕ → Attempt (Unit {0})
  pub execute_command : Option ℕ → ℕ → List ℕ → List ℕ → Attempt (Unit {0})
  pub message : Error → List ℕ

-- the row with the greatest identifier that is of the job and is not this run's
abbrev pub later : JobsHistory → Option JobsHistory → Option JobsHistory
later h none = some h
later h (some k) = if ltb k.id h.id then some h else some k

pub previous_run : ℕ → ℕ → List JobsHistory → Option JobsHistory
previous_run job_id history_id [] = none
previous_run job_id history_id (h ∷ hs) =
    let rest = previous_run job_id history_id hs in
    if (h.job_id == job_id) && not (h.id == history_id) then later h rest else rest

-- a minute before
minute_before : Option DateTime → Attempt DateTime
minute_before none = failed (codes "unsupported operand type(s) for -")
minute_before (some t) =
    if ltb t (60 * second) then failed (codes "date value out of range") else done (t - 60 * second)

previous_date : DateTime → Option JobsHistory → Attempt DateTime
unfolding minute_before
previous_date created_at none = done created_at
previous_date created_at (some h) = minute_before h.start_at

started : Option DateTime → Attempt DateTime
started none = failed (codes "'NoneType' object has no attribute 'strftime'")
started (some t) = done t

-- The statements that were run, filled in, and the text of the error, empty if there is none.
pub record Run : Type 0 where
  pub ran : List (List ℕ)
  pub error : List ℕ

-- `prepare` fills in and parses, `execute` runs.
pub run_statements :
    (List ℕ → Attempt (List ℕ)) → (List ℕ → Attempt (Unit {0})) → List (List ℕ) → Run
run_statements prepare execute [] = record { ran = []; error = [] }
run_statements prepare execute (s ∷ ss) = elim (prepare s) [
  | failed m ↦ record { ran = []; error = m }
  | done sql ↦ elim (execute sql) [
    | failed m ↦ record { ran = sql ∷ []; error = m }
    | done _ ↦
        let r : Run = run_statements prepare execute ss in
        record { ran = sql ∷ r.ran; error = r.error }
  ]
]

-- `executed_sql`
pub executed_sql : List (List ℕ) → List ℕ
executed_sql [] = []
executed_sql (s ∷ ss) = s ++ (codes "; " ++ executed_sql ss)

pub prepare_with : Engine → Attempt DateTime → Attempt DateTime → List ℕ → Attempt (List ℕ)
prepare_with engine previous start s = elim (fill_templates previous start s) [
  | failed m ↦ failed m
  | done sql ↦ elim (engine.parse_sql sql) [ failed m ↦ failed m | done _ ↦ done sql ]
]

-- `ctx.user_class` in the task: 0 by default
abbrev pub class_of : Option ℕ → ℕ
class_of none = 0
class_of (some c) = c

-- the schedule of the job after the run, and the text of the error
reschedule : Config → Engine → (ℕ → DateTime) → Job → List ℕ → Job × List ℕ
reschedule cfg engine now j error = elim (update_task_schedule cfg (class_of j.user_class) now j) [
  | ok j' ↦ (j', error)
  | err e ↦
      (with_next_run_at none j, error ++ (codes "Error to update schedule: " ++ engine.message e))
]

error_of : Option (List ℕ) → List ℕ → Option (List ℕ)
error_of before [] = before
error_of before (c ∷ s) = some (c ∷ s)

-- the row of the history at the end of the run
close_run : DateTime → List ℕ → List ℕ → JobsHistory → JobsHistory
unfolding error_of
close_run now executed error h = record h {
  query_str = some executed;
  end_at = some now;
  error = error_of h.error error;
}

pub run_task : Engine → Job → List ℕ → JobsHistory → List JobsHistory → Run
unfolding previous_date started prepare_with
run_task engine j project h hs =
    let previous = previous_date j.created_at (previous_run j.id h.id hs) in
    run_statements (prepare_with engine previous (started h.start_at))
      (engine.execute_command j.company_id (class_of j.user_class) project) (split_sql j.query_str)

run_found :
    Config → Engine → (ℕ → DateTime) → Job → Option Project → Option JobsHistory → Db → Result Db
unfolding run_task reschedule close_run
run_found cfg engine now j none h db = err attribute_error
run_found cfg engine now j (some p) none db = err attribute_error
run_found cfg engine now j (some p) (some h) db =
    let r = run_task engine j p.name h db.history in
    let (j', error) = reschedule cfg engine now j r.error in
    let closed = close_run (now 3) (executed_sql r.ran) error h in
    ok (with_jobs (set_job j' db.jobs) (with_history (set_history closed db.history) db))

-- the row of the history: a new one, unless the task was locked by one
run_row : DateTime → Job → Option ℕ → Db → Result (ℕ × Db)
run_row now j (some i) db = ok (i, db)
run_row now j none db = elim (insert_history now j (some now) db.history) [
  | ok (i, hs) ↦ ok (i, with_history hs db)
  | err e ↦ err e
]

run_job : Config → Engine → (ℕ → DateTime) → Option Job → Option ℕ → Db → Result Db
unfolding run_row run_found
run_job cfg engine now none history_id db = err attribute_error
run_job cfg engine now (some j) history_id db = elim (run_row (now 0) j history_id db) [
  | err e ↦ err e
  | ok (i, db') ↦
      run_found cfg engine (λ k. now (k + 1)) j (get_project j.company_id j.project_id db')
        (get_history i db') db'
]

pub execute_task_local : Config → Engine → (ℕ → DateTime) → ℕ → Option ℕ → Db → Result Db
unfolding run_job
execute_task_local cfg engine now record_id history_id db =
    run_job cfg engine now (get_job record_id db) history_id db
