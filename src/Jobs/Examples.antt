-- ===== src/Jobs/Examples.antt =====
-- The theorems on jobs at concrete values, and runs of the code.
use mindsdb.Common.{
  ℕ, ◌+◌, ◌*◌, ◌≡◌, ◌<◌, refl, true, false, none, some, List, [], ◌∷◌, arith, All, codes, ltb, ◌==◌,
  if◌then◌else◌, ok, err, type_error, value_error,
}
use mindsdb.Jobs.Dates.{parse_date}
use mindsdb.Jobs.Split.{split_sql}
use mindsdb.Jobs.Split.Pieces.{IsStatement, balanced, join, split_sql-join, split_sql-IsStatement}
use mindsdb.Jobs.Schedule.{DateTime, Dateutil, second, minute, hour, day, calc_next_date}
use mindsdb.Jobs.Schedule.Periods.{hours, days, add_span, calc_next_date-every}
use mindsdb.Jobs.Templates.{Attempt, done, failed}
use mindsdb.Jobs.Store.{
  Project, Job, JobsHistory, Db, get_job, get_history, with_history, delete_history,
  with_next_run_at,
}
use mindsdb.Jobs.Planning.{Config, is_due, update_task_schedule}
use mindsdb.Jobs.Planning.NextRun.{IsClock, update_task_schedule_not_due, update_task_schedule_late}
use mindsdb.Jobs.Locks.{lock_record}
use mindsdb.Jobs.Locks.Exclusion.{lock_record_again}
use mindsdb.Jobs.Execution.{Engine, run_statements, run_task, execute_task_local}
use mindsdb.Jobs.Execution.Statements.{nothing, more, run, run_statements_first_failure}
use mindsdb.Jobs.Execution.Outcome.{IsClosed, execute_task_local_lem}

abbrev two_statements : List (List ℕ)
two_statements = codes "select ';'" ∷ codes "show tables" ∷ []

split_sql-join_example : split_sql (join two_statements) ≡ two_statements
split_sql-join_example =
    split_sql-join two_statements (unfold IsStatement balanced in ((refl, refl), ((refl, refl), _)))

split_sql-IsStatement_example : All IsStatement (split_sql (codes "a;it's; b"))
split_sql-IsStatement_example = split_sql-IsStatement (codes "a;it's; b")

-- Months of thirty days, of which none compares as less than another period.
abbrev pub dateutil : Dateutil
dateutil = record {
  add_months = λ n base. ok (base + n * (30 * day));
  months_lt = λ n limit. err type_error;
}

calc_next_date-every_example :
    calc_next_date dateutil true (codes "Every 36 HOURS") day ≡ add_span true (36 * hour) day
calc_next_date-every_example =
    calc_next_date-every dateutil true hours (codes "36") (codes "hours") (codes "Every 36 HOURS")
      day refl refl refl

abbrev pub config : Config
config = record { cloud = true; dateutil = dateutil }

-- A clock that gains a day at each reading, from day 100 on.
abbrev pub now : ℕ → DateTime
now i = (100 + i) * day

now-IsClock : IsClock now
now-IsClock i = omega arith

-- A job of every two days, due at day 98, that ends after day 100.
abbrev pub job : Job
job = record {
  id = 4;
  company_id = some 1;
  user_class = none;
  name = codes "report";
  project_id = 2;
  query_str = codes "a;b";
  start_at = 98 * day;
  end_at = some (100 * day + hour);
  next_run_at = some (98 * day);
  schedule_str = some (codes "every 2 days");
  deleted_at = none;
  created_at = 90 * day;
}

every_2_days : calc_next_date dateutil true (codes "every 2 days") (98 * day) ≡ ok (100 * day)
every_2_days =
    calc_next_date-every dateutil true days (codes "2") (codes "days") (codes "every 2 days")
      (98 * day) refl refl refl

update_task_schedule_late_example :
    (update_task_schedule config 0 now job ≡ ok (with_next_run_at (some (now 2)) job))
    × (100 * day + hour < now 2)
update_task_schedule_late_example =
    update_task_schedule_late config 0 now job (98 * day) (100 * day) (100 * day + hour)
      (codes "every 2 days") now-IsClock refl refl refl (omega arith) every_2_days (omega arith)
      (omega arith)

planned_now : update_task_schedule config 0 now job ≡ ok (with_next_run_at (some (now 2)) job)
planned_now =
    let late =
      update_task_schedule_late config 0 now job (98 * day) (100 * day) (100 * day + hour)
        (codes "every 2 days") now-IsClock refl refl refl (omega arith) every_2_days (omega arith)
        (omega arith) in
    late.0

update_task_schedule_not_due_example : is_due (now 0) (with_next_run_at (some (now 2)) job) ≡ false
update_task_schedule_not_due_example =
    update_task_schedule_not_due config 0 now job (with_next_run_at (some (now 2)) job) now-IsClock
      planned_now

abbrev pub old_row : JobsHistory
old_row = record {
  id = 9;
  company_id = some 1;
  job_id = 4;
  query_str = some (codes "a");
  start_at = some (96 * day);
  end_at = some (97 * day);
  error = none;
  updated_at = 96 * day;
}

abbrev pub lock_row : JobsHistory
lock_row = record {
  id = 10;
  company_id = some 1;
  job_id = 4;
  query_str = none;
  start_at = some (98 * day);
  end_at = none;
  error = none;
  updated_at = 100 * day;
}

abbrev pub project : Project
project = record { id = 2; name = codes "mindsdb"; company_id = some 1; deleted_at = none }

abbrev pub before_lock : Db
before_lock = record { projects = project ∷ []; jobs = job ∷ []; history = old_row ∷ [] }

abbrev pub after_lock : Db
after_lock = record { projects = project ∷ []; jobs = job ∷ []; history = old_row ∷ lock_row ∷ [] }

lock_record_again_example : lock_record (100 * day + second) 4 after_lock ≡ (
  ok none,
  with_history
      (if ltb (100 * day + 30 * second) (100 * day + second)
        then delete_history 10 after_lock.history
        else after_lock.history)
      after_lock,
)
lock_record_again_example =
    lock_record_again (100 * day) (100 * day + second) 4 10 before_lock after_lock job (98 * day)
      refl refl (unfold lock_record in refl)

-- An engine that fails on the statement `b`.
abbrev pub engine : Engine
engine = record {
  parse_sql = λ s. done tt;
  execute_command = λ company user_class project s. elim s [
    | [] ↦ done tt
    | c ∷ cs ↦ if c == 98 then failed (codes "no b") else done tt
  ];
  message = λ e. [];
}

abbrev prepare : List ℕ → Attempt (List ℕ)
prepare s = done s

abbrev execute : List ℕ → Attempt (Unit {0})
execute s = engine.execute_command none 0 [] s

run_statements_first_failure_example :
    run_statements prepare execute (codes "a" ∷ codes "b" ∷ codes "c" ∷ [])
    ≡ record { ran = codes "a" ∷ codes "b" ∷ []; error = codes "no b" }
run_statements_first_failure_example =
    run_statements_first_failure prepare execute (codes "a" ∷ []) (codes "a" ∷ []) (codes "b")
      (codes "c" ∷ []) (codes "b" ∷ []) (codes "no b")
      (more (codes "a") (codes "a") _ _ refl refl nothing)
      (run (codes "b") (codes "no b") refl refl)

execute_task_local_lem_example :
    (db' : Db) × (execute_task_local config engine now 4 (some 10) after_lock ≡ ok db')
    × ((j' : Job) × (get_job 4 db' ≡ some j') × (is_due (now 1) j' ≡ false))
    × ((h' : JobsHistory) × (get_history 10 db' ≡ some h')
        × IsClosed lock_row h'
            (run_task engine job (codes "mindsdb") lock_row after_lock.history)
            (now 4))
execute_task_local_lem_example =
    execute_task_local_lem config engine now 4 10 after_lock job project lock_row now-IsClock refl
      refl refl

-- Runs of the code: dates of both formats, `NOW`, and a day that there is not.
parse_date-day : parse_date 7 (codes "0001-01-02") ≡ ok day
unfolding parse_date
parse_date-day = refl

parse_date-time : parse_date 7 (codes "0001-1-01  1:2:3") ≡ ok (hour + 2 * minute + 3 * second)
unfolding parse_date
parse_date-time = refl

parse_date-now : parse_date 7 (codes "now") ≡ ok 7
unfolding parse_date
parse_date-now = refl

parse_date_refused : parse_date 7 (codes "2023-02-29") ≡ err value_error
unfolding parse_date
parse_date_refused = refl
