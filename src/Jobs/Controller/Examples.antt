-- ===== src/Jobs/Controller/Examples.antt =====
-- The theorems on the creation and deletion of jobs at concrete values.
use mindsdb.Common.{
  ℕ, ◌+◌, ◌*◌, ◌≤◌, ◌≡◌, refl, true, none, some, List, [], ◌∷◌, ◌++◌, arith, codes, find?, Result,
  ok, type_error, err,
}
use mindsdb.Jobs.Split.{split_sql, pieces, contains}
use mindsdb.Jobs.Schedule.{DateTime, day, calc_next_date}
use mindsdb.Jobs.Schedule.Periods.{days, calc_next_date-every}
use mindsdb.Jobs.Store.{Project, Job, Db}
use mindsdb.Jobs.Planning.{Config, delete_record}
use mindsdb.Jobs.Planning.NextRun.{IsClock}
use mindsdb.Jobs.Controller.{
  Context, is_live, find_project, project_of, check_sql, start_date, end_date, schedule_of, Request,
  row, new_job, add_to, add, delete_found, delete,
}
use mindsdb.Jobs.Controller.Added.{IsRunnable, add_lem}
use mindsdb.Jobs.Controller.Names.{HasUniqueNames, add-HasUniqueNames, delete_lem}

abbrev config : Config
config = record {
  cloud = true;
  dateutil = record {
    add_months = λ n base. err type_error;
    months_lt = λ n limit. err type_error;
  };
}

abbrev ctx : Context
ctx = record { company_id = some 1; user_class = 0 }

-- A parser that takes everything.
abbrev parse_sql : List ℕ → Result (Unit {0})
parse_sql s = ok tt

abbrev now : ℕ → DateTime
now i = 100 * day + i

now-IsClock : IsClock now
now-IsClock i = omega arith

abbrev request : Request
request = record {
  name = codes "report";
  query_str = codes "a;b";
  start_at = none;
  end_at = none;
  repeat_str = some (codes "2 days");
}

abbrev job : Job
job = row config parse_sql ctx now request 1 2 (100 * day) none (some (codes "every 2 days"))

every_2_days :
    calc_next_date config.dateutil true (codes "every 2 days") (100 * day) ≡ ok (102 * day)
every_2_days =
    calc_next_date-every config.dateutil true days (codes "2") (codes "days") (codes "every 2 days")
      (100 * day) refl refl refl

request_made : new_job config parse_sql ctx now request 1 2 ≡ ok job
unfolding new_job start_date end_date schedule_of check_sql split_sql pieces contains
request_made = rw every_2_days refl

abbrev project : Project
project = record { id = 2; name = codes "MindsDB"; company_id = some 1; deleted_at = none }

abbrev empty : Db
empty = record { projects = project ∷ []; jobs = []; history = [] }

abbrev with_job : Db
with_job = record { projects = project ∷ []; jobs = job ∷ []; history = [] }

empty-HasUniqueNames : HasUniqueNames []
empty-HasUniqueNames c n i = omega arith

job_added : add config parse_sql ctx now request none empty ≡ ok with_job
unfolding add add_to find_project project_of
job_added = rw request_made refl

add_lem_example :
    (j : Job) × (with_job.jobs ≡ [] ++ (j ∷ [])) × IsRunnable config ctx j × (now 0 ≤ j.start_at)
add_lem_example = add_lem config parse_sql ctx now request none empty with_job now-IsClock job_added

add-HasUniqueNames_example : HasUniqueNames (job ∷ [])
add-HasUniqueNames_example =
    add-HasUniqueNames config parse_sql ctx now request none empty with_job job_added
      empty-HasUniqueNames

abbrev without_job : Db
without_job = record {
  projects = project ∷ [];
  jobs = delete_record (now 0) job ∷ [];
  history = [];
}

delete_lem_example :
    HasUniqueNames (delete_record (now 0) job ∷ [])
    × (find? (is_live (some 1) (codes "report") 2) (delete_record (now 0) job ∷ []) ≡ none)
delete_lem_example =
    delete_lem ctx now (codes "report") (some (codes "mindsdb")) with_job without_job 2
      (unfold find_project project_of in refl)
      (unfold delete delete_found find_project project_of in refl) add-HasUniqueNames_example
