-- ===== src/Jobs/Controller.antt =====
-- `JobsController` of mindsdb/interfaces/jobs/jobs_controller.py: jobs are created and deleted. `now i` is
-- what the clock says when the function reads it for the time `i`. The proofs are in the modules below.
pub mod Names
pub mod Added
mod Examples
use mindsdb.Common.{
  ℕ, zero, suc, ◌+◌, ◌-◌, Bool, true, false, ◌&&◌, ◌||◌, Option, none, some, List, [], ◌∷◌, ◌++◌,
  map, ltb, leb, ◌==◌, if◌then◌else◌, find?, codes, Result, ok, err, attribute_error, job_exists,
  job_not_exists, wrong_end_date, ◌>>=◌,
}
use mindsdb.Jobs.Split.{split_sql}
use mindsdb.Jobs.Schedule.{DateTime, lower_char, same, is_digit, calc_next_date}
use mindsdb.Jobs.Dates.{parse_date}
use mindsdb.Jobs.Store.{Project, Job, Db, is_null, equals, set_job, with_jobs}
use mindsdb.Jobs.Planning.{Config, delete_record}

-- `ctx`
pub record Context : Type 0 where
  pub company_id : Option ℕ
  pub user_class : ℕ

-- `ProjectController.get(name=...)`: without a name, any project of the company; `None.name` raises.
abbrev pub is_project : Context → Option (List ℕ) → Project → Bool
is_project ctx none p = equals p.company_id ctx.company_id && is_null p.deleted_at
is_project ctx (some name) p =
    equals p.company_id ctx.company_id
    && (same (map lower_char p.name) (map lower_char name) && is_null p.deleted_at)

project_of : Option Project → Result ℕ
project_of none = err attribute_error
project_of (some p) = ok p.id

pub find_project : Context → Option (List ℕ) → Db → Result ℕ
unfolding project_of
find_project ctx name db = project_of (find? (is_project ctx name) db.projects)

-- `filter_by(company_id=..., name=..., project_id=..., deleted_at=NULL)`
abbrev pub is_live : Option ℕ → List ℕ → ℕ → Job → Bool
is_live company_id name project_id j =
    equals j.company_id company_id
    && (same j.name name && ((j.project_id == project_id) && is_null j.deleted_at))

-- `re.sub(r'\{\{[\w\d]+}}', "", sql)`: the length of the variable that a text begins with
is_word_char : ℕ → Bool
is_word_char c = is_digit c || ((leb 65 c && leb c 90) || ((leb 97 c && leb c 122) || (c == 95)))

closing : ℕ → List ℕ → Option ℕ
unfolding is_word_char
closing n [] = none
closing n (c ∷ s) =
    let rest = closing (n + 1) s in
    if is_word_char c then rest else elim s [
      | [] ↦ none
      | d ∷ t ↦ if (c == 125) && ((d == 125) && leb 1 n) then some (n + 4) else none
    ]

variable_length : List ℕ → Option ℕ
unfolding closing
variable_length (c ∷ d ∷ s) = if (c == 123) && (d == 123) then closing 0 s else none
variable_length _ = none

-- after `skip` characters that are already removed
pub remove_variables : ℕ → List ℕ → List ℕ
unfolding variable_length
remove_variables skip [] = []
remove_variables (suc k) (c ∷ s) = remove_variables k s
remove_variables zero (c ∷ s) = elim (variable_length (c ∷ s)) [
  | none ↦ c ∷ remove_variables 0 s
  | some n ↦ remove_variables (n - 1) s
]

-- each statement is parsed, without its variables
pub check_sql : (List ℕ → Result (Unit {0})) → List (List ℕ) → Result (Unit {0})
unfolding remove_variables
check_sql parse_sql [] = ok tt
check_sql parse_sql (s ∷ ss) = do _ ← parse_sql (remove_variables 0 s); check_sql parse_sql ss

-- the start: not before now
pub start_date : (ℕ → DateTime) → Option (List ℕ) → Result DateTime
unfolding parse_date
start_date now none = ok (now 0)
start_date now (some text) = do t ← parse_date (now 0) text; ok (if ltb t (now 1) then now 2 else t)

pub end_date : (ℕ → DateTime) → DateTime → Option (List ℕ) → Result (Option DateTime)
unfolding parse_date
end_date now start_at none = ok none
end_date now start_at (some text) = do
  t ← parse_date (now 3) text
  if ltb t start_at then err wrong_end_date else ok (some t)

-- the schedule, if it can be read, with the end; without a schedule there is no end
pub schedule_of :
    Config
    → Context
    → DateTime
    → Option DateTime
    → Option (List ℕ)
    → Result (Option (List ℕ) × Option DateTime)
schedule_of cfg ctx start_at end_at none = ok (none, none)
schedule_of cfg ctx start_at end_at (some repeat_str) = do
  _ ←
      calc_next_date cfg.dateutil (cfg.cloud && (ctx.user_class == 0))
        (codes "every " ++ repeat_str) start_at
  ok (some (codes "every " ++ repeat_str), end_at)

abbrev pub greatest_job : List Job → ℕ
greatest_job [] = 0
greatest_job (j ∷ js) = let rest = greatest_job js in if ltb rest j.id then j.id else rest

-- What a client asks to be run.
pub record Request : Type 0 where
  pub name : List ℕ
  pub query_str : List ℕ
  pub start_at : Option (List ℕ)
  pub end_at : Option (List ℕ)
  pub repeat_str : Option (List ℕ)

module _ (cfg : Config) (parse_sql : List ℕ → Result (Unit {0})) (ctx : Context)
    (now : ℕ → DateTime) where
  -- the new row
  abbrev pub row : Request → ℕ → ℕ → DateTime → Option DateTime → Option (List ℕ) → Job
  row r id project_id start_at end_at schedule_str = record {
    id = id;
    company_id = ctx.company_id;
    user_class = some ctx.user_class;
    name = r.name;
    project_id = project_id;
    query_str = r.query_str;
    start_at = start_at;
    end_at = end_at;
    next_run_at = some start_at;
    schedule_str = schedule_str;
    deleted_at = none;
    created_at = now 4;
  }

  -- if the request is in order
  pub new_job : Request → ℕ → ℕ → Result Job
  unfolding start_date end_date schedule_of check_sql
  new_job r id project_id = do
    start_at ← start_date now r.start_at
    end_at ← end_date now start_at r.end_at
    _ ← check_sql parse_sql (split_sql r.query_str)
    (schedule_str, end_at') ← schedule_of cfg ctx start_at end_at r.repeat_str
    ok (row r id project_id start_at end_at' schedule_str)

  add_to : Request → ℕ → Db → Result Db
  unfolding new_job
  add_to r project_id db = elim (find? (is_live ctx.company_id r.name project_id) db.jobs) [
    | some j ↦ err job_exists
    | none ↦ (do
      j ← new_job r (suc (greatest_job db.jobs)) project_id
      ok (with_jobs (db.jobs ++ (j ∷ [])) db))
  ]

  -- The project is `mindsdb` unless it is named.
  pub add : Request → Option (List ℕ) → Db → Result Db
  unfolding find_project add_to
  add r project_name db = do
    project_id ←
        find_project ctx (some (elim project_name [ none ↦ codes "mindsdb" | some n ↦ n ])) db
    add_to r project_id db

module _ (ctx : Context) (now : ℕ → DateTime) where
  delete_found : Option Job → Db → Result Db
  delete_found none db = err job_not_exists
  delete_found (some j) db = ok (with_jobs (set_job (delete_record (now 0) j) db.jobs) db)

  pub delete : List ℕ → Option (List ℕ) → Db → Result Db
  unfolding find_project delete_found
  delete name project_name db = do
    project_id ← find_project ctx project_name db
    delete_found (find? (is_live ctx.company_id name project_id) db.jobs) db
