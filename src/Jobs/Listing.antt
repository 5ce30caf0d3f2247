-- ===== src/Jobs/Listing.antt =====
-- `JobsController.get_list` of mindsdb/interfaces/jobs/jobs_controller.py. The proofs are in the module
-- below.
pub mod Projects
use mindsdb.Common.{
  ℕ, Bool, true, false, ◌&&◌, Option, none, some, List, [], ◌∷◌, ◌==◌, if◌then◌else◌, filter, find?,
  Result, ok, err, key_error, ◌>>=◌,
}
use mindsdb.Jobs.Schedule.{DateTime}
use mindsdb.Jobs.Store.{Project, Job, Db, is_null, equals}
use mindsdb.Jobs.Controller.{Context, find_project}

-- what is shown of a job
pub record Listed : Type 0 where
  pub id : ℕ
  pub name : List ℕ
  pub project : List ℕ
  pub start_at : DateTime
  pub end_at : Option DateTime
  pub next_run_at : Option DateTime
  pub schedule_str : Option (List ℕ)
  pub query : List ℕ

-- `filter_by(company_id=..., deleted_at=NULL)`, and by the project if one is given
abbrev pub is_listed : Context → Option ℕ → Job → Bool
is_listed ctx none j = equals j.company_id ctx.company_id && is_null j.deleted_at
is_listed ctx (some project_id) j =
    equals j.company_id ctx.company_id && (is_null j.deleted_at && (j.project_id == project_id))

-- the projects of `ProjectController.get_list`, searched by their identifiers
abbrev pub is_known : Context → ℕ → Project → Bool
is_known ctx id p = equals p.company_id ctx.company_id && (is_null p.deleted_at && (p.id == id))

-- `project_names[record.project_id]`
project_name : Option Project → Result (List ℕ)
project_name none = err key_error
project_name (some p) = ok p.name

abbrev pub listed_row : Job → List ℕ → Listed
listed_row j project = record {
  id = j.id;
  name = j.name;
  project = project;
  start_at = j.start_at;
  end_at = j.end_at;
  next_run_at = j.next_run_at;
  schedule_str = j.schedule_str;
  query = j.query_str;
}

listed : Context → Db → Job → Result Listed
unfolding project_name
listed ctx db j = do
  project ← project_name (find? (is_known ctx j.project_id) db.projects)
  ok (listed_row j project)

list_jobs : Context → Db → List Job → Result (List Listed)
unfolding listed
list_jobs ctx db [] = ok []
list_jobs ctx db (j ∷ js) = do row ← listed ctx db j; rows ← list_jobs ctx db js; ok (row ∷ rows)

optional_project : Context → Option (List ℕ) → Db → Result (Option ℕ)
optional_project ctx none db = ok none
optional_project ctx (some name) db = do id ← find_project ctx (some name) db; ok (some id)

pub get_list : Context → Option (List ℕ) → Db → Result (List Listed)
unfolding list_jobs optional_project
get_list ctx project_name db = do
  project_id ← optional_project ctx project_name db
  list_jobs ctx db (filter (is_listed ctx project_id) db.jobs)
