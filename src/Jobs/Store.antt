-- ===== src/Jobs/Store.antt =====
-- The tables that the jobs use, of mindsdb/interfaces/storage/db.py, and the queries on them. A new row
-- takes the identifier after the greatest; `first()` takes the oldest row.
use mindsdb.Common.{
  ℕ, Bool, true, false, not, ◌&&◌, Option, none, some, List, [], ◌∷◌, ltb, ◌==◌, ==_refl, ◌≡◌, refl,
  if◌then◌else◌, filter, find?,
}
use mindsdb.Jobs.Schedule.{DateTime}

pub record Project : Type 0 where
  pub id : ℕ
  pub name : List ℕ
  pub company_id : Option ℕ
  pub deleted_at : Option DateTime

pub record Job : Type 0 where
  pub id : ℕ
  pub company_id : Option ℕ
  pub user_class : Option ℕ
  pub name : List ℕ
  pub project_id : ℕ
  pub query_str : List ℕ
  pub start_at : DateTime
  pub end_at : Option DateTime
  pub next_run_at : Option DateTime
  pub schedule_str : Option (List ℕ)
  pub deleted_at : Option DateTime
  pub created_at : DateTime

pub record JobsHistory : Type 0 where
  pub id : ℕ
  pub company_id : Option ℕ
  pub job_id : ℕ
  pub query_str : Option (List ℕ)
  pub start_at : Option DateTime
  pub end_at : Option DateTime
  pub error : Option (List ℕ)
  pub updated_at : DateTime

pub record Db : Type 0 where
  pub projects : List Project
  pub jobs : List Job
  pub history : List JobsHistory

-- a row or a database with another value in a column or another table
abbrev pub with_deleted_at : Option DateTime → Job → Job
with_deleted_at t j = record j { deleted_at = t }

abbrev pub with_next_run_at : Option DateTime → Job → Job
with_next_run_at t j = record j { next_run_at = t }

abbrev pub with_jobs : List Job → Db → Db
with_jobs js db = record db { jobs = js }

abbrev pub with_history : List JobsHistory → Db → Db
with_history hs db = record db { history = hs }

abbrev pub with_updated_at : DateTime → JobsHistory → JobsHistory
with_updated_at t h = record h { updated_at = t }

-- `IS NULL`, and `==` on a column that may be NULL, which is `IS NULL` for `None`
abbrev pub is_null {ℓ} : {A : Type ℓ} → Option A → Bool
is_null none = true
is_null (some a) = false

abbrev pub equals : Option ℕ → Option ℕ → Bool
equals none none = true
equals none (some b) = false
equals (some a) none = false
equals (some a) (some b) = a == b

-- a comparison in SQL, where NULL is equal to nothing
abbrev pub sql_equals : Option ℕ → Option ℕ → Bool
sql_equals (some a) (some b) = a == b
sql_equals _ _ = false

abbrev pub get_job : ℕ → Db → Option Job
get_job i db = find? (λ j. j.id == i) db.jobs

abbrev pub get_history : ℕ → Db → Option JobsHistory
get_history i db = find? (λ h. h.id == i) db.history

-- the rows after the row with the identifier of `new` was changed to it
abbrev pub set_row {ℓ} : {A : Type ℓ} → (A → ℕ) → A → List A → List A
set_row id new [] = []
set_row id new (x ∷ xs) = (if id x == id new then new else x) ∷ set_row id new xs

abbrev pub set_job : Job → List Job → List Job
set_job j js = set_row (λ x. x.id) j js

abbrev pub set_history : JobsHistory → List JobsHistory → List JobsHistory
set_history h hs = set_row (λ x. x.id) h hs

abbrev pub delete_history : ℕ → List JobsHistory → List JobsHistory
delete_history i xs = filter (λ h. not (h.id == i)) xs

abbrev pub greatest : List JobsHistory → ℕ
greatest [] = 0
greatest (h ∷ hs) = let rest = greatest hs in if ltb rest h.id then h.id else rest

-- the constraint `uniq_job_history_job_id_start`
abbrev pub same_run : ℕ → Option DateTime → JobsHistory → Bool
same_run job_id start_at h = (h.job_id == job_id) && sql_equals h.start_at start_at

-- `filter_by(job_id=..., start_at=..., company_id=...)`
abbrev pub is_run : ℕ → Option DateTime → Option ℕ → JobsHistory → Bool
is_run job_id start_at company_id h =
    (h.job_id == job_id) && (equals h.start_at start_at && equals h.company_id company_id)

-- `filter_by(company_id=..., id=..., deleted_at=NULL)`
abbrev pub get_project : Option ℕ → ℕ → Db → Option Project
get_project company_id i db =
    find? (λ p. equals p.company_id company_id && ((p.id == i) && is_null p.deleted_at)) db.projects

pub equals_refl : (o : Option ℕ) → equals o o ≡ true
equals_refl none = refl
equals_refl (some a) = ==_refl a
