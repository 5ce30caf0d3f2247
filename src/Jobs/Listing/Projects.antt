-- ===== src/Jobs/Listing/Projects.antt =====
-- `JobsController.get_list` of jobs_controller.py: a job is shown with its project, if that is there.
use mindsdb.Common.{
  ◌≡◌, refl, Bool, none, some, List, [], ◌∷◌, arith, filter, find?, Option-cases, inl, inr, ok, err,
  key_error,
}
use mindsdb.Jobs.Store.{Project, Job, Db, is_null}
use mindsdb.Jobs.Controller.{Context}
use mindsdb.Jobs.Listing.{
  Listed, is_listed, is_known, project_name, listed_row, listed, list_jobs, optional_project,
  get_list,
}

-- Jobs shown as rows with the names of their projects.
pub data Shown (ctx : Context) (db : Db) : List Job → List Listed → Type 0 where
  nothing : Shown ctx db [] []
  more :
      (j : Job) (js : List Job) (row : Listed) (rows : List Listed) (p : Project)
      → find? (is_known ctx j.project_id) db.projects ≡ some p
      → row.id ≡ j.id
      → row.name ≡ j.name
      → row.project ≡ p.name
      → row.query ≡ j.query_str
      → Shown ctx db js rows
      → Shown ctx db (j ∷ js) (row ∷ rows)

-- a job of which the project is not known
abbrev pub is_orphan : Context → Db → Job → Bool
is_orphan ctx db j = is_null (find? (is_known ctx j.project_id) db.projects)

module _ (ctx : Context) (db : Db) where
  list_jobs-Shown :
      (js : List Job)
      → find? (is_orphan ctx db) js ≡ none
      → (rows : List Listed) × (list_jobs ctx db js ≡ ok rows) × Shown ctx db js rows
  unfolding list_jobs listed project_name
  list_jobs-Shown [] h = ([], refl, nothing)
  list_jobs-Shown (j ∷ js) h = elim (Option-cases (find? (is_known ctx j.project_id) db.projects)) [
    | inl e ↦ (let h' = rw e at h in ground arith)
    | inr (p, e) ↦
        (let (rows, k, s) = list_jobs-Shown js (rw e at h) in
          (
            listed_row j p.name ∷ rows,
            rw (e, k) refl,
            more j js (listed_row j p.name) rows p e refl refl refl refl s,
          ))
  ]

  list_jobs_orphan :
      (js : List Job) (j : Job)
      → find? (is_orphan ctx db) js ≡ some j
      → list_jobs ctx db js ≡ err key_error
  unfolding list_jobs listed project_name
  list_jobs_orphan [] j h = ground arith
  list_jobs_orphan (x ∷ js) j h =
      elim (Option-cases (find? (is_known ctx x.project_id) db.projects)) [
        | inl e ↦ rw e refl
        | inr (p, e) ↦ (let later = list_jobs_orphan js j (rw e at h) in rw (e, later) refl)
      ]

  -- Without a project, the list of jobs has a row for each live job of the company, in their order,
  -- with the name of its project, if all these projects are live.
  get_list-Shown :
      find? (is_orphan ctx db) (filter (is_listed ctx none) db.jobs) ≡ none
      → (rows : List Listed) × (get_list ctx none db ≡ ok rows)
        × Shown ctx db (filter (is_listed ctx none) db.jobs) rows
  unfolding get_list optional_project
  get_list-Shown h = list_jobs-Shown (filter (is_listed ctx none) db.jobs) h

  -- If the project of one live job of the company is not live, the list of all jobs is `KeyError`.
  get_list_orphan :
      (j : Job)
      → find? (is_orphan ctx db) (filter (is_listed ctx none) db.jobs) ≡ some j
      → get_list ctx none db ≡ err key_error
  unfolding get_list optional_project
  get_list_orphan j h = list_jobs_orphan (filter (is_listed ctx none) db.jobs) j h
