-- ===== src/Jobs/Planning.antt =====
-- `JobsExecutor` of mindsdb/interfaces/jobs/jobs_controller.py: which jobs are due, and when a job runs
-- next. `now i` is what the clock says when the function reads it for the time `i`.
pub mod NextRun
use mindsdb.Common.{
  ℕ, Bool, true, false, not, ◌&&◌, Option, none, some, List, [], ◌∷◌, ltb, ◌==◌, if◌then◌else◌,
  filter, Result, ok, err, type_error, ◌>>=◌,
}
use mindsdb.Jobs.Schedule.{DateTime, Dateutil, calc_next_date}
use mindsdb.Jobs.Store.{Job, Db, is_null, with_deleted_at, with_next_run_at}

-- `Config().get('cloud', False)`, and the package dateutil
pub record Config : Type 0 where
  pub cloud : Bool
  pub dateutil : Dateutil

-- a job without a next run is never before now: NULL
abbrev pub is_due : DateTime → Job → Bool
is_due now j = elim j.next_run_at [ none ↦ false | some t ↦ ltb t now && is_null j.deleted_at ]

-- `ORDER BY next_run_at`
abbrev pub run_before : Job → Job → Bool
run_before j k = elim j.next_run_at [
  | none ↦ true
  | some t ↦ elim k.next_run_at [ none ↦ false | some u ↦ not (ltb u t) ]
]

abbrev pub insert_job : Job → List Job → List Job
insert_job j [] = j ∷ []
insert_job j (k ∷ ks) =
    let rest = insert_job j ks in if run_before j k then j ∷ (k ∷ ks) else k ∷ rest

abbrev pub order_by_next_run : List Job → List Job
order_by_next_run [] = []
order_by_next_run (j ∷ js) = insert_job j (order_by_next_run js)

pub get_next_tasks : DateTime → Db → List Job
get_next_tasks now db = order_by_next_run (filter (is_due now) db.jobs)

abbrev pub delete_record : DateTime → Job → Job
delete_record now j = with_deleted_at (some now) j

past_end : DateTime → Option DateTime → Bool
past_end next_run_at none = false
past_end next_run_at (some end_at) = ltb end_at next_run_at

-- plan the next run, but not in the past
plan : (ℕ → DateTime) → DateTime → Job → Job
unfolding past_end
plan now next_run_at j =
    if past_end next_run_at j.end_at
    then delete_record (now 1) j
    else with_next_run_at (some (if ltb next_run_at (now 1) then now 2 else next_run_at)) j

-- the next run after the one of `run_at`; `calc_next_date` never returns `None`
after_run : Config → ℕ → (ℕ → DateTime) → DateTime → Job → Option (List ℕ) → Result Job
unfolding plan
after_run cfg user_class now run_at j none = ok (delete_record (now 1) j)
after_run cfg user_class now run_at j (some schedule_str) = do
  next_run_at ← calc_next_date cfg.dateutil (cfg.cloud && (user_class == 0)) schedule_str run_at
  ok (plan now next_run_at j)

-- `None > datetime` raises.
due_run : Config → ℕ → (ℕ → DateTime) → Job → Option DateTime → Result Job
unfolding after_run
due_run cfg user_class now j none = err type_error
due_run cfg user_class now j (some run_at) =
    if ltb (now 0) run_at then ok j else after_run cfg user_class now run_at j j.schedule_str

unfoldable pub update_task_schedule : Config → ℕ → (ℕ → DateTime) → Job → Result Job
unfolding due_run
update_task_schedule cfg user_class now j = due_run cfg user_class now j j.next_run_at
