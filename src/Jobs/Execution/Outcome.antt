-- ===== src/Jobs/Execution/Outcome.antt =====
-- `execute_task_local` of jobs_controller.py: what a run leaves in the tables, whatever its statements do.
use mindsdb.Common.{
  ℕ, ◌+◌, ◌≡◌, ◌≢◌, refl, sym, true, false, Option, none, some, List, [], ◌∷◌, ◌++◌, arith, ◌==◌,
  Bool-cases, inl, inr, find?, ok, err, attribute_error, Result-cases,
}
use mindsdb.Jobs.Schedule.{DateTime}
use mindsdb.Jobs.Store.{Project, Job, JobsHistory, Db, get_job, get_history, get_project, set_row}
use mindsdb.Jobs.Planning.{Config, is_due, update_task_schedule}
use mindsdb.Jobs.Planning.NextRun.{
  IsClock, IsClock-later, update_task_schedule_not_due, update_task_schedule_id,
}
use mindsdb.Jobs.Execution.{
  Engine, Run, class_of, reschedule, error_of, close_run, executed_sql, run_task, run_found,
  run_row, run_job, execute_task_local,
}

module _ {ℓ} {A : Type ℓ} (id : A → ℕ) (i : ℕ) where
  find_id : (xs : List A) (a : A) → find? (λ x. id x == i) xs ≡ some a → (id a == i) ≡ true
  find_id [] a h = ground arith
  find_id (x ∷ xs) a h = elim (Bool-cases (id x == i)) [
    | inl k ↦ (let same : x ≡ a = (let h' = rw k at h in cc) in rw (sym same) k)
    | inr k ↦ find_id xs a (rw k at h)
  ]

  -- The row that is found is, once changed, found as it is now.
  pub find-set_row :
      (xs : List A) (a new : A)
      → find? (λ x. id x == i) xs ≡ some a
      → id new ≡ id a
      → find? (λ x. id x == i) (set_row id new xs) ≡ some new
  find-set_row [] a new h e = ground arith
  find-set_row (x ∷ xs) a new h e =
      let found : (id new == i) ≡ true = rw e (find_id (x ∷ xs) a h) in
      elim (Bool-cases (id x == id new)) [
        | inl m ↦ rw (m, found) refl
        | inr m ↦ elim (Bool-cases (id x == i)) [
          | inl k ↦ ground arith
          | inr k ↦ rw (m, k) (find-set_row xs a new (rw k at h) e)
        ]
      ]

module _ (cfg : Config) (engine : Engine) (now : ℕ → DateTime) where
  reschedule_id : (j : Job) (error : List ℕ) → (reschedule cfg engine now j error).0.id ≡ j.id
  unfolding reschedule
  reschedule_id j error =
      elim (Result-cases (update_task_schedule cfg (class_of j.user_class) now j)) [
        | inl (j', e) ↦
            rw (e, reschedule) (update_task_schedule_id cfg (class_of j.user_class) now j j' e)
        | inr (x, e) ↦ rw (e, reschedule) refl
      ]

  reschedule_not_due :
      (j : Job) (error : List ℕ)
      → IsClock now
      → is_due (now 0) (reschedule cfg engine now j error).0 ≡ false
  unfolding reschedule
  reschedule_not_due j error c =
      elim (Result-cases (update_task_schedule cfg (class_of j.user_class) now j)) [
        | inl (j', e) ↦
            rw (e, reschedule)
              (update_task_schedule_not_due cfg (class_of j.user_class) now j j' c e)
        | inr (x, e) ↦ rw (e, reschedule) refl
      ]

-- The row of the history after a run that ran these statements, failed with this text if it is not
-- empty, and ended at this time.
pub record IsClosed (h h' : JobsHistory) (r : Run) (end_at : DateTime) : Type 0 where
  query_str : h'.query_str ≡ some (executed_sql r.ran)
  ended : h'.end_at ≡ some end_at
  started : h'.start_at ≡ h.start_at
  error : r.error ≢ [] → h'.error ≢ none

module _ (cfg : Config) (engine : Engine) (now : ℕ → DateTime) where
  error_of_nonempty : (before : Option (List ℕ)) (e : List ℕ) → e ≢ [] → error_of before e ≢ none
  unfolding error_of
  error_of_nonempty before [] n h = n refl
  error_of_nonempty before (c ∷ e) n h = ground arith

  append_nonempty : (e t : List ℕ) → e ≢ [] → (e ++ t) ≢ []
  append_nonempty [] t n = λ _. n refl
  append_nonempty (c ∷ e) t n = ground arith

  reschedule_error :
      (j : Job) (error : List ℕ) → error ≢ [] → (reschedule cfg engine now j error).1 ≢ []
  unfolding reschedule
  reschedule_error j error n =
      elim (Result-cases (update_task_schedule cfg (class_of j.user_class) now j)) [
        | inl (j', e) ↦ rw (e, reschedule) n
        | inr (x, e) ↦ rw (e, reschedule) (append_nonempty error _ n)
      ]

  run_found_lem :
      (j : Job) (p : Project) (h : JobsHistory) (record_id i : ℕ) (db : Db)
      → IsClock now
      → get_job record_id db ≡ some j
      → get_history i db ≡ some h
      → (db' : Db) × (run_found cfg engine now j (some p) (some h) db ≡ ok db')
        × ((j' : Job) × (get_job record_id db' ≡ some j') × (is_due (now 0) j' ≡ false))
        × ((h' : JobsHistory) × (get_history i db' ≡ some h')
            × IsClosed h h' (run_task engine j p.name h db.history) (now 3))
  unfolding run_found
  run_found_lem j p h record_id i db c gj gh =
      let r = run_task engine j p.name h db.history in
      let again = reschedule cfg engine now j r.error in
      let closed = close_run (now 3) (executed_sql r.ran) again.1 h in
      (
        _,
        refl,
        (
          again.0,
          find-set_row (λ x. x.id) record_id db.jobs j again.0 gj
              (reschedule_id cfg engine now j r.error),
          reschedule_not_due cfg engine now j r.error c,
        ),
        (
          closed,
          find-set_row (λ x. x.id) i db.history h closed gh refl,
          record {
            query_str = refl;
            ended = refl;
            started = refl;
            error = λ n. error_of_nonempty h.error again.1 (reschedule_error j r.error n);
          },
        ),
      )

module _ (cfg : Config) (engine : Engine) (now : ℕ → DateTime) where
  -- A task whose job, project and row of the history are there runs to its end, whether its
  -- statements or its schedule fail or not. Then the job is not due at the time of the update of
  -- its schedule, and the row of the history says what was run and when it ended, and has an error
  -- if a statement failed with a text of its error that is not empty.
  pub execute_task_local_lem :
      (record_id i : ℕ) (db : Db) (j : Job) (p : Project) (h : JobsHistory)
      → IsClock now
      → get_job record_id db ≡ some j
      → get_project j.company_id j.project_id db ≡ some p
      → get_history i db ≡ some h
      → (db' : Db) × (execute_task_local cfg engine now record_id (some i) db ≡ ok db')
        × ((j' : Job) × (get_job record_id db' ≡ some j') × (is_due (now 1) j' ≡ false))
        × ((h' : JobsHistory) × (get_history i db' ≡ some h')
            × IsClosed h h' (run_task engine j p.name h db.history) (now 4))
  unfolding execute_task_local run_job run_row
  execute_task_local_lem record_id i db j p h c gj gp gh =
      let run : execute_task_local cfg engine now record_id (some i) db
          ≡ run_found cfg engine (λ k. now (k + 1)) j (some p) (some h) db =
        rw (gj, gp, gh) refl in
      rw run (
        run_found_lem cfg engine (λ k. now (k + 1)) j p h record_id i db (IsClock-later now c) gj
          gh)

  -- Without the project of the job the call raises, before anything runs.
  pub execute_task_local_orphan :
      (record_id i : ℕ) (db : Db) (j : Job)
      → get_job record_id db ≡ some j
      → get_project j.company_id j.project_id db ≡ none
      → execute_task_local cfg engine now record_id (some i) db ≡ err attribute_error
  unfolding execute_task_local run_job run_row run_found
  execute_task_local_orphan record_id i db j job project = rw (job, project) refl
