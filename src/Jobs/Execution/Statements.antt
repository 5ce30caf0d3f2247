-- ===== src/Jobs/Execution/Statements.antt =====
-- `execute_task_local` of jobs_controller.py: which statements of a job are run.
use mindsdb.Common.{ℕ, ◌≡◌, refl, List, [], ◌∷◌, ◌++◌}
use mindsdb.Jobs.Templates.{Attempt, done, failed}
use mindsdb.Jobs.Execution.{run_statements}

module _ (prepare : List ℕ → Attempt (List ℕ)) (execute : List ℕ → Attempt (Unit {0})) where
  -- Statements that are filled in, parsed and run without an error, with the texts that are run.
  pub data Succeed : List (List ℕ) → List (List ℕ) → Type 0 where
    nothing : Succeed [] []
    more :
        (s sql : List ℕ) (ss sqls : List (List ℕ))
        → prepare s ≡ done sql
        → execute sql ≡ done _
        → Succeed ss sqls
        → Succeed (s ∷ ss) (sql ∷ sqls)

  -- A statement that fails before it is run, or when it is run; with what was run of it.
  pub data Fails (s : List ℕ) : List (List ℕ) → List ℕ → Type 0 where
    not_run : (m : List ℕ) → prepare s ≡ failed m → Fails s [] m
    run : (sql m : List ℕ) → prepare s ≡ done sql → execute sql ≡ failed m → Fails s (sql ∷ []) m

  -- If no statement fails, all are run in order, and there is no error.
  pub run_statements_all :
      (ss sqls : List (List ℕ))
      → Succeed ss sqls
      → run_statements prepare execute ss ≡ record { ran = sqls; error = [] }
  unfolding run_statements
  run_statements_all ss sqls nothing = refl
  run_statements_all ss sqls (more s sql ss' sqls' p e h) =
      rw (p, run_statements, e, run_statements_all ss' sqls' h) refl

  -- The statements before the first one that fails are run in order, then that one unless it failed
  -- before it was run; none of those after it is, and the error is that one's.
  pub run_statements_first_failure :
      (ss sqls : List (List ℕ)) (s : List ℕ) (rest : List (List ℕ)) (last : List (List ℕ))
      (m : List ℕ)
      → Succeed ss sqls
      → Fails s last m
      → run_statements prepare execute (ss ++ (s ∷ rest)) ≡ record { ran = sqls ++ last; error = m }
  unfolding run_statements
  run_statements_first_failure ss sqls s rest last m nothing (not_run m' p) =
      rw (p, run_statements) refl
  run_statements_first_failure ss sqls s rest last m nothing (run sql m' p e) =
      rw (p, run_statements, e) refl
  run_statements_first_failure ss sqls s rest last m (more s' sql ss' sqls' p e h) f =
      rw (p, run_statements, e, run_statements_first_failure ss' sqls' s rest last m h f) refl
