-- ===== src/Postgres/Executor.antt =====
-- `Executor` of postgres_proxy/executor/executor.py: one statement, parsed and run once.
-- What it calls is the parameter `Engine`: the parser and the helpers of the package mindsdb_sql, the
-- planner `SQLQuery` and the commands of mysql_proxy/executor, and what pyparsing makes of comments.
pub mod Unrun
use mindsdb.Common.{
  ℕ, Bool, true, false, Option, none, some, List, [], ◌==◌, if◌then◌else◌, Bytes, Result, ok, err,
  ◌>>=◌, Error, cannot_parse_sql,
}
use mindsdb.Wire.Text.Decode.{decode}
use mindsdb.Postgres.Answers.{Column, Cell}

-- The parts of an `ExecuteAnswer` that the server of PostgreSQL shows.
pub record Answer : Type 0 where
  pub rows : Option (List (List Cell))
  pub columns : Option (List Column)

-- `Q` is the type of parsed queries, `S` the state of the session and the databases.
pub record Engine (Q S : Type 0) : Type 0 where
  pub parse_mindsdb : List ℕ → Option Q
  pub parse_mysql : List ℕ → Option Q
  pub param_count : Q → ℕ
  pub prepare_columns : S → Q → Result (List Column)
  pub fill_query_params : Q → List (Option Bytes) → Result Q
  pub execute_command : S → Q → Result Answer × S
  pub clear_sql : List ℕ → Result (List ℕ)
  -- `str(e)`
  pub message : Error → List ℕ

-- An executor whose `parse` succeeded: no other is kept.
pub record Executor (Q : Type 0) : Type 0 where
  pub sql : List ℕ
  pub query : Q
  pub columns : List Column
  pub rows : Option (List (List Cell))
  pub is_executed : Bool

module _ {Q S : Type 0} (engine : Engine Q S) where
  -- the second dialect is tried where the first fails
  parsed : Option Q → Option Q → Result Q
  parsed (some q) other = ok q
  parsed none (some q) = ok q
  parsed none none = err cannot_parse_sql

  -- `Executor(...)` and `parse`, of a text
  unfoldable pub parse : List ℕ → Result (Executor Q)
  unfolding parsed
  parse sql = do
    q ← parsed (engine.parse_mindsdb sql) (engine.parse_mysql sql)
    ok (record { sql = sql; query = q; columns = []; rows = none; is_executed = false })

  -- the columns of a statement are known in advance only if it has parameters
  with_columns : S → Executor Q → Result (Executor Q)
  with_columns s e =
      if engine.param_count e.query == 0
      then ok e
      else engine.prepare_columns s e.query >>= λ columns. ok (record e { columns = columns })

  -- `stmt_prepare`, of the bytes of a Parse message, which `parse` decodes
  unfoldable pub stmt_prepare : S → Bytes → Result (Executor Q)
  unfolding parse with_columns
  stmt_prepare s sql = do text ← decode sql; e ← parse text; with_columns s e

  abbrev columns_or : Option (List Column) → List Column → List Column
  columns_or (some columns) old = columns
  columns_or none old = old

  -- the answer of the command, put into the executor
  answered : Executor Q → Result Answer × S → Result (Executor Q) × S
  answered e (err raised, s) = (err raised, s)
  answered e (ok answer, s) = (
    ok (record e {
      is_executed = true;
      rows = answer.rows;
      columns = columns_or answer.columns e.columns;
    }),
    s,
  )

  -- `do_execute` of a query that was not executed
  unfoldable pub do_execute : S → Executor Q → Result (Executor Q) × S
  unfolding answered
  do_execute s e = answered e (engine.execute_command s e.query)

  execute_filled : S → Executor Q → Result Q → Result (Executor Q) × S
  unfolding do_execute
  execute_filled s e (err raised) = (err raised, s)
  execute_filled s e (ok q) = do_execute s (record e { query = q })

  -- `stmt_execute`: an executor runs once
  unfoldable pub stmt_execute : S → List (Option Bytes) → Executor Q → Result (Executor Q) × S
  unfolding execute_filled
  stmt_execute s params e =
      if e.is_executed
      then (ok e, s)
      else execute_filled s e (engine.fill_query_params e.query params)

  run_parsed : S → Result (Executor Q) → Result (Executor Q) × S
  unfolding do_execute
  run_parsed s (err raised) = (err raised, s)
  run_parsed s (ok e) = do_execute s e

  -- `query_execute`; `execute_external` returns `None`
  unfoldable pub query_execute : S → List ℕ → Result (Executor Q) × S
  unfolding parse run_parsed
  query_execute s sql = run_parsed s (parse sql)
