-- ===== src/Wire/Statements/Examples.antt =====
-- The theorems on prepared statements at concrete values.
use mindsdb.Common.{
  ℕ, ◌≤◌, ◌<◌, ◌+◌, ◌≡◌, refl, true, false, none, some, List, [], ◌∷◌, arith, length, take, codes,
  ◌==◌, if◌then◌else◌, pos, ok, err, value_error,
}
use mindsdb.Common.Dict.{lookup, insert}
use mindsdb.Wire.Datum.{number}
use mindsdb.Wire.Statements.{
  Row, Executor, PreparedStmt, Statements, Engine, status_autocommit, status_last_row_sent,
  register_stmt, free_id, contains, prepared, executed, execute_found, execute_rows,
  answer_stmt_prepare, answer_stmt_execute, answer_stmt_fetch,
}
use mindsdb.Wire.Statements.Session.{prepare, execute, Reachable, start, next, Reachable-InRange}
use mindsdb.Wire.Statements.Registry.{register_stmt-fresh}
use mindsdb.Wire.Statements.Fetch.{Holds, fetch_messages, answer_stmt_fetch_loses_rows}

abbrev row : ℕ → Row
row n = number (pos n) ∷ []

abbrev three_rows : List Row
three_rows = row 1 ∷ row 2 ∷ row 3 ∷ []

abbrev fresh : Executor
fresh = record {
  query = [];
  is_executed = false;
  columns = [];
  params = [];
  rows = none;
  server_status = none;
}

abbrev select_three : Executor
select_three = record {
  query = codes "select";
  is_executed = true;
  columns = codes "n" ∷ [];
  params = [];
  rows = some three_rows;
  server_status = none;
}

abbrev stmt_of : ℕ → PreparedStmt
stmt_of n = record { statement = select_three; fetched = n }

-- a session with statement 1, of which `n` rows were sent
abbrev session : ℕ → Statements
session n = (1, stmt_of n) ∷ []

holds : (n : ℕ) → Holds (session n) 1 three_rows n
holds n = record { stmt = stmt_of n; found = unfold lookup in refl; answer = refl; sent = refl }

-- A parser that refuses everything, and an executor that answers with three rows.
abbrev engine : Engine
engine = record {
  new = fresh;
  stmt_prepare = λ e sql. (err value_error, e);
  stmt_execute = λ e values. (ok tt, select_three);
}

register_stmt-fresh_example :
    (1 ≤ 2)
    × (2 < 100)
    × (lookup 2 (session 0) ≡ none)
    × ((j : ℕ)
        → lookup j ((1, stmt_of 0) ∷ (2, stmt_of 5) ∷ [])
          ≡ (if 2 == j then some (stmt_of 5) else lookup j (session 0)))
register_stmt-fresh_example =
    register_stmt-fresh (stmt_of 5) (session 0)
      (unfold register_stmt free_id contains insert in refl)

answer_stmt_fetch_loses_rows_example :
    ((answer_stmt_fetch true 1 2 (answer_stmt_fetch true 1 2 (session 0)).1).0
      ≡ ok (fetch_messages true [] (status_autocommit + status_last_row_sent)))
    × (length (take 2 three_rows) < length three_rows)
answer_stmt_fetch_loses_rows_example =
    answer_stmt_fetch_loses_rows true 1 2 (session 0) three_rows (holds 0) (omega arith)
      (omega arith)

-- a session in which a preparation failed, and the statement was executed
abbrev after_failure : Statements
after_failure = (1, stmt_of 0) ∷ []

after_failure-Reachable : Reachable false engine after_failure
unfolding answer_stmt_prepare prepared answer_stmt_execute execute_found executed execute_rows
    register_stmt free_id contains insert
after_failure-Reachable =
    next (execute 1 []) ((1, record { statement = fresh; fetched = 0 }) ∷ []) after_failure
      (next (prepare (codes "selec")) [] ((1, record { statement = fresh; fetched = 0 }) ∷ []) start
        refl)
      refl

Reachable-InRange_example : (1 ≤ 1) × (1 < 100)
Reachable-InRange_example =
    Reachable-InRange false engine after_failure after_failure-Reachable 1
      (unfold lookup in ground arith)
