-- ===== src/Postgres/Handlers/Invariants.antt =====
-- postgres_proxy.py: what every handler keeps, and with them the loop.
use mindsdb.Common.{
  ℕ, zero, suc, ◌≡◌, refl, Bool, true, false, Option, none, some, List, [], ◌∷◌, ◌++◌, length,
  Bytes, codes, Result, ok, err, Error, inl, inr, Bool-cases, ◌==◌, unbound_local,
}
use mindsdb.Postgres.Backend.{
  BackendMessage, parse_complete, bind_complete, row_descriptions, invalid_sql_statement_name,
  data_exception,
}
use mindsdb.Postgres.Frontend.{
  Parse, Bind, FrontendMessage, query, terminate, parse, bind, execute, sync, describe,
  read_message,
}
use mindsdb.Postgres.Answers.{Column, SqlAnswer, failure}
use mindsdb.Postgres.Executor.{Engine, Executor, stmt_prepare, stmt_execute, query_execute}
use mindsdb.Common.Method.{M, continue, ◌>>=◌, ◌>>◌, return, lift}
use mindsdb.Common.Method.Keeps.{Keeps, continue-Keeps, >>=-Keeps, >>-Keeps}
use mindsdb.Postgres.Proxy.{
  Proxy, Statement, Portal, set, encoding_of, encode_by, send_message, send_ready, respond,
  return_executor_data, next_status,
}
use mindsdb.Postgres.Proxy.Invariants.{respond-Keeps, send_ready-Keeps}
use mindsdb.Postgres.Handlers.{
  text_of, store_statement, store_portal, find_statement, find_portal, bind_to, handle_bind,
  executor_at, fields_of_columns, describe_executor, describe_unnamed, describe_portal,
  describe_found, describe_statement, handle_describe, handle_sync, handle_terminate, prepared,
  handle_parse, answer_executed, execute_portal, handle_execute, syntax_error, query_failed,
  query_answer, process_query, get_parsed_sql, handle_query, handle, go_on, round, loop, main_loop,
}

-- A predicate that the elementary changes of a connection keep.
pub record IsStable {Q S : Type 0} (I : Proxy Q S → Type 0) : Type 0 where
  pub sends : (m : BackendMessage) → Keeps I (send_message m)
  pub statuses :
      (c : List ℕ) (p : Proxy Q S)
      → I p
      → I (record p { transaction_status = next_status c p.transaction_status })
  pub sessions : (s : S) (p : Proxy Q S) → I p → I (record p { session = s })
  pub stores :
      (m : Parse) (e : Executor Q) (p : Proxy Q S)
      → I p
      → I (
          store_statement m.name
            (record { executor = length p.executors; message = m })
            (record p { executors = p.executors ++ e ∷ [] }))
  pub binds :
      (m : Bind) (statement : Statement) (p : Proxy Q S)
      → find_statement m.statement_name p ≡ ok (some statement)
      → I p
      → I (store_portal m.name (record { statement = statement; bound = m }) p)
  pub runs :
      (i : ℕ) (e : Executor Q) (s : S) (p : Proxy Q S)
      → I p
      → I (record p { session = s; executors = set i e p.executors })

module _ {Q S : Type 0} (I : Proxy Q S → Type 0) (stable : IsStable I) where
  send_true-Keeps : (m : BackendMessage) → Keeps I (send_message m >> return true)
  send_true-Keeps m = >>-Keeps I (send_message m) (return true) (stable.sends m) (λ p i. i)

  ready-Keeps : Keeps I send_ready
  ready-Keeps = send_ready-Keeps I stable.sends stable.statuses

  bind_to-Keeps :
      (m : Bind) (found : Result (Option Statement)) (p : Proxy Q S)
      → find_statement m.statement_name p ≡ found
      → I p
      → I (continue (bind_to m) (found, p)).1
  unfolding bind_to
  bind_to-Keeps m (err e) p h i = i
  bind_to-Keeps m (ok none) p h i = send_true-Keeps (invalid_sql_statement_name none) p i
  bind_to-Keeps m (ok (some statement)) p h i =
      send_true-Keeps bind_complete _ (stable.binds m statement p h i)

  handle_bind-Keeps : (m : Bind) → Keeps I (handle_bind m)
  unfolding handle_bind
  handle_bind-Keeps m p i = bind_to-Keeps m (find_statement m.statement_name p) p refl i

  fields_of_columns-Keeps : (columns : List Column) → Keeps I (fields_of_columns columns)
  unfolding fields_of_columns
  fields_of_columns-Keeps [] p i = send_true-Keeps (row_descriptions []) p i
  fields_of_columns-Keeps (column ∷ columns) p i = i

  describe_executor-Keeps : (portal : Option Portal) → Keeps I (describe_executor portal)
  unfolding describe_executor
  describe_executor-Keeps none p i = i
  describe_executor-Keeps (some portal) p i =
      continue-Keeps I (λ e. fields_of_columns e.columns)
        (executor_at portal.statement.executor p, p) (λ e. fields_of_columns-Keeps e.columns) i

  describe_unnamed-Keeps : (s : Option Statement) → Keeps I (describe_unnamed s)
  unfolding describe_unnamed
  describe_unnamed-Keeps none p i =
      send_true-Keeps (invalid_sql_statement_name (text_of (codes "Portal Does not Exist"))) p i
  describe_unnamed-Keeps (some s) p i = describe_executor-Keeps p.unnamed_portal p i

  describe_portal-Keeps : (name : Bytes) → Keeps I (describe_portal name)
  unfolding describe_portal
  describe_portal-Keeps [] p i = describe_unnamed-Keeps p.unnamed_statement p i
  describe_portal-Keeps (x ∷ name) p i =
      continue-Keeps I describe_executor (find_portal (x ∷ name) p, p) describe_executor-Keeps i

  describe_found-Keeps : (s : Option Statement) → Keeps I (describe_found s)
  unfolding describe_found
  describe_found-Keeps none p i = send_true-Keeps (invalid_sql_statement_name none) p i
  describe_found-Keeps (some s) p i = i

  handle_describe-Keeps : (kind : ℕ) (name : Bytes) → Keeps I (handle_describe kind name)
  unfolding handle_describe describe_statement
  handle_describe-Keeps kind name p i = elim (Bool-cases (kind == b'P')) [
    | inl portal ↦ rw portal (describe_portal-Keeps name p i)
    | inr other ↦ elim (Bool-cases (kind == b'S')) [
      | inl statement ↦
          rw (other, statement)
            (continue-Keeps I describe_found (find_statement name p, p) describe_found-Keeps i)
      | inr wrong ↦
          rw (other, wrong)
            (send_true-Keeps
              (data_exception
                (text_of (codes "Describe did not have correct type. Can be 'P' or 'S'")))
              p i)
    ]
  ]

  handle_sync-Keeps : Keeps I handle_sync
  unfolding handle_sync
  handle_sync-Keeps = >>-Keeps I send_ready (return true) ready-Keeps (λ p i. i)

module _ {Q S : Type 0} (engine : Engine Q S) (I : Proxy Q S → Type 0) (stable : IsStable I) where
  responded-Keeps :
      (sql : List ℕ) (a : SqlAnswer) (b : Bool) → Keeps I (respond sql a b >> return true)
  responded-Keeps sql a b =
      >>-Keeps I (respond sql a b) (return true)
        (respond-Keeps I stable.sends stable.statuses sql a b) (λ p i. i)

  prepared-Keeps : (m : Parse) (r : Result (Executor Q)) → Keeps I (prepared engine m r)
  unfolding prepared
  prepared-Keeps m (err e) p i = i
  prepared-Keeps m (ok e) p i = send_true-Keeps I stable parse_complete _ (stable.stores m e p i)

  handle_parse-Keeps : (m : Parse) → Keeps I (handle_parse engine m)
  unfolding handle_parse
  handle_parse-Keeps m p i = prepared-Keeps m (stmt_prepare engine p.session m.query) p i

  answer_executed-Keeps :
      (n : ℕ) (r : Result (Executor Q) × S) → Keeps I (answer_executed engine n r)
  unfolding answer_executed
  answer_executed-Keeps n (err e, s) p i = stable.sessions s p i
  answer_executed-Keeps n (ok e, s) p i =
      continue-Keeps I (λ answer. respond e.sql answer false >> return true)
        (return_executor_data e, record p { session = s; executors = set n e p.executors })
        (λ answer. responded-Keeps e.sql answer false) (stable.runs n e s p i)

  execute_portal-Keeps : (portal : Option Portal) → Keeps I (execute_portal engine portal)
  unfolding execute_portal
  execute_portal-Keeps none p i =
      let m = invalid_sql_statement_name (text_of (codes "Portal does not exist")) in
      >>-Keeps I {B = Bool} (send_message m) (lift (err unbound_local)) (stable.sends m) (λ q j. j)
        p i
  execute_portal-Keeps (some portal) p i =
      let n = portal.statement.executor in
      continue-Keeps I
        (λ e. answer_executed engine n (stmt_execute engine p.session portal.bound.parameters e))
        (executor_at n p, p)
        (λ e. answer_executed-Keeps n (stmt_execute engine p.session portal.bound.parameters e)) i

  handle_execute-Keeps : (name : Bytes) → Keeps I (handle_execute engine name)
  unfolding handle_execute
  handle_execute-Keeps name p i =
      continue-Keeps I (execute_portal engine) (find_portal name p, p) execute_portal-Keeps i

  encode_by-Keeps : (text : List ℕ) (e : Option Bytes) → Keeps I (encode_by text e)
  encode_by-Keeps text none p i = i
  encode_by-Keeps text (some e) p i = i

  query_failed-Keeps :
      (e : Error) (encoding : Option Bytes) → Keeps I (query_failed engine e encoding)
  unfolding query_failed
  query_failed-Keeps e encoding =
      >>=-Keeps I (encode_by (engine.message e) encoding)
        (λ message. return (failure syntax_error message))
        (encode_by-Keeps (engine.message e) encoding) (λ message p i. i)

  query_answer-Keeps : (r : Result (Executor Q)) → Keeps I (query_answer engine r)
  unfolding query_answer
  query_answer-Keeps (ok e) p i = i
  query_answer-Keeps (err e) p i =
      continue-Keeps I (query_failed engine e) (encoding_of p.user_parameters, p)
        (query_failed-Keeps e) i

  process_query-Keeps : (sql : List ℕ) → Keeps I (process_query engine sql)
  unfolding process_query
  process_query-Keeps sql p i =
      query_answer-Keeps (query_execute engine p.session sql).0 _ (stable.sessions _ p i)

  abbrev answering : List ℕ → SqlAnswer → M (Proxy Q S) Bool
  answering sql answer = respond sql answer true >> (send_ready >> return true)

  answering-Keeps : (sql : List ℕ) (a : SqlAnswer) → Keeps I (answering sql a)
  answering-Keeps sql a =
      >>-Keeps I (respond sql a true) (send_ready >> return true)
        (respond-Keeps I stable.sends stable.statuses sql a true)
        (>>-Keeps I send_ready (return true) (ready-Keeps I stable) (λ p i. i))

  handle_query-Keeps : (message : Bytes) → Keeps I (handle_query engine message)
  unfolding handle_query
  handle_query-Keeps message p i =
      continue-Keeps I (λ sql. process_query engine sql >>= answering sql)
        (get_parsed_sql engine message, p)
        (λ sql.
          >>=-Keeps I (process_query engine sql) (answering sql) (process_query-Keeps sql)
            (answering-Keeps sql))
        i

  pub handle-Keeps : (m : FrontendMessage) → Keeps I (handle engine m)
  unfolding handle handle_terminate
  handle-Keeps (query sql) = handle_query-Keeps sql
  handle-Keeps terminate = λ p i. i
  handle-Keeps (parse m) = handle_parse-Keeps m
  handle-Keeps (bind m) = handle_bind-Keeps I stable m
  handle-Keeps (execute name max_rows) = handle_execute-Keeps name
  handle-Keeps sync = handle_sync-Keeps I stable
  handle-Keeps (describe kind name) = handle_describe-Keeps I stable kind name

module _ {Q S : Type 0} (engine : Engine Q S) (I : Proxy Q S → Type 0) (stable : IsStable I)
    (reads : (rest : Bytes) (p : Proxy Q S) → I p → I (record p { rfile = rest })) where
  go_on-Keeps :
      (again : M (Proxy Q S) (Unit {0}))
      → Keeps I again
      → (res : Bool) → Keeps I (go_on engine again res)
  go_on-Keeps again k true p i = k p i
  go_on-Keeps again k false p i = i

  round-Keeps :
      (again : M (Proxy Q S) (Unit {0}))
      → Keeps I again
      → (r : Result (Option FrontendMessage × Bytes)) → Keeps I (round engine again r)
  unfolding round
  round-Keeps again k (err e) p i = i
  round-Keeps again k (ok (none, rest)) p i = i
  round-Keeps again k (ok (some m, rest)) p i =
      continue-Keeps I (go_on engine again) (handle engine m (record p { rfile = rest }))
        (go_on-Keeps again k) (handle-Keeps engine I stable m _ (reads rest p i))

  loop-Keeps : (fuel : ℕ) → Keeps I (loop engine fuel)
  unfolding loop
  loop-Keeps zero p i = i
  loop-Keeps (suc fuel) p i =
      round-Keeps (loop engine fuel) (loop-Keeps fuel) (read_message p.rfile) p i

  pub main_loop-Keeps : Keeps I (main_loop engine)
  unfolding main_loop
  main_loop-Keeps p i =
      >>-Keeps I send_ready (loop engine (suc (length p.rfile))) (ready-Keeps I stable)
        (loop-Keeps (suc (length p.rfile))) p i
