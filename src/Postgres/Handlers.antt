-- ===== src/Postgres/Handlers.antt =====
-- The handlers of `PostgresProxyHandler` of postgres_proxy.py, and `main_loop`.
pub mod Invariants
pub mod Loop
pub mod Ends
pub mod Sound
pub mod Queries
pub mod Tables
pub mod Prepared
pub mod Described
pub mod Others
use mindsdb.Common.{
  ℕ, zero, suc, ◌+◌, ◌≡◌, refl, Bool, true, false, Option, none, some, List, [], ◌∷◌, ◌++◌, arith,
  ◌==◌, if◌then◌else◌, length, get_elem?, Bytes, codes, Result, ok, err, Error, type_error,
  key_error, unbound_local, not_utf8_sql, out_of_fuel,
}
use mindsdb.Wire.Text.{utf8}
use mindsdb.Wire.Text.Decode.{decode}
use mindsdb.Postgres.Text.{strip_null_byte}
use mindsdb.Postgres.Backend.{
  parse_complete, bind_complete, row_descriptions, invalid_sql_statement_name, data_exception,
}
use mindsdb.Postgres.Frontend.{
  Parse, Bind, FrontendMessage, query, terminate, parse, bind, execute, sync, describe,
  read_message,
}
use mindsdb.Postgres.Answers.{Column, SqlAnswer, failure, to_postgres_columns}
use mindsdb.Postgres.Executor.{Engine, Executor, stmt_prepare, stmt_execute, query_execute}
use mindsdb.Postgres.Startup.{lookup, insert}
use mindsdb.Common.Method.{M, continue, ◌>>=◌, ◌>>◌, return, lift}
use mindsdb.Postgres.Proxy.{
  Proxy, Statement, Portal, set, encode, encoding_of, encode_by, send_message, send_ready, respond,
  return_executor_data,
}

-- `d[name]`, or the unnamed one if it is there
unfoldable pub named_or : {A : Type 0} → Bytes → Option A → Option A → Result (Option A)
named_or [] found unnamed = ok unnamed
named_or (x ∷ name) none unnamed = err key_error
named_or (x ∷ name) (some a) unnamed = ok (some a)

-- `POSTGRES_SYNTAX_ERROR_CODE`
abbrev pub syntax_error : Bytes
syntax_error = codes "42601"

-- the text of a literal
abbrev text_of : List ℕ → Option (List ℕ)
text_of s = some s

module _ {Q S : Type 0} where
  -- a statement under its name, or as the unnamed one
  unfoldable pub store_statement : Bytes → Statement → Proxy Q S → Proxy Q S
  store_statement [] statement p = record p { unnamed_statement = some statement }
  store_statement (x ∷ name) statement p = record p {
    named_statements = insert (x ∷ name) statement p.named_statements;
  }

  unfoldable pub store_portal : Bytes → Portal → Proxy Q S → Proxy Q S
  store_portal [] portal p = record p { unnamed_portal = some portal }
  store_portal (x ∷ name) portal p = record p {
    named_portals = insert (x ∷ name) portal p.named_portals;
  }

  unfoldable pub find_statement : Bytes → Proxy Q S → Result (Option Statement)
  unfolding named_or
  find_statement name p = named_or name (lookup name p.named_statements) p.unnamed_statement

  unfoldable pub find_portal : Bytes → Proxy Q S → Result (Option Portal)
  unfolding named_or
  find_portal name p = named_or name (lookup name p.named_portals) p.unnamed_portal

  bind_to : Bind → Option Statement → M (Proxy Q S) Bool
  unfolding store_portal send_message invalid_sql_statement_name
  bind_to m none p = (do send_message (invalid_sql_statement_name none); return true) p
  bind_to m (some statement) p =
      (do send_message bind_complete; return true)
        (store_portal m.name (record { statement = statement; bound = m }) p)

  -- `bind`
  unfoldable pub handle_bind : Bind → M (Proxy Q S) Bool
  unfolding bind_to find_statement
  handle_bind m p = continue (bind_to m) (find_statement m.statement_name p, p)

  -- The object that an index stands for; those that are stored are always there.
  unfoldable pub executor_at : ℕ → Proxy Q S → Result (Executor Q)
  executor_at i p = elim (get_elem? p.executors i) [ some e ↦ ok e | none ↦ err key_error ]

  -- `column['name']`, of a `Column`, which has no items
  fields_of_columns : List Column → M (Proxy Q S) Bool
  unfolding send_message
  fields_of_columns [] = do send_message (row_descriptions []); return true
  fields_of_columns (column ∷ columns) = lift (err type_error)

  -- `describing["executor"]`, of a portal or `None`
  describe_executor : Option Portal → M (Proxy Q S) Bool
  unfolding executor_at fields_of_columns
  describe_executor none p = (err type_error, p)
  describe_executor (some portal) p =
      continue (λ e. fields_of_columns e.columns) (executor_at portal.statement.executor p, p)

  -- the unnamed portal is looked for where there is an unnamed statement
  describe_unnamed : Option Statement → M (Proxy Q S) Bool
  unfolding describe_executor send_message invalid_sql_statement_name
  describe_unnamed (some statement) p = describe_executor p.unnamed_portal p
  describe_unnamed none p =
      (do
        send_message (invalid_sql_statement_name (text_of (codes "Portal Does not Exist")))
        return true)
        p

  describe_portal : Bytes → M (Proxy Q S) Bool
  unfolding describe_executor describe_unnamed find_portal
  describe_portal (x ∷ name) p = continue describe_executor (find_portal (x ∷ name) p, p)
  describe_portal [] p = describe_unnamed p.unnamed_statement p

  -- `describing["parse"]["parameters"]`, of a `Parse`, which has no items
  describe_found : Option Statement → M (Proxy Q S) Bool
  unfolding send_message invalid_sql_statement_name
  describe_found none = do send_message (invalid_sql_statement_name none); return true
  describe_found (some statement) = lift (err type_error)

  describe_statement : Bytes → M (Proxy Q S) Bool
  unfolding describe_found find_statement
  describe_statement name p = continue describe_found (find_statement name p, p)

  -- `describe`
  unfoldable pub handle_describe : ℕ → Bytes → M (Proxy Q S) Bool
  unfolding describe_portal describe_statement send_message data_exception
  handle_describe kind name =
      if kind == b'P'
      then describe_portal name
      else if kind == b'S'
      then describe_statement name
      else (do
        send_message (
            data_exception
              (text_of (codes "Describe did not have correct type. Can be 'P' or 'S'")))
        return true)

  -- `sync` and `terminate`
  handle_sync : M (Proxy Q S) Bool
  unfolding send_ready
  handle_sync = do send_ready; return true

  handle_terminate : M (Proxy Q S) Bool
  handle_terminate = return false

module _ {Q S : Type 0} (engine : Engine Q S) where
  prepared : Parse → Result (Executor Q) → M (Proxy Q S) Bool
  unfolding store_statement send_message
  prepared m (err e) p = (err e, p)
  prepared m (ok e) p =
      let statement : Statement = record { executor = length p.executors; message = m } in
      (do send_message parse_complete; return true)
        (store_statement m.name statement (record p { executors = p.executors ++ e ∷ [] }))

  -- `parse`: an executor whose preparation raises is not stored
  unfoldable pub handle_parse : Parse → M (Proxy Q S) Bool
  unfolding prepared stmt_prepare
  handle_parse m p = prepared m (stmt_prepare engine p.session m.query) p

  -- the answer of an executor that ran
  answer_executed : ℕ → Result (Executor Q) × S → M (Proxy Q S) Bool
  unfolding respond return_executor_data
  answer_executed i (err e, s) p = (err e, record p { session = s })
  answer_executed i (ok e, s) p =
      (do answer ← lift (return_executor_data e); respond e.sql answer false; return true)
        (record p { session = s; executors = set i e p.executors })

  execute_portal : Option Portal → M (Proxy Q S) Bool
  unfolding executor_at answer_executed stmt_execute send_message invalid_sql_statement_name
  execute_portal none p =
      (do
        send_message (invalid_sql_statement_name (text_of (codes "Portal does not exist")))
        lift (err unbound_local))
        p
  execute_portal (some portal) p =
      let i = portal.statement.executor in
      continue (λ e. answer_executed i (stmt_execute engine p.session portal.bound.parameters e))
        (executor_at i p, p)

  -- `execute`: the limit of rows is not used
  unfoldable pub handle_execute : Bytes → M (Proxy Q S) Bool
  unfolding execute_portal find_portal
  handle_execute name p = continue execute_portal (find_portal name p, p)

  -- what `process_query` makes of an exception
  unfoldable pub query_failed : Error → Option Bytes → M (Proxy Q S) SqlAnswer
  query_failed e encoding = do
    message ← encode_by (engine.message e) encoding
    return (failure syntax_error message)

  query_answer : Result (Executor Q) → M (Proxy Q S) SqlAnswer
  unfolding query_failed return_executor_data
  query_answer (ok e) p = (return_executor_data e, p)
  query_answer (err e) p = continue (query_failed e) (encoding_of p.user_parameters, p)

  -- `process_query`
  unfoldable pub process_query : List ℕ → M (Proxy Q S) SqlAnswer
  unfolding query_answer query_execute
  process_query sql p =
      let (executed, s) = query_execute engine p.session sql in
      query_answer executed (record p { session = s })

  -- `Query.get_parsed_sql`
  abbrev utf8_only : Result (List ℕ) → Result (List ℕ)
  utf8_only (ok s) = ok s
  utf8_only (err e) = err not_utf8_sql

  abbrev cleared : Result (List ℕ) → Result (List ℕ)
  cleared (ok s) = engine.clear_sql (strip_null_byte s)
  cleared (err e) = err e

  unfoldable pub get_parsed_sql : Bytes → Result (List ℕ)
  unfolding strip_null_byte decode
  get_parsed_sql sql = cleared (utf8_only (decode sql))

  -- `query`
  unfoldable pub handle_query : Bytes → M (Proxy Q S) Bool
  unfolding get_parsed_sql process_query respond send_ready
  handle_query message = do
    sql ← lift (get_parsed_sql message)
    answer ← process_query sql
    respond sql answer true
    send_ready
    return true

  -- `self.message_map[type(message)](message)`
  unfoldable pub handle : FrontendMessage → M (Proxy Q S) Bool
  unfolding handle_query handle_terminate handle_parse handle_bind handle_execute handle_sync
      handle_describe
  handle (query sql) = handle_query sql
  handle terminate = handle_terminate
  handle (parse m) = handle_parse m
  handle (bind m) = handle_bind m
  handle (execute name max_rows) = handle_execute name
  handle sync = handle_sync
  handle (describe kind name) = handle_describe kind name

  -- One round of the loop goes on by `again`.
  abbrev go_on : M (Proxy Q S) (Unit {0}) → Bool → M (Proxy Q S) (Unit {0})
  go_on again true = again
  go_on again false = return tt

  round :
      M (Proxy Q S) (Unit {0}) → Result (Option FrontendMessage × Bytes) → M (Proxy Q S) (Unit {0})
  unfolding handle
  round again (err e) p = (err e, p)
  round again (ok (none, rest)) p = (ok tt, p)
  round again (ok (some m, rest)) p = continue (go_on again) (handle m (record p { rfile = rest }))

  -- The `while True` of `main_loop`, on fuel: each message takes a byte of the client.
  unfoldable pub loop : ℕ → M (Proxy Q S) (Unit {0})
  unfolding round read_message
  loop zero p = (err out_of_fuel, p)
  loop (suc fuel) p = round (loop fuel) (read_message p.rfile) p

  unfoldable pub main_loop : M (Proxy Q S) (Unit {0})
  unfolding loop send_ready
  main_loop p = (send_ready >> loop (suc (length p.rfile))) p
