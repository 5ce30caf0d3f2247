-- ===== src/Wire/Statements.antt =====
-- Prepared statements: `register_stmt` and `unregister_stmt` of
-- mindsdb/api/mysql/mysql_proxy/controllers/session_controller.py, and the four COM_STMT handlers of
-- mindsdb/api/mysql/mysql_proxy/mysql_proxy.py. The proofs are in the modules below.
pub mod Registry
pub mod Fetch
pub mod Lifecycle
pub mod Session
mod Examples
use mindsdb.Common.{
  ℕ, zero, suc, ◌+◌, ◌-◌, ◌≡◌, refl, Bool, true, false, ◌&&◌, Option, none, some, List, [], ◌∷◌,
  ◌++◌, map, arith, ltb, leb, ◌==◌, if◌then◌else◌, length, take, drop, slice, Result, ok, err,
  key_error, too_many_unclosed_queries,
}
use mindsdb.Wire.Datum.{Value}
use mindsdb.Common.Dict.{Dict, lookup, insert, remove}

abbrev pub Column : Type 0
Column = List ℕ

abbrev pub Row : Type 0
Row = List Value

-- What the handlers see of an `Executor`; its `data` is `rows` here.
pub record Executor : Type 0 where
  pub query : List ℕ
  pub is_executed : Bool
  pub columns : List Column
  pub params : List Column
  pub rows : Option (List Row)
  pub server_status : Option ℕ

-- An entry of `prepared_stmts`; its 'type' stays `None`.
pub record PreparedStmt : Type 0 where
  pub statement : Executor
  pub fetched : ℕ

abbrev pub Statements : Type 0
Statements = Dict PreparedStmt

-- The packets that the handlers send, by class and arguments. `ok_answer` is the answer to a statement
-- without rows, and `ok_eof_status` and `eof_status` are the two that `last_packet` chooses from.
pub data Message : Type 0 where
  stmt_prepare_header : ℕ → ℕ → ℕ → Message
  column_count : ℕ → Message
  column_definition : Column → Message
  binary_row : Row → Message
  eof_status : ℕ → Message
  ok_eof_status : ℕ → Message
  ok_answer : Message

-- A handler returns the packets that it sends, or raises, and leaves the session's statements.
abbrev pub Outcome : Type 0
Outcome = Result (List Message) × Statements

-- `Executor.stmt_prepare` and `Executor.stmt_execute`: they run a query, may raise, and change the
-- executor in either case.
pub record Engine : Type 0 where
  pub new : Executor
  pub stmt_prepare : Executor → List ℕ → Result (Unit {0}) × Executor
  pub stmt_execute : Executor → List Value → Result (Unit {0}) × Executor

-- the values of `SERVER_STATUS`
abbrev pub status_autocommit : ℕ
status_autocommit = 2

abbrev pub status_cursor_exists : ℕ
status_cursor_exists = 64

abbrev pub status_last_row_sent : ℕ
status_last_row_sent = 128

module _ {V : Type 0} where
  contains : ℕ → Dict V → Bool
  unfolding lookup
  contains k d = elim (lookup k d) [ none ↦ false | some v ↦ true ]

  -- `while i in self.prepared_stmts and i < 100`, with the rounds that are left
  free_id : ℕ → ℕ → Dict V → ℕ
  free_id zero i d = i
  free_id (suc rounds) i d =
      let next = free_id rounds (i + 1) d in if contains i d && ltb i 100 then next else i

  pub register_stmt : V → Dict V → Result (ℕ × Dict V)
  register_stmt v d =
      let i = free_id 99 1 d in
      if i == 100 then err too_many_unclosed_queries else ok (i, insert i v d)

  -- `del self.prepared_stmts[stmt_id]`
  pub unregister_stmt : ℕ → Dict V → Result (Dict V)
  unfolding contains remove
  unregister_stmt k d = if contains k d then ok (remove k d) else err key_error

-- column definitions and the EOF behind them, which a client with CLIENT_DEPRECATE_EOF does not get
definitions : Bool → List Column → List (Message)
definitions deprecate_eof [] = []
definitions true (c ∷ cs) = map column_definition (c ∷ cs)
definitions false (c ∷ cs) = map column_definition (c ∷ cs) ++ eof_status status_autocommit ∷ []

prepare_messages : Bool → ℕ → Executor → List (Message)
unfolding definitions
prepare_messages deprecate_eof i e =
    stmt_prepare_header i (length e.columns) (length e.params)
    ∷ (definitions deprecate_eof e.params ++ definitions deprecate_eof e.columns)

-- `last_packet`
pub last_packet : Bool → ℕ → Message
last_packet true status = ok_eof_status status
last_packet false status = eof_status status

-- `executor.server_status or 0x0002`
server_status_or : Option ℕ → ℕ
server_status_or none = status_autocommit
server_status_or (some zero) = status_autocommit
server_status_or (some (suc n)) = suc n

-- With EOF packets the rows wait for COM_STMT_FETCH; without, all of them are sent at once.
execute_rows : Bool → ℕ → PreparedStmt → List Row → Statements → Outcome
unfolding last_packet insert server_status_or
execute_rows false i p rows d =
    let columns = p.statement.columns in
    (
      ok (column_count (length columns) ∷ (map column_definition columns ++ eof_status 0x62 ∷ [])),
      d,
    )
execute_rows true i p rows d =
    let columns = p.statement.columns in
    (
      ok (
          column_count (length columns)
          ∷ (map column_definition columns
              ++ (map binary_row rows
                  ++ last_packet true (server_status_or p.statement.server_status) ∷ []))),
      insert i (record p { fetched = p.fetched + length rows }) d,
    )

fetch_rows : Bool → ℕ → ℕ → PreparedStmt → List Row → Statements → Outcome
unfolding last_packet insert
fetch_rows deprecate_eof i limit p all d =
    let rows = slice p.fetched limit all in
    let status =
      if leb (length all) (limit + p.fetched)
      then status_autocommit + status_last_row_sent
      else status_autocommit + status_cursor_exists in
    (
      ok (map binary_row rows ++ last_packet deprecate_eof status ∷ []),
      insert i (record p { fetched = p.fetched + length rows }) d,
    )

fetch_found : Bool → ℕ → ℕ → Option PreparedStmt → Statements → Outcome
unfolding fetch_rows
fetch_found deprecate_eof i limit none d = (err key_error, d)
fetch_found deprecate_eof i limit (some p) d = elim p.statement.rows [
  | none ↦ (ok (ok_answer ∷ []), d)
  | some all ↦ fetch_rows deprecate_eof i limit p all d
]

pub answer_stmt_fetch : Bool → ℕ → ℕ → Statements → Outcome
unfolding lookup fetch_found
answer_stmt_fetch deprecate_eof i limit d = fetch_found deprecate_eof i limit (lookup i d) d

-- COM_STMT_CLOSE sends nothing
pub answer_stmt_close : ℕ → Statements → Outcome
unfolding unregister_stmt
answer_stmt_close i d = elim (unregister_stmt i d) [ ok d' ↦ (ok [], d') | err e ↦ (err e, d) ]

module _ (engine : Engine) where
  prepared : Bool → ℕ → Result (Unit {0}) × Executor → Statements → Outcome
  unfolding prepare_messages insert
  prepared deprecate_eof i (ok _, e) d =
      (ok (prepare_messages deprecate_eof i e), insert i (record { statement = e; fetched = 0 }) d)
  prepared deprecate_eof i (err x, e) d =
      (err x, insert i (record { statement = e; fetched = 0 }) d)

  -- The statement is registered before it is prepared.
  pub answer_stmt_prepare : Bool → List ℕ → Statements → Outcome
  unfolding prepared
  answer_stmt_prepare deprecate_eof sql d =
      elim (register_stmt (record { statement = engine.new; fetched = 0 }) d) [
        | err x ↦ (err x, d)
        | ok (i, d') ↦ prepared deprecate_eof i (engine.stmt_prepare engine.new sql) d'
      ]

  executed : Bool → ℕ → ℕ → Result (Unit {0}) × Executor → Statements → Outcome
  unfolding execute_rows insert
  executed deprecate_eof i fetched (err x, e) d =
      (err x, insert i (record { statement = e; fetched = fetched }) d)
  executed deprecate_eof i fetched (ok _, e) d =
      let p : PreparedStmt = record { statement = e; fetched = fetched } in
      let d' = insert i p d in
      elim e.rows [
        | none ↦ (ok (ok_answer ∷ []), d')
        | some rows ↦ execute_rows deprecate_eof i p rows d'
      ]

  execute_found : Bool → ℕ → List Value → Option PreparedStmt → Statements → Outcome
  unfolding executed
  execute_found deprecate_eof i values none d = (err key_error, d)
  execute_found deprecate_eof i values (some p) d =
      executed deprecate_eof i p.fetched (engine.stmt_execute p.statement values) d

  pub answer_stmt_execute : Bool → ℕ → List Value → Statements → Outcome
  unfolding lookup execute_found
  answer_stmt_execute deprecate_eof i values d = execute_found deprecate_eof i values (lookup i d) d
