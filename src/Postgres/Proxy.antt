-- ===== src/Postgres/Proxy.antt =====
-- `PostgresProxyHandler` of postgres_proxy.py: the state of a connection, and what it does on each
-- message of the client.
pub mod Invariants
use mindsdb.Common.{
  ℕ, zero, suc, ◌+◌, ◌≡◌, refl, Bool, true, false, ◌||◌, Option, none, some, List, [], ◌∷◌, ◌++◌,
  arith, ◌==◌, if◌then◌else◌, length, get_elem?, Bytes, codes, ℤ, pos, Result, ok, err, Error,
  type_error, key_error, attribute_error, unbound_local, not_utf8_sql,
}
use mindsdb.Wire.Text.{utf8, decimal}
use mindsdb.Wire.Text.Decode.{decode}
use mindsdb.Postgres.Text.{strip_null_byte, strip_of, first_word, text_eq}
use mindsdb.Postgres.Backend.{
  BackendMessage, Written, parse_complete, bind_complete, ready_for_query, command_complete,
  row_descriptions, data_row, incomplete, from_answer, invalid_sql_statement_name, data_exception,
  send,
}
use mindsdb.Postgres.Frontend.{
  Parse, Bind, FrontendMessage, query, terminate, bind, execute, sync, describe,
}
use mindsdb.Postgres.Answers.{
  Column, Cell, PostgresColumn, SqlAnswer, success, table, failure, to_postgres_columns,
  to_postgres_fields, to_postgres_rows,
}
use mindsdb.Postgres.Executor.{Engine, Executor, stmt_prepare, stmt_execute, query_execute}
use mindsdb.Postgres.Startup.{BytesDict, Startup, bytes_of, lookup, insert}
use mindsdb.Common.Method.{M, continue, ◌>>=◌, ◌>>◌, return, lift}

-- The dictionary that `parse` makes, with its executor by its place among `executors`: a portal is a
-- copy of it, and shares the executor.
pub record Statement : Type 0 where
  pub executor : ℕ
  pub message : Parse

pub record Portal : Type 0 where
  pub statement : Statement
  pub bound : Bind

pub record Proxy (Q S : Type 0) : Type 0 where
  -- what `self.session` stands for, with the databases behind it
  pub session : S
  pub executors : List (Executor Q)
  pub named_statements : BytesDict Statement
  pub unnamed_statement : Option Statement
  pub named_portals : BytesDict Portal
  pub unnamed_portal : Option Portal
  pub transaction_status : Bytes
  pub user_parameters : Option Startup
  -- `session.auth` and `session.username`
  pub auth : Bool
  pub username : List ℕ
  -- what the client has still to say, and what it was sent
  pub rfile : Bytes
  pub wfile : Bytes

-- a write at an index that is there
abbrev pub set {ℓ} : {A : Type ℓ} → ℕ → A → List A → List A
set n a [] = []
set zero a (x ∷ xs) = a ∷ xs
set (suc n) a (x ∷ xs) = x ∷ set n a xs

-- `SELECT 3`
unfoldable pub tag_of : List ℕ → ℕ → List ℕ
unfolding decimal
tag_of command rows = command ++ (b' ' ∷ decimal (pos rows))

is_semicolon : ℕ → Bool
is_semicolon c = c == b';'

-- `get_command` of a text, behind `stringify_sql`
unfoldable pub get_command : List ℕ → List ℕ
unfolding first_word strip_of strip_null_byte is_semicolon
get_command sql = first_word (strip_of is_semicolon (strip_null_byte sql))

unfoldable pub counts_rows : List ℕ → Bool
unfolding text_eq
counts_rows command =
    text_eq command (codes "INSERT")
    || text_eq command (codes "DELETE")
    || text_eq command (codes "UPDATE")
    || text_eq command (codes "SELECT")
    || text_eq command (codes "MOVE")
    || text_eq command (codes "FETCH")
    || text_eq command (codes "COPY")

-- The status after a command, and the tag that is sent.
unfoldable pub next_status : List ℕ → Bytes → Bytes
unfolding text_eq
next_status command status =
    if text_eq command (codes "BEGIN")
    then codes "T"
    else if text_eq command (codes "COMMIT")
    then codes "I"
    else status

unfoldable pub command_tag : List ℕ → ℕ → List ℕ
unfolding text_eq counts_rows tag_of
command_tag command rows =
    let shown = if text_eq command (codes "CREATE") then codes "SELECT" else command in
    if counts_rows shown then tag_of shown rows else shown

-- `get_encoding`: `none` is the proxy's charset, utf8
abbrev pub encoding_of : Option Startup → Result (Option Bytes)
encoding_of none = err attribute_error
encoding_of (some u) = elim (bytes_of (lookup (codes "user_encoding") u)) [
  | some (x ∷ bytes) ↦ ok (some (x ∷ bytes))
  | _ ↦ ok none
]

abbrev pub answer_of : {Q : Type 0} → Executor Q → Option (List (List Cell)) → Result SqlAnswer
answer_of e none = ok success
answer_of e (some rows) = elim (to_postgres_columns e.columns) [
  | ok columns ↦ ok (table columns rows)
  | err raised ↦ err raised
]

-- `return_executor_data`
unfoldable pub return_executor_data : {Q : Type 0} → Executor Q → Result SqlAnswer
unfolding to_postgres_columns
return_executor_data e = answer_of e e.rows

module _ {Q S : Type 0} where
  abbrev wrote : Proxy Q S → Written → Result (Unit {0}) × Proxy Q S
  wrote p (wfile, done) = (done, record p { wfile = wfile })

  -- `send`: what was written before an exception stays written
  unfoldable pub send_message : BackendMessage → M (Proxy Q S) (Unit {0})
  unfolding send
  send_message m p = wrote p (send m p.wfile)

  -- an encoding of `bytes` is no name of an encoding
  abbrev pub encode_by : List ℕ → Option Bytes → M (Proxy Q S) Bytes
  encode_by text none = return (utf8 text)
  encode_by text (some encoding) = lift (err type_error)

  -- `text.encode(self.get_encoding())`
  unfoldable pub encode : List ℕ → M (Proxy Q S) Bytes
  unfolding lookup
  encode text p = continue (encode_by text) (encoding_of p.user_parameters, p)

  unfoldable pub send_ready : M (Proxy Q S) (Unit {0})
  unfolding send_message
  send_ready p = send_message (ready_for_query p.transaction_status) p

  set_status : Bytes → M (Proxy Q S) (Unit {0})
  set_status status p = (ok tt, record p { transaction_status = status })

  -- `return_ok`
  unfoldable pub return_ok : List ℕ → ℕ → M (Proxy Q S) (Unit {0})
  unfolding get_command next_status command_tag encode send_message set_status
  return_ok sql rows p =
      (do
        set_status (next_status (get_command sql) p.transaction_status)
        tag ← encode (command_tag (get_command sql) rows)
        send_message (command_complete tag))
        p

  unfoldable pub descriptions : Bool → List PostgresColumn → M (Proxy Q S) (Unit {0})
  unfolding send_message to_postgres_fields
  descriptions false columns = return tt
  descriptions true columns = send_message (row_descriptions (to_postgres_fields columns))

  unfoldable pub tagged : ℕ → M (Proxy Q S) (Unit {0})
  unfolding send_message encode tag_of
  tagged n = do tag ← encode (tag_of (codes "SELECT") n); send_message (command_complete tag)

  unfoldable pub rows_sent :
      List PostgresColumn → Bool → List (List Bytes) → M (Proxy Q S) (Unit {0})
  unfolding descriptions send_message tagged
  rows_sent columns row_descs rows = do
    descriptions row_descs columns
    send_message (data_row rows)
    tagged (length rows)

  -- `return_table`
  unfoldable pub return_table :
      List PostgresColumn → List (List Cell) → Bool → M (Proxy Q S) (Unit {0})
  unfolding to_postgres_rows rows_sent
  return_table columns cells row_descs = do
    rows ← lift (to_postgres_rows cells)
    rows_sent columns row_descs rows

  -- `respond_from_sql_answer`; only a table has rows
  unfoldable pub respond : List ℕ → SqlAnswer → Bool → M (Proxy Q S) (Unit {0})
  unfolding return_ok return_table send_message
  respond sql success row_descs = return_ok sql 0
  respond sql (table columns rows) row_descs = return_table columns rows row_descs
  respond sql (failure code message) row_descs = send_message (from_answer code message)
