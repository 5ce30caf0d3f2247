-- ===== src/Postgres/Handlers/Tables.antt =====
-- `query` of postgres_proxy.py: a query that answers with a table.
use mindsdb.Common.{
  ℕ, ◌<◌, ◌≡◌, refl, ap, ◌∙◌, Bool, true, none, some, List, [], ◌∷◌, ◌++◌, length, Bytes, codes, ok,
  append_assoc, All,
}
use mindsdb.Wire.Text.{utf8}
use mindsdb.Postgres.Backend.{BackendMessage, row_descriptions, data_row, command_complete, send}
use mindsdb.Postgres.Backend.Frames.{frame, InRange, send-command_complete}
use mindsdb.Postgres.Backend.Rows.{row_frame, FitsRow, send-data_row}
use mindsdb.Postgres.Backend.Fields.{description_body, send-to_postgres_fields}
use mindsdb.Postgres.Reader.Steps.{string, each}
use mindsdb.Postgres.Answers.{
  PostgresColumn, Cell, SqlAnswer, table, to_postgres_columns, to_postgres_rows, to_postgres_fields,
}
use mindsdb.Postgres.Executor.{Engine, Executor, query_execute}
use mindsdb.Common.Method.{M, continue, ◌>>=◌, ◌>>◌, return}
use mindsdb.Postgres.Proxy.{
  Proxy, tag_of, encode, encoding_of, encode_by, send_message, send_ready, respond, descriptions,
  tagged, rows_sent, return_table, return_executor_data, answer_of,
}
use mindsdb.Postgres.Handlers.{process_query, query_answer, get_parsed_sql, handle_query}
use mindsdb.Postgres.Handlers.Queries.{send_then, ready_then}

-- A table, as a client gets it: description, rows, `SELECT` with their number.
abbrev pub description : List PostgresColumn → Bytes
description columns = description_body (to_postgres_fields columns)

abbrev pub tag : ℕ → Bytes
tag n = utf8 (tag_of (codes "SELECT") n)

abbrev pub table_bytes : List PostgresColumn → List (List Bytes) → Bytes
table_bytes columns rows =
    frame b'T' (description columns)
    ++ (each row_frame rows ++ frame b'C' (string (tag (length rows))))

-- The sizes are within the formats of the protocol, and the rows are as long as the first.
pub record FitsTable (columns : List PostgresColumn) (row : List Bytes) (rows : List (List Bytes))
    : Type 0 where
  pub few_columns : length columns < 32768
  pub description_fits : InRange (description columns)
  pub few_values : length row < 32768
  pub rows_fit : All (FitsRow (length row)) (row ∷ rows)
  pub tag_fits : InRange (string (tag (length (row ∷ rows))))

module _ {Q S : Type 0} where
  encode_then :
      {B : Type 0} (text : List ℕ) (k : Bytes → M (Proxy Q S) B) (q : Proxy Q S)
      → encoding_of q.user_parameters ≡ ok none
      → (encode text >>= k) q ≡ k (utf8 text) q
  unfolding encode
  encode_then text k q e = ap (λ r. continue k (continue (encode_by text) (r, q))) e

  send_last :
      (m : BackendMessage) (out : Bytes) (q : Proxy Q S)
      → send m q.wfile ≡ (q.wfile ++ out, ok tt)
      → send_message m q ≡ (ok tt, record q { wfile = q.wfile ++ out })
  unfolding send_message
  send_last m out q e = rw e refl

  rows_sent_lem :
      (columns : List PostgresColumn) (row : List Bytes) (rows : List (List Bytes)) (q : Proxy Q S)
      → FitsTable columns row rows
      → encoding_of q.user_parameters ≡ ok none
      → rows_sent columns true (row ∷ rows) q
        ≡ (ok tt, record q { wfile = q.wfile ++ table_bytes columns (row ∷ rows) })
  unfolding rows_sent descriptions tagged
  rows_sent_lem columns row rows q fits charset =
      let n = length (row ∷ rows) in
      let t = frame b'T' (description columns) in
      let d = each row_frame (row ∷ rows) in
      let c = frame b'C' (string (tag n)) in
      let q₁ : Proxy Q S = record q { wfile = q.wfile ++ t } in
      let q₂ : Proxy Q S = record q { wfile = q.wfile ++ t ++ d } in
      send_then (row_descriptions (to_postgres_fields columns)) t
        (send_message (data_row (row ∷ rows)) >> tagged n) q
        (send-to_postgres_fields columns q.wfile fits.few_columns fits.description_fits)
      ∙ send_then (data_row (row ∷ rows)) d (tagged n) q₁
          (send-data_row row rows q₁.wfile fits.few_values fits.rows_fit).0
      ∙ encode_then (tag_of (codes "SELECT") n) (λ x. send_message (command_complete x)) q₂ charset
      ∙ send_last (command_complete (tag n)) c q₂
          (send-command_complete (tag n) q₂.wfile fits.tag_fits)
      ∙ ap (λ w. (ok tt, record q { wfile = w }))
          (append_assoc (q.wfile ++ t) d c ∙ append_assoc q.wfile t (d ++ c))

  table_then_ready :
      (columns : List PostgresColumn) (row : List Bytes) (rows : List (List Bytes)) (x : ℕ)
      (q : Proxy Q S)
      → FitsTable columns row rows
      → encoding_of q.user_parameters ≡ ok none
      → q.transaction_status ≡ x ∷ []
      → (rows_sent columns true (row ∷ rows) >> (send_ready >> return true)) q ≡ (
        ok true,
        record q { wfile = q.wfile ++ (table_bytes columns (row ∷ rows) ++ frame b'Z' (x ∷ [])) },
      )
  table_then_ready columns row rows x q fits charset st =
      let b = table_bytes columns (row ∷ rows) in
      let z = frame b'Z' (x ∷ []) in
      ap (continue (λ _. send_ready >> return true)) (rows_sent_lem columns row rows q fits charset)
      ∙ ready_then x (return true) (record q { wfile = q.wfile ++ b }) st
      ∙ ap (λ w. (ok true, record q { wfile = w })) (append_assoc q.wfile b z)

return_executor_data_table :
    {Q : Type 0} (e : Executor Q) (cells : List (List Cell)) (columns : List PostgresColumn)
    → e.rows ≡ some cells
    → to_postgres_columns e.columns ≡ ok columns
    → return_executor_data e ≡ ok (table columns cells)
unfolding return_executor_data
return_executor_data_table e cells columns rows names =
    ap (answer_of e) rows ∙ rw (names, answer_of) refl

module _ {Q S : Type 0} (engine : Engine Q S) where
  process_query_table :
      (sql : List ℕ) (e : Executor Q) (s : S) (answer : SqlAnswer) (p : Proxy Q S)
      → query_execute engine p.session sql ≡ (ok e, s)
      → return_executor_data e ≡ ok answer
      → process_query engine sql p ≡ (ok answer, record p { session = s })
  unfolding process_query query_answer
  process_query_table sql e s answer p done shown =
      ap (λ r. query_answer engine r.0 (record p { session = r.1 })) done
      ∙ ap (λ r. (r, record p { session = s })) shown

  abbrev answered : List ℕ → SqlAnswer → M (Proxy Q S) Bool
  answered sql answer = respond sql answer true >> (send_ready >> return true)

  answer_table :
      (sql : List ℕ) (columns : List PostgresColumn) (cells : List (List Cell)) (row : List Bytes)
      (rows : List (List Bytes)) (x : ℕ) (q : Proxy Q S)
      → to_postgres_rows cells ≡ ok (row ∷ rows)
      → FitsTable columns row rows
      → encoding_of q.user_parameters ≡ ok none
      → q.transaction_status ≡ x ∷ []
      → answered sql (table columns cells) q ≡ (
        ok true,
        record q { wfile = q.wfile ++ (table_bytes columns (row ∷ rows) ++ frame b'Z' (x ∷ [])) },
      )
  unfolding respond return_table
  answer_table sql columns cells row rows x q bytes fits charset st =
      ap (λ r. continue (λ _. send_ready >> return true) (continue (rows_sent columns true) (r, q)))
        bytes
      ∙ table_then_ready columns row rows x q fits charset st

  -- A query that is run and answers with a table of one row or more, whose sizes fit the protocol,
  -- where the client named no encoding of its own, is answered with the description of the columns,
  -- each row, the tag `SELECT` with the number of rows, and ReadyForQuery with the status of the
  -- transaction. The state changes by the run alone, and the connection goes on.
  pub handle_query_table :
      (m : Bytes) (sql : List ℕ) (e : Executor Q) (s : S) (cells : List (List Cell))
      (columns : List PostgresColumn) (row : List Bytes) (rows : List (List Bytes)) (x : ℕ)
      (p : Proxy Q S)
      → get_parsed_sql engine m ≡ ok sql
      → query_execute engine p.session sql ≡ (ok e, s)
      → e.rows ≡ some cells
      → to_postgres_columns e.columns ≡ ok columns
      → to_postgres_rows cells ≡ ok (row ∷ rows)
      → FitsTable columns row rows
      → encoding_of p.user_parameters ≡ ok none
      → p.transaction_status ≡ x ∷ []
      → handle_query engine m p ≡ (
        ok true,
        record p {
          session = s;
          wfile = p.wfile ++ (table_bytes columns (row ∷ rows) ++ frame b'Z' (x ∷ []));
        },
      )
  unfolding handle_query
  handle_query_table m sql e s cells columns row rows x p clear done shown names bytes fits charset
        st =
      let answer = return_executor_data_table e cells columns shown names in
      ap (λ r. continue (λ t. process_query engine t >>= answered t) (r, p)) clear
      ∙ ap (continue (answered sql))
          (process_query_table sql e s (table columns cells) p done answer)
      ∙ answer_table sql columns cells row rows x (record p { session = s }) bytes fits charset st
