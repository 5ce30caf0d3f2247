-- ===== src/Postgres/Proxy/Invariants.antt =====
-- postgres_proxy.py: what the answers to a client keep of the connection.
use mindsdb.Common.{ℕ, Bool, true, false, Option, none, some, List, length, Bytes, codes}
use mindsdb.Postgres.Backend.{
  BackendMessage, ready_for_query, command_complete, row_descriptions, data_row, from_answer,
}
use mindsdb.Postgres.Answers.{
  Cell, PostgresColumn, SqlAnswer, success, table, failure, to_postgres_fields, to_postgres_rows,
}
use mindsdb.Common.Method.{◌>>◌}
use mindsdb.Common.Method.Keeps.{Keeps, continue-Keeps, >>=-Keeps, >>-Keeps}
use mindsdb.Postgres.Proxy.{
  Proxy, encode, encoding_of, encode_by, send_message, send_ready, set_status, return_ok,
  descriptions, return_table, respond, tagged, rows_sent, next_status, get_command, command_tag,
  tag_of,
}

module _ {Q S : Type 0} (I : Proxy Q S → Type 0)
    (sends : (m : BackendMessage) → Keeps I (send_message m))
    (statuses : (c : List ℕ) (p : Proxy Q S)
      → I p
      → I (record p { transaction_status = next_status c p.transaction_status })) where
  encode_by-Keeps : (text : List ℕ) (e : Option Bytes) → Keeps I (encode_by text e)
  encode_by-Keeps text none p i = i
  encode_by-Keeps text (some e) p i = i

  encode-Keeps : (text : List ℕ) → Keeps I (encode text)
  unfolding encode
  encode-Keeps text p i =
      continue-Keeps I (encode_by text) (encoding_of p.user_parameters, p) (encode_by-Keeps text) i

  pub send_ready-Keeps : Keeps I send_ready
  unfolding send_ready
  send_ready-Keeps p i = sends (ready_for_query p.transaction_status) p i

  return_ok-Keeps : (sql : List ℕ) (rows : ℕ) → Keeps I (return_ok sql rows)
  unfolding return_ok set_status
  return_ok-Keeps sql rows p i =
      >>=-Keeps I (encode (command_tag (get_command sql) rows)) _
        (encode-Keeps (command_tag (get_command sql) rows)) (λ tag. sends (command_complete tag)) _
        (statuses (get_command sql) p i)

  descriptions-Keeps : (b : Bool) (columns : List PostgresColumn) → Keeps I (descriptions b columns)
  unfolding descriptions
  descriptions-Keeps false columns p i = i
  descriptions-Keeps true columns p i = sends (row_descriptions (to_postgres_fields columns)) p i

  tagged-Keeps : (n : ℕ) → Keeps I (tagged n)
  unfolding tagged
  tagged-Keeps n =
      >>=-Keeps I (encode (tag_of (codes "SELECT") n)) (λ tag. send_message (command_complete tag))
        (encode-Keeps (tag_of (codes "SELECT") n)) (λ tag. sends (command_complete tag))

  rows_sent-Keeps :
      (columns : List PostgresColumn) (b : Bool) (rows : List (List Bytes))
      → Keeps I (rows_sent columns b rows)
  unfolding rows_sent
  rows_sent-Keeps columns b rows =
      >>-Keeps I (descriptions b columns) (send_message (data_row rows) >> tagged (length rows))
        (descriptions-Keeps b columns)
        (>>-Keeps I (send_message (data_row rows)) (tagged (length rows)) (sends (data_row rows))
          (tagged-Keeps (length rows)))

  return_table-Keeps :
      (columns : List PostgresColumn) (cells : List (List Cell)) (b : Bool)
      → Keeps I (return_table columns cells b)
  unfolding return_table
  return_table-Keeps columns cells b p i =
      continue-Keeps I (rows_sent columns b) (to_postgres_rows cells, p) (rows_sent-Keeps columns b)
        i

  pub respond-Keeps : (sql : List ℕ) (a : SqlAnswer) (b : Bool) → Keeps I (respond sql a b)
  unfolding respond
  respond-Keeps sql success b = return_ok-Keeps sql 0
  respond-Keeps sql (table columns rows) b = return_table-Keeps columns rows b
  respond-Keeps sql (failure code message) b = sends (from_answer code message)
