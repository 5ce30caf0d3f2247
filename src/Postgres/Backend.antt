-- ===== src/Postgres/Backend.antt =====
-- The messages that the server sends, in postgres_packets/postgres_message_formats.py: the packet of
-- each class, and `send`.
pub mod Framing
pub mod Frames
pub mod Rows
pub mod Fields
use mindsdb.Common.{
  ℕ, ◌≡◌, refl, Option, none, some, List, [], ◌∷◌, ◌++◌, arith, length, Bytes, codes, ℤ, pos,
  Result, ok, err, ◌>>=◌, attribute_error,
}
use mindsdb.Wire.Text.{utf8}
use mindsdb.Postgres.Builder.{
  Builder, PostgresField, get_packet_builder, add_char, add_string, add_int32, add_int16,
  add_fields, add_row, write,
}

-- An instance of one of the classes. `incomplete` is one of `InvalidSQLStatementName` or
-- `DataException` whose `__init__` was given a message: it then sets no attribute.
pub data BackendMessage : Type 0 where
  notice_response authentication_ok authentication_clear_text_password : BackendMessage
  bind_complete parse_complete incomplete : BackendMessage
  ready_for_query : Bytes → BackendMessage
  command_complete : Bytes → BackendMessage
  error : Bytes → Bytes → Bytes → BackendMessage
  parameter_status : Bytes → Bytes → BackendMessage
  row_descriptions : List PostgresField → BackendMessage
  parameter_description : List ℤ → BackendMessage
  data_row : List (List Bytes) → BackendMessage
  negotiate_protocol_version : ℤ → ℤ → Option Bytes → BackendMessage

-- `Error.from_answer`
abbrev pub from_answer : Bytes → Bytes → BackendMessage
from_answer error_code error_message = error (codes "ERROR") error_code error_message

-- The constructors of the subclasses of `Error`, with the message or without.
unfoldable pub connection_failure : Option (List ℕ) → BackendMessage
connection_failure none =
    error (codes "FATAL") (codes "08006") (codes "Connection Failure occurred.")
connection_failure (some message) = error (codes "FATAL") (codes "08006") (utf8 message)

unfoldable pub invalid_sql_statement_name : Option (List ℕ) → BackendMessage
invalid_sql_statement_name none =
    error (codes "FATAL") (codes "26000") (codes "Invalid SQL Statement Name")
invalid_sql_statement_name (some message) = incomplete

unfoldable pub data_exception : Option (List ℕ) → BackendMessage
data_exception none = error (codes "FATAL") (codes "22000") (codes "Data Exception")
data_exception (some message) = incomplete

notice_packet : Result Bytes
unfolding write
notice_packet = write (get_packet_builder (codes "N"))

authentication_ok_packet : Result Bytes
unfolding add_int32 write
authentication_ok_packet = write (add_int32 (pos 0) (get_packet_builder (codes "R")))

clear_text_password_packet : Result Bytes
unfolding add_int32 write
clear_text_password_packet = write (add_int32 (pos 3) (get_packet_builder (codes "R")))

ready_for_query_packet : Bytes → Result Bytes
unfolding add_char write
ready_for_query_packet transaction_status = do
  b ← add_char transaction_status (get_packet_builder (codes "Z"))
  write b

command_complete_packet : Bytes → Result Bytes
unfolding add_string write
command_complete_packet tag = write (add_string tag (get_packet_builder (codes "C")))

bind_complete_packet : Result Bytes
unfolding write
bind_complete_packet = write (get_packet_builder (codes "2"))

error_packet : Bytes → Bytes → Bytes → Result Bytes
unfolding add_char add_string write
error_packet severity code message = do
  b ← add_char (codes "S") (get_packet_builder (codes "E"))
  b ← add_char (codes "C") (add_string severity b)
  b ← add_char (codes "M") (add_string code b)
  b ← add_char (0 ∷ []) (add_string message b)
  write b

parameter_status_packet : Bytes → Bytes → Result Bytes
unfolding add_string write
parameter_status_packet name value =
    write (add_string value (add_string name (get_packet_builder (codes "S"))))

row_descriptions_packet : List PostgresField → Result Bytes
unfolding add_int16 add_fields write
row_descriptions_packet fields =
    write (add_fields fields (add_int16 (pos (length fields)) (get_packet_builder (codes "T"))))

add_params : List ℤ → Builder → Builder
unfolding add_int32
add_params [] b = b
add_params (param ∷ parameters) b = add_params parameters (add_int32 param b)

parameter_description_packet : List ℤ → Result Bytes
unfolding add_int16 add_params write
parameter_description_packet parameters =
    write
      (add_params parameters (add_int16 (pos (length parameters)) (get_packet_builder (codes "t"))))

-- the packet of one row, with the number of columns of the first
data_row_packet : ℕ → List Bytes → Result Bytes
unfolding add_int16 add_row write
data_row_packet num_cols row =
    write (add_row row (add_int16 (pos num_cols) (get_packet_builder (codes "D"))))

abbrev num_cols : List (List Bytes) → ℕ
num_cols [] = 0
num_cols (row ∷ rows) = length row

add_option : Option Bytes → Builder → Builder
unfolding add_string
add_option none b = b
add_option (some []) b = b
add_option (some (x ∷ xs)) b = add_string (x ∷ xs) b

negotiate_protocol_version_packet : ℤ → ℤ → Option Bytes → Result Bytes
unfolding add_int32 add_option write
negotiate_protocol_version_packet major_version minor_version option_not_recognized =
    let versions =
      add_int32 minor_version (add_int32 major_version (get_packet_builder (codes "v"))) in
    write (add_option option_not_recognized versions)

parse_complete_packet : Result Bytes
unfolding write
parse_complete_packet = write (get_packet_builder (codes "1"))

-- What a call leaves: the bytes written so far, and its outcome.
abbrev pub Written : Type 0
Written = Bytes × Result (Unit {0})

-- `write_file.write(packed_binary)`
abbrev write_file : Bytes → Result Bytes → Written
write_file wfile (ok packet) = (wfile ++ packet, ok tt)
write_file wfile (err e) = (wfile, err e)

-- one packet for each row; those before one that fails are written
send_rows : ℕ → List (List Bytes) → Bytes → Written
unfolding data_row_packet
send_rows n [] wfile = (wfile, ok tt)
send_rows n (row ∷ rows) wfile = elim (data_row_packet n row) [
  | ok packet ↦ send_rows n rows (wfile ++ packet)
  | err e ↦ (wfile, err e)
]

-- `ReadyForQuery` takes `b'I'` for an empty status.
abbrev status_or_idle : Bytes → Bytes
status_or_idle [] = codes "I"
status_or_idle (x ∷ xs) = x ∷ xs

-- `send` of each class; an object without identifier raises when its packet is made.
unfoldable pub send : BackendMessage → Bytes → Written
unfolding notice_packet authentication_ok_packet clear_text_password_packet ready_for_query_packet
    command_complete_packet bind_complete_packet error_packet parameter_status_packet
    row_descriptions_packet parameter_description_packet negotiate_protocol_version_packet
    parse_complete_packet send_rows
send notice_response wfile = write_file wfile notice_packet
send authentication_ok wfile = write_file wfile authentication_ok_packet
send authentication_clear_text_password wfile = write_file wfile clear_text_password_packet
send bind_complete wfile = write_file wfile bind_complete_packet
send parse_complete wfile = write_file wfile parse_complete_packet
send incomplete wfile = write_file wfile (err attribute_error)
send (ready_for_query status) wfile =
    write_file wfile (ready_for_query_packet (status_or_idle status))
send (command_complete tag) wfile = write_file wfile (command_complete_packet tag)
send (error severity code message) wfile = write_file wfile (error_packet severity code message)
send (parameter_status name value) wfile = write_file wfile (parameter_status_packet name value)
send (row_descriptions fields) wfile = write_file wfile (row_descriptions_packet fields)
send (parameter_description params) wfile = write_file wfile (parameter_description_packet params)
send (data_row rows) wfile = send_rows (num_cols rows) rows wfile
send (negotiate_protocol_version major minor option) wfile =
    write_file wfile (negotiate_protocol_version_packet major minor option)
