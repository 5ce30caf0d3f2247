-- ===== src/Wire/Replies.antt =====
-- Packets of fixed shape, of mindsdb/api/mysql/mysql_proxy/data_types/mysql_packets: ok_packet.py,
-- err_packet.py, eof_packet.py, column_count_packet.py and stmt_prepare_header.py.
pub mod Client
mod Examples
use mindsdb.Common.{
  ℕ, zero, suc, ◌+◌, ◌%◌, Bool, true, false, Option, none, some, List, [], ◌∷◌, ◌++◌, ltb,
  if◌then◌else◌, length, take, Bytes, pos, Result, ok, err, struct_error, ◌>>=◌,
}
use mindsdb.Wire.Datum.{
  int, string, lenenc, eof, fixed, number, text, null, Datum, datum, datum_of, pack_i,
  to_string_packet,
}

-- the integers and texts of the packets
abbrev pub int_datum : ℕ → ℕ → Datum
int_datum n v = datum_of int (fixed n) (number (pos v))

abbrev pub int_lenenc : ℕ → Datum
int_lenenc v = datum_of int lenenc (number (pos v))

-- `string += getattr(self, key).toStringPacket()` for the keys of `order`
pub pack_all : List Datum → Result Bytes
pack_all [] = ok []
pack_all (d ∷ ds) = do bs ← to_string_packet d; rest ← pack_all ds; ok (bs ++ rest)

pub eof_body : ℕ → Result Bytes
eof_body status = pack_all (int_datum 1 0xfe ∷ int_datum 2 0 ∷ int_datum 2 status ∷ [])

pub err_body : ℕ → List ℕ → Result Bytes
err_body err_code msg =
    pack_all (int_datum 1 255 ∷ int_datum 2 err_code ∷ datum_of string eof (text msg) ∷ [])

pub column_count_body : ℕ → Result Bytes
column_count_body count = pack_all (int_lenenc count ∷ [])

pub stmt_prepare_body : ℕ → ℕ → ℕ → Result Bytes
stmt_prepare_body stmt_id num_columns num_params = pack_all (
    int_datum 1 0
    ∷ int_datum 4 stmt_id
    ∷ int_datum 2 num_columns
    ∷ int_datum 2 num_params
    ∷ int_datum 1 0
    ∷ int_datum 2 0
    ∷ [])

-- `struct.pack('i', v)[:1]`
low_byte : ℕ → Result Bytes
unfolding pack_i
low_byte v = do bs ← pack_i v; ok (take 1 bs)

-- the changed system variables; SESSION_TRACK_SYSTEM_VARIABLES is 0
track_changes : List (List ℕ × List ℕ) → Result Bytes
unfolding low_byte
track_changes [] = ok []
track_changes ((name, value) ∷ more) = do
  name_bytes ← to_string_packet (datum_of string lenenc (text name))
  value_bytes ← to_string_packet (datum_of string lenenc (text value))
  let part = name_bytes ++ value_bytes
  kind ← low_byte 0
  size ← low_byte (length part)
  rest ← track_changes more
  ok (kind ++ (size ++ (part ++ rest)))

state_track_bytes : Option (List (List ℕ × List ℕ)) → Result Bytes
unfolding track_changes low_byte
state_track_bytes none = ok []
state_track_bytes (some changes) = do
  info ← to_string_packet (datum_of string lenenc (text []))
  accum ← track_changes changes
  size ← low_byte (length accum)
  ok (info ++ (size ++ accum))

-- `status | SERVER_SESSION_STATE_CHANGED`, of bit 14
track_status : Option (List (List ℕ × List ℕ)) → ℕ → ℕ
track_status none status = status
track_status (some changes) status = if ltb (status % 32768) 16384 then status + 16384 else status

pub ok_body : Bool → ℕ → ℕ → Option (List (List ℕ × List ℕ)) → Result Bytes
unfolding pack_all state_track_bytes track_status
ok_body eof_header affected_rows status state_track = do
  head ← pack_all (
      int_datum 1 (if eof_header then 0xfe else 0)
      ∷ int_lenenc affected_rows
      ∷ int_lenenc 0
      ∷ int_datum 2 (track_status state_track status)
      ∷ int_datum 2 0
      ∷ [])
  track ← state_track_bytes state_track
  info ← to_string_packet (datum string eof)
  ok (head ++ (track ++ info))
