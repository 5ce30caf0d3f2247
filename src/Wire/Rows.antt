-- ===== src/Wire/Rows.antt =====
-- Rows of an answer, of mindsdb/api/mysql/mysql_proxy/data_types/mysql_packets: the text rows of
-- resultset_row_package.py, and the null bitmap of binary_resultset_row_package.py.
pub mod TextRow
pub mod NullBitmap
use mindsdb.Common.{
  ℕ, zero, suc, ◌+◌, ◌-◌, ◌*◌, ◌%◌, ◌^◌, Bool, true, false, ◌&&◌, Option, none, some, List, [], ◌∷◌,
  ◌++◌, ltb, ◌==◌, if◌then◌else◌, Bytes, Result, ok, err, ◌>>=◌,
}
use mindsdb.Wire.Datum.{null_value, string, lenenc, text, datum_of, to_string_packet}

-- A cell: `None`, or `str(val)`.
abbrev pub Cell : Type 0
Cell = Option (List ℕ)

cell_bytes : Cell → Result Bytes
cell_bytes none = ok (null_value ∷ [])
cell_bytes (some s) = to_string_packet (datum_of string lenenc (text s))

-- `ResultsetRowPacket.body`
pub text_row : List Cell → Result Bytes
unfolding cell_bytes
text_row [] = ok []
text_row (c ∷ cs) = do bs ← cell_bytes c; rest ← text_row cs; ok (bs ++ rest)

abbrev pub null_count : Cell → ℕ
null_count none = 1
null_count (some s) = 0

-- the bit of column `i`, in the byte that is the last one when the loop reaches it
null_bit : ℕ → ℕ
null_bit i = if ltb i 6 then 2 ^ ((i + 2) % 8) else 2 ^ ((i - 6) % 8)

-- The loop of `BinaryResultsetRowPacket.setup` from column `i` on, with the last byte of `nulls`: it
-- returns that byte and those that follow.
null_bytes : ℕ → ℕ → List Cell → Bytes
unfolding null_bit
null_bytes i byte [] = byte ∷ []
null_bytes i byte (c ∷ cs) =
    let more = null_bytes (i + 1) (null_count c * null_bit i) cs in
    let same = null_bytes (i + 1) (byte + null_count c * null_bit i) cs in
    if ltb 0 i && (i + 2) % 8 == 0 then byte ∷ more else same

pub null_bitmap : List Cell → Bytes
unfolding null_bytes
null_bitmap cs = null_bytes 0 0 cs
