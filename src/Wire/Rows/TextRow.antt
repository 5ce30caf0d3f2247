-- ===== src/Wire/Rows/TextRow.antt =====
-- resultset_row_package.py: a text row as a client reads it.
use mindsdb.Common.{
  ℕ, zero, suc, ◌<◌, ◌≡◌, refl, true, false, Option, none, some, List, [], ◌∷◌, ◌++◌, map,
  append_assoc, ◌==◌, length, Bytes, All, Result, ok, err, ◌>>=◌, struct_error,
}
use mindsdb.Wire.Text.{utf8}
use mindsdb.Wire.Datum.{
  null_value, string, lenenc, raw, Value, datum, datum_of, to_string_packet, set_from_buff,
}
use mindsdb.Wire.Datum.RoundTrip.{
  protocol_string, lenenc_text-protocol_string, protocol_string_head, set_from_buff-protocol_string,
}
use mindsdb.Wire.Rows.{Cell, text_row}

-- A client reads NULL by its mark and any other cell as a length-encoded string.
raw_of : Value → Bytes
raw_of (raw bs) = bs
raw_of v = []

pub read_row : ℕ → Bytes → Result (List (Option Bytes) × Bytes)
unfolding raw_of
read_row zero buffer = ok ([], buffer)
read_row (suc n) [] = err struct_error
read_row (suc n) (b ∷ buffer) = elim (b == null_value) [
  | true ↦ do (cells, rest) ← read_row n buffer; ok (none ∷ cells, rest)
  | false ↦ do
    (d, rest1) ← set_from_buff (datum string lenenc) (b ∷ buffer)
    (cells, rest) ← read_row n rest1
    ok (some (raw_of d.value) ∷ cells, rest)
]

-- the bytes of a cell's text
abbrev pub cell_text : Cell → Option Bytes
cell_text none = none
cell_text (some s) = some (utf8 s)

abbrev pub IsShort : Cell → Type 0
IsShort none = Unit
IsShort (some s) = length (utf8 s) < 16777216

read_row_zero : (rest : Bytes) → read_row 0 rest ≡ ok ([], rest)
unfolding read_row
read_row_zero rest = refl

read_row_null :
    (n : ℕ) (rest : Bytes)
    → read_row (suc n) (null_value ∷ rest)
      ≡ (do (cells, rest1) ← read_row n rest; ok (none ∷ cells, rest1))
unfolding read_row
read_row_null n rest = refl

read_row_text :
    (n b : ℕ) (buffer bs rest : Bytes)
    → (b == null_value) ≡ false
    → set_from_buff (datum string lenenc) (b ∷ buffer) ≡ ok (datum_of string lenenc (raw bs), rest)
    → read_row (suc n) (b ∷ buffer)
      ≡ (do (cells, rest1) ← read_row n rest; ok (some bs ∷ cells, rest1))
unfolding read_row
read_row_text n b buffer bs rest e f = rw (e, read_row) (rw f)

read_row-protocol_string :
    (n : ℕ) (bs rest : Bytes)
    → length bs < 16777216
    → read_row (suc n) (protocol_string bs ++ rest)
      ≡ (do (cells, rest1) ← read_row n rest; ok (some bs ∷ cells, rest1))
read_row-protocol_string n bs rest h =
    let (x, xs, e, marked) = protocol_string_head bs h in
    rw e (
      read_row_text n x (xs ++ rest) bs rest marked
        (rw e at (set_from_buff-protocol_string bs rest h)))

-- The bytes of a row.
abbrev row_bytes : List Cell → Bytes
row_bytes [] = []
row_bytes (none ∷ cs) = null_value ∷ row_bytes cs
row_bytes (some s ∷ cs) = protocol_string (utf8 s) ++ row_bytes cs

text_row-row_bytes : (cs : List Cell) → All IsShort cs → text_row cs ≡ ok (row_bytes cs)
unfolding text_row to_string_packet
text_row-row_bytes [] h = refl
text_row-row_bytes (none ∷ cs) (hc, hs) = rw (text_row-row_bytes cs hs)
text_row-row_bytes (some s ∷ cs) (hc, hs) =
    rw (lenenc_text-protocol_string (utf8 s) hc, text_row-row_bytes cs hs)

read_row-row_bytes :
    (cs : List Cell) (rest : Bytes)
    → All IsShort cs
    → read_row (length cs) (row_bytes cs ++ rest) ≡ ok (map cell_text cs, rest)
read_row-row_bytes [] rest h = read_row_zero rest
read_row-row_bytes (none ∷ cs) rest (hc, hs) =
    rw (read_row_null (length cs) (row_bytes cs ++ rest), read_row-row_bytes cs rest hs)
read_row-row_bytes (some s ∷ cs) rest (hc, hs) = rw append_assoc (
    rw (read_row-protocol_string (length cs) (utf8 s) (row_bytes cs ++ rest) hc)
      (rw (read_row-row_bytes cs rest hs)))

-- A text row of cells below 2^24 bytes, whatever follows it, is read back cell by cell, NULLs apart
-- from texts.
pub read_row-text_row :
    (cs : List Cell) (rest : Bytes)
    → All IsShort cs
    → (do bs ← text_row cs; read_row (length cs) (bs ++ rest)) ≡ ok (map cell_text cs, rest)
read_row-text_row cs rest h = rw (text_row-row_bytes cs h) (read_row-row_bytes cs rest h)
