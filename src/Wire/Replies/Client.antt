-- ===== src/Wire/Replies/Client.antt =====
-- err_packet.py and stmt_prepare_header.py: what a client reads.
use mindsdb.Common.{
  ℕ, ◌^◌, ◌≤◌, ◌<◌, ◌≡◌, refl, List, [], ◌∷◌, ◌++◌, map, append_assoc, append-nil, arith, Bytes,
  le_bytes, All, pos, Result, ok, ◌>>=◌,
}
use mindsdb.Wire.Text.{utf8, IsAscii, utf8_of_IsAscii}
use mindsdb.Wire.Datum.{
  int, string, eof, fixed, number, raw, text, Value, Datum, datum, datum_of, set_from_buff,
}
use mindsdb.Wire.Datum.Fixed.{set_from_buff-le_bytes, to_string_packet-le_bytes, string_eof_iff}
use mindsdb.Wire.Replies.{int_datum, pack_all, err_body, stmt_prepare_body}

-- A client reads the fields in order.
pub read_fields : List Datum → Bytes → Result (List Value × Bytes)
read_fields [] buffer = ok ([], buffer)
read_fields (d ∷ ds) buffer = do
  (d', rest1) ← set_from_buff d buffer
  (vs, rest) ← read_fields ds rest1
  ok (d'.value ∷ vs, rest)

-- Integers with their sizes in bytes: how they are written, and what they are read as.
ints_bytes : List (ℕ × ℕ) → Bytes
ints_bytes [] = []
ints_bytes ((n, v) ∷ ws) = le_bytes n v ++ ints_bytes ws

AreSized : List (ℕ × ℕ) → Type 0
AreSized = All (λ w. (w.0 ≤ 8) × (w.1 < 256 ^ w.0))

pack_all_ints :
    (ws : List (ℕ × ℕ)) (ds : List Datum)
    → AreSized ws
    → pack_all (map (λ w. int_datum w.0 w.1) ws ++ ds)
      ≡ (do bs ← pack_all ds; ok (ints_bytes ws ++ bs))
unfolding pack_all ints_bytes AreSized
pack_all_ints [] ds h = ground arith
pack_all_ints ((n, v) ∷ ws) ds ((l, f), h) =
    rw (to_string_packet-le_bytes n v l f, pack_all_ints ws ds h) (grind (arith, append_assoc))

read_fields_ints :
    (ws : List (ℕ × ℕ)) (ds : List Datum) (rest : Bytes)
    → AreSized ws
    → read_fields (map (λ w. datum int (fixed w.0)) ws ++ ds) (ints_bytes ws ++ rest)
      ≡ (do (vs, rest') ← read_fields ds rest; ok (map (λ w. number (pos w.1)) ws ++ vs, rest'))
unfolding read_fields ints_bytes AreSized
read_fields_ints [] ds rest h = ground arith
read_fields_ints ((n, v) ∷ ws) ds rest ((l, f), h) =
    rw
      (
        append_assoc (le_bytes n v) (ints_bytes ws) rest,
        set_from_buff-le_bytes n v (ints_bytes ws ++ rest) l f,
        read_fields_ints ws ds rest h,
      )
      (ground arith)

-- The packets' fields, as a client expects them.
abbrev pub err_fields : List Datum
err_fields = datum int (fixed 1) ∷ datum int (fixed 2) ∷ datum string eof ∷ []

abbrev pub stmt_prepare_fields : List Datum
stmt_prepare_fields =
    datum int (fixed 1)
    ∷ datum int (fixed 4)
    ∷ datum int (fixed 2)
    ∷ datum int (fixed 2)
    ∷ datum int (fixed 1)
    ∷ datum int (fixed 2)
    ∷ []

-- A client reads from an error packet its mark, the code below 2^16, and the message, if the
-- message is ASCII.
read_fields-err_body :
    (code : ℕ) (msg : List ℕ)
    → code < 65536
    → All IsAscii msg
    → (do bs ← err_body code msg; read_fields err_fields bs)
      ≡ ok (number (pos 255) ∷ number (pos code) ∷ raw msg ∷ [], [])
unfolding err_body AreSized ints_bytes read_fields pack_all set_from_buff
read_fields-err_body code msg h a =
    let ws : List (ℕ × ℕ) = (1, 255) ∷ (2, code) ∷ [] in
    let sized : AreSized ws = ground arith in
    rw
      (
        pack_all_ints ws (datum_of string eof (text msg) ∷ []) sized,
        (string_eof_iff msg).1 a,
        append-nil (utf8 msg),
        read_fields_ints ws (datum string eof ∷ []) (utf8 msg) sized,
        utf8_of_IsAscii msg a,
      )
      refl

-- A client reads from the header of a prepared statement the identifier and the two counts that the
-- server gave it, between zeros, if they fit their widths.
read_fields-stmt_prepare_body :
    (i columns params : ℕ)
    → i < 256 ^ 4
    → columns < 256 ^ 2
    → params < 256 ^ 2
    → (do bs ← stmt_prepare_body i columns params; read_fields stmt_prepare_fields bs)
      ≡ ok (
        number (pos 0)
            ∷ number (pos i)
            ∷ number (pos columns)
            ∷ number (pos params)
            ∷ number (pos 0)
            ∷ number (pos 0)
            ∷ [],
        [],
      )
unfolding stmt_prepare_body AreSized pack_all read_fields
read_fields-stmt_prepare_body i columns params hi hc hp =
    let ws : List (ℕ × ℕ) = (1, 0) ∷ (4, i) ∷ (2, columns) ∷ (2, params) ∷ (1, 0) ∷ (2, 0) ∷ [] in
    let sized : AreSized ws = ground arith in
    rw (pack_all_ints ws [] sized) (read_fields_ints ws [] [] sized)
