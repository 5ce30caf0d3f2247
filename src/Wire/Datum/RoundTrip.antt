-- ===== src/Wire/Datum/RoundTrip.antt =====
-- mysql_datum.py: `setFromBuff` against `toStringPacket` for length-encoded and NUL-ended values.
use native.Mathlib.Decide.{dec_lt}
use mindsdb.Common.{
  lt→ltb, not_ltb, if◌then◌else◌, ℕ, ◌+◌, ◌-◌, ◌^◌, ◌≤◌, ◌<◌, ◌≡◌, ◌≢◌, refl, sym, ap, ◌∙◌, false,
  List, [], ◌∷◌, ◌++◌, append_assoc, arith, ltb, ◌==◌, length, take, drop, slice, replicate, Bytes,
  le_bytes, from_le, take-append, drop-append, length-append, length-slice-le, length-le_bytes,
  from_le-le_bytes, from_le-append_zeros, length-replicate, Result, ok, err, ◌>>=◌,
}
use mindsdb.Wire.Text.{utf8}
use mindsdb.Wire.Datum.{
  string, lenenc, raw, text, Datum, datum, datum_of, Parsed, null_value, two_byte_enc,
  three_byte_enc, unpack_q, lenenc_text, to_string_packet, set_from_buff, lenenc_body, lenenc_span,
}
use mindsdb.Wire.Datum.Sizes.{lenenc_text_1, lenenc_text_2, lenenc_text_3, lenenc_text_8}

abbrev zero_byte : ℕ
zero_byte = 0

-- The eight bytes that `struct.unpack('Q', …)` is given after a length of `k` bytes.
module _ (k n : ℕ) (l : k ≤ 8) where
  pub length-padded : length (le_bytes k n ++ replicate (8 - k) 0) ≡ 8
  length-padded = omega (
    arith,
    length-append (le_bytes k n) (replicate (8 - k) 0),
    length-le_bytes k n,
    length-replicate (8 - k) zero_byte,
  )

  pub from_le-padded : n < 256 ^ k → from_le (le_bytes k n ++ replicate (8 - k) 0) ≡ n
  from_le-padded h = rw (from_le-append_zeros, from_le-le_bytes k n h)

  unpack_q_padded : n < 256 ^ k → unpack_q (le_bytes k n ++ replicate (8 - k) 0) ≡ ok n
  unfolding unpack_q
  unpack_q_padded h = rw (length-padded, from_le-padded h)

unpack_q_small : (n : ℕ) → unpack_q (n ∷ replicate 7 0) ≡ ok n
unfolding unpack_q
unpack_q_small n = ap ok (omega arith)

pub lenenc_span_small : (b : ℕ) → b < 251 → lenenc_span b ≡ (0, 1)
unfolding lenenc_span
lenenc_span_small b h = ground arith

-- Behind a length that reads as `length bs` the reader takes `bs` and leaves the rest.
module _ (bs rest : Bytes) where
  abbrev Reads : Bytes → Type 0
  Reads buff = set_from_buff (datum string lenenc) buff ≡ ok (datum_of string lenenc (raw bs), rest)

  slice_text :
      (head : Bytes) (end : ℕ)
      → end ≡ length head
      → slice end (length bs + end) (head ++ (bs ++ rest)) ≡ bs
  slice_text head end e =
      rw (drop-append head (bs ++ rest) end e)
        (take-append bs rest (length bs + end - end) (omega arith))

  drop_text :
      (head : Bytes) (end : ℕ)
      → end ≡ length head
      → drop (length bs + end) (head ++ (bs ++ rest)) ≡ rest
  drop_text head end e =
      let whole : drop (length bs + end) ((head ++ bs) ++ rest) ≡ rest =
        drop-append (head ++ bs) rest (length bs + end) (omega (arith, length-append head bs)) in
      rw append_assoc at whole

  lenenc_body_reads :
      (head : Bytes) (end : ℕ) (num_str : Bytes)
      → end ≡ length head
      → unpack_q num_str ≡ ok (length bs)
      → lenenc_body string (datum string lenenc) end num_str (head ++ (bs ++ rest))
        ≡ ok (datum_of string lenenc (raw bs), rest)
  unfolding lenenc_body
  lenenc_body_reads head end num_str e u = rw (u, slice_text head end e, drop_text head end e)

  Reads-1 : length bs < 251 → Reads (length bs ∷ (bs ++ rest))
  unfolding set_from_buff
  Reads-1 h = rw (lenenc_span_small (length bs) h) (
      lenenc_body_reads (length bs ∷ []) 1 (length bs ∷ replicate 7 0) refl
        (unpack_q_small (length bs)))

  Reads-2 : length bs < 65536 → Reads (two_byte_enc ∷ (le_bytes 2 (length bs) ++ (bs ++ rest)))
  unfolding set_from_buff
  Reads-2 h =
      lenenc_body_reads (two_byte_enc ∷ le_bytes 2 (length bs)) 3
        (le_bytes 2 (length bs) ++ replicate 6 0) refl
        (unpack_q_padded 2 (length bs) (omega arith) h)

  Reads-3 : length bs < 16777216 → Reads (three_byte_enc ∷ (le_bytes 3 (length bs) ++ (bs ++ rest)))
  unfolding set_from_buff
  Reads-3 h =
      lenenc_body_reads (three_byte_enc ∷ le_bytes 3 (length bs)) 4
        (le_bytes 3 (length bs) ++ replicate 5 0) refl
        (unpack_q_padded 3 (length bs) (omega arith) h)

-- A length-encoded string as the protocol has it, up to 2^24 bytes.
pub protocol_string : Bytes → Bytes
protocol_string bs =
    if ltb (length bs) 251
    then length bs ∷ bs
    else if ltb (length bs) 65536
    then two_byte_enc ∷ (le_bytes 2 (length bs) ++ bs)
    else three_byte_enc ∷ (le_bytes 3 (length bs) ++ bs)

-- What the server writes is the length-encoded string of the protocol.
pub lenenc_text-protocol_string :
    (bs : Bytes) → length bs < 16777216 → lenenc_text bs ≡ ok (protocol_string bs)
unfolding protocol_string
lenenc_text-protocol_string bs h = elim (dec_lt (length bs) 251) [
  | yes p ↦ rw (lt→ltb _ _ p) (lenenc_text_1 bs p)
  | no p ↦ elim (dec_lt (length bs) 65536) [
    | yes q ↦ rw (not_ltb _ _ p, lt→ltb _ _ q) (lenenc_text_2 bs (omega arith) q)
    | no q ↦ rw (not_ltb _ _ p, not_ltb _ _ q) (lenenc_text_3 bs (omega arith) h)
  ]
]

-- Its first byte is not the mark of NULL.
pub protocol_string_head :
    (bs : Bytes)
    → length bs < 16777216
    → (x : ℕ) × (xs : Bytes) × (protocol_string bs ≡ x ∷ xs) × ((x == null_value) ≡ false)
unfolding protocol_string
protocol_string_head bs h = elim (dec_lt (length bs) 251) [
  | yes p ↦ (length bs, bs, rw (lt→ltb _ _ p), ground arith)
  | no p ↦ elim (dec_lt (length bs) 65536) [
    | yes q ↦ (two_byte_enc, le_bytes 2 (length bs) ++ bs, rw (not_ltb _ _ p, lt→ltb _ _ q), refl)
    | no q ↦ (three_byte_enc, le_bytes 3 (length bs) ++ bs, rw (not_ltb _ _ p, not_ltb _ _ q), refl)
  ]
]

pub set_from_buff-protocol_string :
    (bs rest : Bytes)
    → length bs < 16777216
    → set_from_buff (datum string lenenc) (protocol_string bs ++ rest)
      ≡ ok (datum_of string lenenc (raw bs), rest)
unfolding protocol_string
set_from_buff-protocol_string bs rest h = elim (dec_lt (length bs) 251) [
  | yes p ↦ rw (lt→ltb _ _ p) (Reads-1 bs rest p)
  | no p ↦ elim (dec_lt (length bs) 65536) [
    | yes q ↦ rw (not_ltb _ _ p, lt→ltb _ _ q) (Reads-2 bs rest q)
    | no q ↦ rw (not_ltb _ _ p, not_ltb _ _ q) (Reads-3 bs rest h)
  ]
]

-- What the server writes for a text, read back by `setFromBuff` with other bytes behind it.
abbrev pub reread : Datum → Datum → Bytes → Result Parsed
reread d e rest = do bs ← to_string_packet d; set_from_buff e (bs ++ rest)

reread_lem :
    (s : List ℕ) (rest bs : Bytes)
    → lenenc_text (utf8 s) ≡ ok bs
    → reread (datum_of string lenenc (text s)) (datum string lenenc) rest
      ≡ set_from_buff (datum string lenenc) (bs ++ rest)
unfolding to_string_packet
reread_lem s rest bs e = rw e

-- A `string<lenenc>` of less than 2^24 bytes, whatever follows it, is read back as the UTF-8 bytes
-- of the text, and what follows it is left.
string_lenenc_round_trip :
    (s : List ℕ) (rest : Bytes)
    → length (utf8 s) < 16777216
    → reread (datum_of string lenenc (text s)) (datum string lenenc) rest
      ≡ ok (datum_of string lenenc (raw (utf8 s)), rest)
string_lenenc_round_trip s rest h =
    reread_lem s rest (protocol_string (utf8 s)) (lenenc_text-protocol_string (utf8 s) h)
    ∙ set_from_buff-protocol_string (utf8 s) rest h

-- The length of the `bytes` that a reader has returned.
abbrev read_length : Result Parsed → ℕ
read_length (ok (d, rest)) = elim d.value [ raw bs ↦ length bs | _ ↦ 0 ]
read_length (err e) = 0

-- Behind the three-byte marker the reader takes less than 2^24 bytes.
read_length_lt :
    (n : ℕ) (more : Bytes)
    → read_length (set_from_buff (datum string lenenc) (three_byte_enc ∷ (le_bytes 8 n ++ more)))
      < 16777216
unfolding set_from_buff
read_length_lt n more =
    let buff : Bytes = three_byte_enc ∷ (le_bytes 8 n ++ more) in
    let size = from_le (take 3 (le_bytes 8 n) ++ replicate 5 0) in
    omega (arith, length-slice-le 4 (size + 4) buff)

-- A text of 2^24 bytes or more is written behind the marker of a three-byte length with eight bytes
-- of length, and never read back.
string_lenenc_long :
    (s : List ℕ) (rest : Bytes)
    → 16777216 ≤ length (utf8 s)
    → length (utf8 s) < 2 ^ 64
    → reread (datum_of string lenenc (text s)) (datum string lenenc) rest
      ≢ ok (datum_of string lenenc (raw (utf8 s)), rest)
unfolding set_from_buff
string_lenenc_long s rest l h e =
    let w =
      reread_lem s rest (three_byte_enc ∷ (le_bytes 8 (length (utf8 s)) ++ utf8 s))
        (lenenc_text_8 (utf8 s) l h) in
    let k = ap read_length (sym w ∙ e) in
    let b = read_length_lt (length (utf8 s)) (utf8 s ++ rest) in omega arith
