-- ===== src/Wire/Datum/Fixed.antt =====
-- mysql_datum.py: fixed-width integers, texts that end with a zero or with the packet, and the
-- length-encoded integers.
use mindsdb.Common.{
  ℕ, ◌+◌, ◌-◌, ◌^◌, ◌≤◌, ◌<◌, ◌≡◌, ◌↔◌, refl, sym, ap, false, some, List, [], ◌∷◌, ◌++◌,
  append_assoc, arith, ltb, length, take, drop, Bytes, le_bytes, take-append, drop-append,
  length-take, length-le_bytes, All, pos, Result, ok, err, struct_error, take-le_bytes, take_all,
  lt→ltb, length-take,
}
use native.Mathlib.Nat.{pow-le-pow_right}
use native.Mathlib.Numerals.{add-one}
use native.Mathlib.Decide.{dec_lt}
use mindsdb.Wire.Text.{
  utf8, utf8-IsNonzero, IsNonzero, IsAscii, utf8_of_IsAscii, IsAscii-of_length-utf8,
}
use mindsdb.Wire.Datum.{
  int, string, lenenc, eof, nul, fixed, number, raw, text, datum, datum_of, pack_q,
  to_string_packet, set_from_buff, find_nul,
}
use mindsdb.Wire.Datum.Sizes.{lenenc_ℕ_1, lenenc_ℕ_2, lenenc_ℕ_3, lenenc_ℕ_8}
use mindsdb.Wire.Datum.RoundTrip.{reread, length-padded, from_le-padded, lenenc_span_small}

-- Behind `take n (le_bytes 8 v)` for `n` at most 8.
take-le_bytes_8 : (n v : ℕ) → n ≤ 8 → take n (le_bytes 8 v) ≡ le_bytes n v
take-le_bytes_8 n v h = let e : n + (8 - n) ≡ 8 = omega arith in rw e at (take-le_bytes n (8 - n) v)

not_wide : (n : ℕ) → n ≤ 8 → ltb 8 n ≡ false
not_wide n h = ground arith

below_64 : (n v : ℕ) → n ≤ 8 → v < 256 ^ n → v < 2 ^ 64
below_64 n v h f = let le : 256 ^ n ≤ 256 ^ 8 = pow-le-pow_right (omega arith) h in omega arith

-- `setFromBuff` on the little-endian bytes of a number.
pub set_from_buff-le_bytes :
    (n v : ℕ) (rest : Bytes)
    → n ≤ 8
    → v < 256 ^ n
    → set_from_buff (datum int (fixed n)) (le_bytes n v ++ rest)
      ≡ ok (datum_of int (fixed n) (number (pos v)), rest)
unfolding set_from_buff
set_from_buff-le_bytes n v rest h f =
    rw (take-append (le_bytes n v) rest n (sym (length-le_bytes n v))) (
      rw (drop-append (le_bytes n v) rest n (sym (length-le_bytes n v)))
        (rw (not_wide n h, length-padded n v h, from_le-padded n v h f)))

pub to_string_packet-le_bytes :
    (n v : ℕ)
    → n ≤ 8
    → v < 256 ^ n
    → to_string_packet (datum_of int (fixed n) (number (pos v))) ≡ ok (le_bytes n v)
unfolding to_string_packet
to_string_packet-le_bytes n v h f =
    let packed : pack_q v ≡ ok (le_bytes 8 v) =
      unfold pack_q in rw (lt→ltb _ _ (below_64 n v h f)) in
    rw (packed, take-le_bytes_8 n v h)

-- An `int<n>` of at most eight bytes that holds the number is read back as that number, and what
-- follows it is left.
int_fixed_round_trip :
    (n v : ℕ) (rest : Bytes)
    → n ≤ 8
    → v < 256 ^ n
    → reread (datum_of int (fixed n) (number (pos v))) (datum int (fixed n)) rest
      ≡ ok (datum_of int (fixed n) (number (pos v)), rest)
int_fixed_round_trip n v rest h f =
    rw (to_string_packet-le_bytes n v h f) (set_from_buff-le_bytes n v rest h f)

find_nul-append :
    (bs rest : Bytes) → All IsNonzero bs → find_nul (bs ++ 0 ∷ rest) ≡ some (length bs)
unfolding find_nul
find_nul-append [] rest h = refl
find_nul-append (b ∷ bs) rest (hb, hs) = ground (arith, find_nul-append bs rest hs)

drop_nul : (bs rest : Bytes) → drop (length bs + 1) (bs ++ 0 ∷ rest) ≡ rest
drop_nul [] rest = refl
drop_nul (b ∷ bs) rest = rw add-one (rw add-one at (drop_nul bs rest))

-- A `string<NUL>` without NUL characters is read back as the UTF-8 bytes of the text, and what
-- follows its zero is left.
string_nul_round_trip :
    (s : List ℕ) (rest : Bytes)
    → All IsNonzero s
    → reread (datum_of string nul (text s)) (datum string nul) rest
      ≡ ok (datum_of string nul (raw (utf8 s)), rest)
unfolding to_string_packet set_from_buff
string_nul_round_trip s rest h = rw append_assoc (
    rw (find_nul-append (utf8 s) rest (utf8-IsNonzero s h))
      (rw (take-append (utf8 s) (0 ∷ rest) (length (utf8 s)) refl, drop_nul (utf8 s) rest)))

-- A `string<NUL>` is read to its zero.
pub set_from_buff-nul :
    (bs rest : Bytes)
    → All IsNonzero bs
    → set_from_buff (datum string nul) (bs ++ 0 ∷ rest) ≡ ok (datum_of string nul (raw bs), rest)
unfolding set_from_buff
set_from_buff-nul bs rest h =
    rw (find_nul-append bs rest h)
      (rw (take-append bs (0 ∷ rest) (length bs) refl, drop_nul bs rest) refl)

abbrev ok_length : Result Bytes → ℕ
ok_length (ok bs) = length bs
ok_length (err e) = 0

-- A `string<EOF>` is written as its UTF-8 bytes exactly when the text is ASCII; any other text
-- loses bytes at its end.
pub string_eof_iff :
    (s : List ℕ) → (to_string_packet (datum_of string eof (text s)) ≡ ok (utf8 s)) ↔ All IsAscii s
unfolding to_string_packet
string_eof_iff s = (
  λ e. IsAscii-of_length-utf8 s (omega (arith, ap ok_length e, length-take (length s) (utf8 s))),
  λ h. rw (utf8_of_IsAscii s h) (ap ok (take_all s (length s) (omega arith))),
)

-- Whatever an `int<lenenc>` below 2^64 is written as, and whatever follows it, `setFromBuff` raises
-- `struct.error` on it.
int_lenenc_unreadable :
    (v : ℕ) (rest : Bytes)
    → v < 2 ^ 64
    → reread (datum_of int lenenc (number (pos v))) (datum int lenenc) rest ≡ err struct_error
unfolding to_string_packet set_from_buff
int_lenenc_unreadable v rest h = elim (dec_lt v 251) [
  | yes p ↦ rw (lenenc_ℕ_1 v p, lenenc_span_small v p)
  | no p ↦ elim (dec_lt v 65536) [
    | yes q ↦ rw (lenenc_ℕ_2 v (omega arith) q)
    | no q ↦ elim (dec_lt v 16777216) [
      | yes r ↦ rw (lenenc_ℕ_3 v (omega arith) r)
      | no r ↦ rw (lenenc_ℕ_8 v (omega arith) h)
    ]
  ]
]
