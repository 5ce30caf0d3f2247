-- ===== src/Wire/Datum/Sizes.antt =====
-- mysql_datum.py: what `lenencInt` and the length of a 'string<lenenc>' take on the wire.
use native.Mathlib.Nat.{pow-suc}
use mindsdb.Common.{
  ℕ, zero, suc, ◌+◌, ◌/◌, ◌^◌, ◌≤◌, ◌<◌, ◌≡◌, [], ◌∷◌, ◌++◌, arith, length, Bytes, le_bytes, ok,
}
use mindsdb.Wire.Datum.{
  two_byte_enc, three_byte_enc, pack_i, pack_q, byte_count, lenenc_ℕ, lenenc_text,
}

byte_count-le : (k fuel n : ℕ) → n ≤ 256 ^ k → byte_count fuel n ≤ k
unfolding byte_count
byte_count-le k zero n h = omega arith
byte_count-le zero (suc fuel) n h = ground arith
byte_count-le (suc k) (suc fuel) n h =
    let ih = byte_count-le k fuel ((n + 255) / 256) (omega (arith, pow-suc 256 k)) in ground arith

pow_pos : (k : ℕ) → 0 < 256 ^ k
pow_pos zero = omega arith
pow_pos (suc k) = omega (arith, pow-suc 256 k, pow_pos k)

byte_count-lt : (k fuel n : ℕ) → k < fuel → 256 ^ k < n → k < byte_count fuel n
unfolding byte_count
byte_count-lt k zero n l h = absurd (omega arith)
byte_count-lt zero (suc fuel) n l h = ground arith
byte_count-lt (suc k) (suc fuel) n l h =
    let ih = byte_count-lt k fuel ((n + 255) / 256) (omega arith) (omega (arith, pow-suc 256 k)) in
    let big : 1 < n = omega (arith, pow-suc 256 k, pow_pos k) in ground arith

-- How the length `n` of a text is written: in one byte, in two, in three, or in eight.
module _ (n : ℕ) where
  byte_count_1 : 1 ≤ n → n < 256 → byte_count 9 (n + 1) ≡ 1
  byte_count_1 l h = omega (
    arith,
    byte_count-lt 0 9 (n + 1) (omega arith) (omega arith),
    byte_count-le 1 9 (n + 1) (omega arith),
  )

  byte_count_2 : n < 65536 → byte_count 9 (n + 1) ≤ 2
  byte_count_2 h = byte_count-le 2 9 (n + 1) (omega arith)

  byte_count_3 : 65536 ≤ n → n < 16777216 → byte_count 9 (n + 1) ≡ 3
  byte_count_3 l h = omega (
    arith,
    byte_count-lt 2 9 (n + 1) (omega arith) (omega arith),
    byte_count-le 3 9 (n + 1) (omega arith),
  )

  byte_count_8 : 16777216 ≤ n → n < 2 ^ 64 → (3 < byte_count 9 (n + 1)) × (byte_count 9 (n + 1) ≤ 8)
  byte_count_8 l h = (
    byte_count-lt 3 9 (n + 1) (omega arith) (omega arith),
    byte_count-le 8 9 (n + 1) (omega arith),
  )

  pub lenenc_ℕ_1 : n < 251 → lenenc_ℕ n ≡ ok (n ∷ [])
  unfolding lenenc_ℕ
  lenenc_ℕ_1 h = ground (arith, byte_count_1)

  pub lenenc_ℕ_2 : 251 ≤ n → n < 65536 → lenenc_ℕ n ≡ ok (two_byte_enc ∷ le_bytes 2 n)
  unfolding lenenc_ℕ
  lenenc_ℕ_2 l h =
      let b = byte_count_2 h in
      let c = byte_count-lt 0 9 (n + 1) (omega arith) (omega arith) in ground arith

  pub lenenc_ℕ_3 : 65536 ≤ n → n < 16777216 → lenenc_ℕ n ≡ ok (three_byte_enc ∷ le_bytes 3 n)
  unfolding lenenc_ℕ
  lenenc_ℕ_3 l h = ground (arith, byte_count_3)

  pub lenenc_ℕ_8 : 16777216 ≤ n → n < 2 ^ 64 → lenenc_ℕ n ≡ ok (three_byte_enc ∷ le_bytes 8 n)
  unfolding lenenc_ℕ
  lenenc_ℕ_8 l h = ground (arith, byte_count_8)

module _ (bs : Bytes) where
  pub lenenc_text_1 : length bs < 251 → lenenc_text bs ≡ ok (length bs ∷ bs)
  unfolding lenenc_text
  lenenc_text_1 h = ground (arith, byte_count_1 (length bs))

  pub lenenc_text_2 :
      251 ≤ length bs
      → length bs < 65536
      → lenenc_text bs ≡ ok (two_byte_enc ∷ (le_bytes 2 (length bs) ++ bs))
  unfolding lenenc_text pack_i
  lenenc_text_2 l h = ground (arith, byte_count_2 (length bs))

  pub lenenc_text_3 :
      65536 ≤ length bs
      → length bs < 16777216
      → lenenc_text bs ≡ ok (three_byte_enc ∷ (le_bytes 3 (length bs) ++ bs))
  unfolding lenenc_text pack_i
  lenenc_text_3 l h = ground (arith, byte_count_3 (length bs))

  pub lenenc_text_8 :
      16777216 ≤ length bs
      → length bs < 2 ^ 64
      → lenenc_text bs ≡ ok (three_byte_enc ∷ (le_bytes 8 (length bs) ++ bs))
  unfolding lenenc_text pack_q
  lenenc_text_8 l h = ground (arith, byte_count_8 (length bs))
