-- ===== src/Wire/Rows/NullBitmap.antt =====
-- binary_resultset_row_package.py: which bits of the null bitmap are set.
use native.Mathlib.Nat.{pow-suc, pow-le-pow_right}
use native.Mathlib.Decide.{dec_lt}
use mindsdb.Common.{
  ℕ, suc, ◌+◌, ◌-◌, ◌*◌, ◌/◌, ◌%◌, ◌^◌, ◌≤◌, ◌<◌, ◌≡◌, Bool, true, false, ◌&&◌, none, some, List,
  [], ◌∷◌, arith, ltb, ◌==◌, if◌then◌else◌, lt→ltb, not_ltb, Bool-cases, ◌∙◌, inl, inr, length,
  from_le, IsByte, All,
}
use mindsdb.Wire.Rows.{Cell, null_count, null_bit, null_bytes, null_bitmap}

-- The number whose bit `i` is set exactly when cell `i` is NULL.
abbrev pub null_number : List Cell → ℕ
null_number [] = 0
null_number (c ∷ cs) = null_count c + 2 * null_number cs

-- how many bits of the last byte stand before column `i`
place : ℕ → ℕ
place i = if ltb 0 i && (i + 2) % 8 == 0 then 8 else (i + 2) % 8

null_bit_lem : (i : ℕ) → null_bit i ≡ 2 ^ ((i + 2) % 8)
unfolding null_bit
null_bit_lem i = elim (dec_lt i 6) [
  | yes p ↦ rw (lt→ltb i 6 p)
  | no p ↦ let e : (i - 6) % 8 ≡ (i + 2) % 8 = omega arith in rw (not_ltb i 6 p, e)
]

-- whether column `i` begins a byte
abbrev begins : ℕ → Bool
begins i = ltb 0 i && (i + 2) % 8 == 0

place_at : (i : ℕ) → begins i ≡ false → place i ≡ (i + 2) % 8
unfolding place
place_at i e = rw e

place_full : (i : ℕ) → begins i ≡ true → place i ≡ 8
unfolding place
place_full i e = rw e

place_next : (i : ℕ) → begins i ≡ false → place (i + 1) ≡ suc ((i + 2) % 8)
unfolding place
place_next i e = ground arith

place_first : (i : ℕ) → begins i ≡ true → (place (i + 1) ≡ 1) × ((i + 2) % 8 ≡ 0)
unfolding place
place_first i e = ground arith

from_le-null_bytes :
    (i byte : ℕ) (cs : List Cell)
    → from_le (null_bytes i byte cs) ≡ byte + 2 ^ place i * null_number cs
unfolding null_bytes
from_le-null_bytes i byte [] = omega arith
from_le-null_bytes i byte (c ∷ cs) = elim (Bool-cases (begins i)) [
  | inl e ↦
      let (one, start) = place_first i e in
      rw
        (
          e,
          place_full i e,
          from_le-null_bytes (i + 1) (null_count c * null_bit i) cs,
          null_bit_lem i,
          one,
          start,
        )
        (omega arith)
  | inr e ↦
      rw
        (
          e,
          place_at i e,
          from_le-null_bytes (i + 1) (byte + null_count c * null_bit i) cs,
          null_bit_lem i,
          place_next i e,
          pow-suc,
        )
        (omega arith)
]

length-null_bytes :
    (i byte : ℕ) (cs : List Cell)
    → length (null_bytes i byte cs) + (i + 1) / 8 ≡ (i + length cs + 1) / 8 + 1
unfolding null_bytes
length-null_bytes i byte [] = omega arith
length-null_bytes i byte (c ∷ cs) = ground (
  arith,
  length-null_bytes (i + 1) (null_count c * null_bit i) cs,
  length-null_bytes (i + 1) (byte + null_count c * null_bit i) cs,
)

null_count_lt : (c : Cell) → null_count c * 1 < 2
null_count_lt none = omega arith
null_count_lt (some s) = omega arith

null_sum : (c : Cell) (byte p : ℕ) → byte < p → byte + null_count c * p < p * 2
null_sum none byte p h = omega arith
null_sum (some s) byte p h = omega arith

place-le : (i : ℕ) → 2 ^ place i ≤ 256
unfolding place
place-le i = pow-le-pow_right {n = 2} (omega arith) {j = 8} (ground arith)

null_bytes-IsByte :
    (i byte : ℕ) (cs : List Cell) → byte < 2 ^ place i → All IsByte (null_bytes i byte cs)
unfolding null_bytes
null_bytes-IsByte i byte [] h = (omega (arith, place-le i), tt)
null_bytes-IsByte i byte (c ∷ cs) h = elim (Bool-cases (begins i)) [
  | inl e ↦
      let (one, start) = place_first i e in
      rw e (
        omega (arith, place-le i),
        null_bytes-IsByte (i + 1) (null_count c * null_bit i) cs
            (rw (one, null_bit_lem i, start) (null_count_lt c)),
      )
  | inr e ↦ rw e (
      null_bytes-IsByte (i + 1) (byte + null_count c * null_bit i) cs
        (rw (null_bit_lem i, place_next i e, pow-suc) (null_sum c byte _ (rw (place_at i e) at h))))
]

-- The null bitmap of a row has the bit `i + 2` set exactly when cell `i` is NULL, is of the length
-- that the protocol asks for, and its entries are bytes.
pub null_bitmap_lem :
    (cs : List Cell)
    → (from_le (null_bitmap cs) ≡ 4 * null_number cs)
      × (length (null_bitmap cs) ≡ (length cs + 9) / 8)
      × All IsByte (null_bitmap cs)
unfolding null_bitmap place
null_bitmap_lem cs = (
  from_le-null_bytes 0 0 cs ∙ omega arith,
  omega (arith, length-null_bytes 0 0 cs),
  null_bytes-IsByte 0 0 cs (omega arith),
)
