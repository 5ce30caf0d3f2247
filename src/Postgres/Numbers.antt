-- ===== src/Postgres/Numbers.antt =====
-- `struct` in network order: '!h' is 2 bytes signed, '!i' 4 bytes signed, the highest byte first.
use mindsdb.Common.{
  ℕ, ◌+◌, ◌-◌, ◌*◌, ◌/◌, ◌%◌, ◌<◌, ◌≡◌, Bool, [], ◌∷◌, arith, ltb, if◌then◌else◌, Bytes, ℤ, pos,
  negsuc, Result, ok, err, struct_error,
}

-- `negsuc n` is -(n + 1), in two's complement
abbrev pub wrap : ℕ → ℤ → ℕ
wrap max (pos n) = n
wrap max (negsuc n) = max - n

abbrev pub unwrap : ℕ → ℕ → ℤ
unwrap max v = if ltb (v + v) max then pos v else negsuc (max - v)

abbrev pub be16 : ℕ → Bytes
be16 v = (v / 256 % 256) ∷ (v % 256) ∷ []

abbrev pub be32 : ℕ → Bytes
be32 v = (v / 16777216 % 256) ∷ (v / 65536 % 256) ∷ (v / 256 % 256) ∷ (v % 256) ∷ []

-- whether a number is in the range of the format
abbrev pub fits : ℕ → ℤ → Bool
fits half (pos n) = ltb n half
fits half (negsuc n) = ltb n half

-- `struct.pack('!h', v)`
unfoldable pub pack_h : ℤ → Result Bytes
pack_h v = if fits 32768 v then ok (be16 (wrap 65535 v)) else err struct_error

-- `struct.pack('!i', v)`
unfoldable pub pack_i : ℤ → Result Bytes
pack_i v = if fits 2147483648 v then ok (be32 (wrap 4294967295 v)) else err struct_error

-- `struct.unpack('!h', data)[0]`, which wants two bytes
unfoldable pub unpack_h : Bytes → Result ℤ
unpack_h (a ∷ b ∷ []) = ok (unwrap 65535 (a * 256 + b))
unpack_h _ = err struct_error

-- `struct.unpack('!i', data)[0]`, which wants four bytes
unfoldable pub unpack_i : Bytes → Result ℤ
unpack_i (a ∷ b ∷ c ∷ d ∷ []) = ok (unwrap 4294967295 (a * 16777216 + (b * 65536 + (c * 256 + d))))
unpack_i _ = err struct_error

-- The numbers of the two formats.
abbrev pub Is16 : ℤ → Type 0
Is16 (pos n) = n < 32768
Is16 (negsuc n) = n < 32768

abbrev pub Is32 : ℤ → Type 0
Is32 (pos n) = n < 2147483648
Is32 (negsuc n) = n < 2147483648

pub pack_h_lem : (v : ℤ) → Is16 v → pack_h v ≡ ok (be16 (wrap 65535 v))
unfolding pack_h
pack_h_lem (pos n) h = ground arith
pack_h_lem (negsuc n) h = ground arith

pub pack_i_lem : (v : ℤ) → Is32 v → pack_i v ≡ ok (be32 (wrap 4294967295 v))
unfolding pack_i
pack_i_lem (pos n) h = ground arith
pack_i_lem (negsuc n) h = ground arith

pub unpack_h-be16 : (v : ℤ) → Is16 v → unpack_h (be16 (wrap 65535 v)) ≡ ok v
unfolding unpack_h
unpack_h-be16 (pos n) h = ground arith
unpack_h-be16 (negsuc n) h = ground arith

pub unpack_i-be32 : (v : ℤ) → Is32 v → unpack_i (be32 (wrap 4294967295 v)) ≡ ok v
unfolding unpack_i
unpack_i-be32 (pos n) h = ground arith
unpack_i-be32 (negsuc n) h = ground arith
