-- ===== src/Postgres/Reader.antt =====
-- `PostgresPacketReader` of postgres_packets/postgres_packets.py: what it reads from the connection's
-- buffer. The buffer is what the client sends until it closes: `buffer.read(n)` waits for `n` bytes or
-- the end.
pub mod Steps
pub mod Shrinks
use mindsdb.Common.{
  ℕ, zero, suc, ◌≡◌, refl, Bool, List, [], ◌∷◌, ◌++◌, arith, ◌==◌, if◌then◌else◌, length, take,
  drop, Bytes, ℤ, pos, negsuc, Result, ok, err, value_error, empty_data,
}
use mindsdb.Postgres.Numbers.{unpack_h, unpack_i}

-- A method of the reader: it returns its value and leaves the rest of the buffer.
abbrev pub Reader : Type 0 → Type 0
Reader A = Bytes → Result (A × Bytes)

abbrev pub resume : {A B : Type 0} → (A → Reader B) → Result (A × Bytes) → Result (B × Bytes)
resume f (ok (a, rest)) = f a rest
resume f (err e) = err e

infixl 5 ◌>>=◌
abbrev pub ◌>>=◌ : {A B : Type 0} → Reader A → (A → Reader B) → Reader B
◌>>=◌ m f buffer = resume f (m buffer)

abbrev pub return : {A : Type 0} → A → Reader A
return a buffer = ok (a, buffer)

-- `buffer.read(n)`: -1 reads to the end, other negative numbers raise
buffer_read : ℤ → Reader Bytes
buffer_read (pos n) buffer = ok (take n buffer, drop n buffer)
buffer_read (negsuc zero) buffer = ok (buffer, [])
buffer_read (negsuc (suc n)) buffer = err value_error

-- `if not data: raise`
nonempty : Bytes → Reader Bytes
nonempty [] buffer = err empty_data
nonempty (b ∷ bs) buffer = ok (b ∷ bs, buffer)

unfoldable pub read_bytes : ℤ → Reader Bytes
unfolding buffer_read nonempty
read_bytes n = do received ← buffer_read n; nonempty received

-- `read_bytes(1)`, as the byte in it
unfoldable pub read_byte : Reader ℕ
read_byte [] = err empty_data
read_byte (b ∷ buffer) = ok (b, buffer)

-- `result + b`, from the left
abbrev prepend : ℕ → Result (Bytes × Bytes) → Result (Bytes × Bytes)
prepend b (ok (s, rest)) = ok (b ∷ s, rest)
prepend b (err e) = err e

-- the bytes before the next zero, which is left out; each is read by `read_byte`
unfoldable pub read_string : Reader Bytes
read_string [] = err empty_data
read_string (b ∷ buffer) =
    let rest = prepend b (read_string buffer) in if b == 0 then ok ([], buffer) else rest

-- `struct.unpack` of what was read
abbrev pub unpacked : {A : Type 0} → Result A → Reader A
unpacked (ok v) buffer = ok (v, buffer)
unpacked (err e) buffer = err e

unfoldable pub read_int16 : Reader ℤ
unfolding read_bytes
read_int16 = do received ← read_bytes (pos 2); unpacked (unpack_h received)

unfoldable pub read_int32 : Reader ℤ
unfolding read_bytes
read_int32 = do received ← read_bytes (pos 4); unpacked (unpack_i received)

-- `for _ in range(n): ...append(read())`
unfoldable pub repeat : {A : Type 0} → ℕ → Reader A → Reader (List A)
repeat zero read = return []
repeat (suc n) read = do a ← read; rest ← repeat n read; return (a ∷ rest)

-- `range(n)` of a negative number is empty
abbrev pub count : ℤ → ℕ
count (pos n) = n
count (negsuc n) = 0
