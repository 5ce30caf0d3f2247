-- ===== src/Postgres/Reader/Shrinks.antt =====
-- `PostgresPacketReader`: no method puts anything back into the buffer.
use mindsdb.Common.{
  ℕ, zero, suc, ◌≤◌, ◌≡◌, refl, [], ◌∷◌, arith, length, length-drop, Bytes, ℤ, pos, negsuc, Result,
  ok, err, ◌==◌, if◌then◌else◌, if◌then◌else◌,
}
use mindsdb.Postgres.Reader.{
  Reader, resume, ◌>>=◌, return, buffer_read, nonempty, prepend, read_bytes, read_byte, read_string,
  read_int16, read_int32, repeat, unpacked,
}

-- What `read` leaves is no longer than the buffer.
abbrev pub Shrinks : {A : Type 0} → Reader A → Type 0
Shrinks {A} read =
    (buffer rest : Bytes) (a : A) → read buffer ≡ ok (a, rest) → length rest ≤ length buffer

pub return-Shrinks : {A : Type 0} (a : A) → Shrinks (return a)
return-Shrinks a buffer rest b e = ground arith

resume-le :
    {A B : Type 0} (f : A → Reader B) (r : Result (A × Bytes)) (n : ℕ)
    → ((a : A) (rest : Bytes) → r ≡ ok (a, rest) → length rest ≤ n)
    → ((a : A) → Shrinks (f a))
    → (rest : Bytes) (b : B) → resume f r ≡ ok (b, rest)
    → length rest ≤ n
resume-le f (ok (a, mid)) n hr hf rest b e =
    let first = hr a mid refl in let second = hf a mid rest b e in omega arith
resume-le f (err x) n hr hf rest b e = ground arith

pub >>=-Shrinks :
    {A B : Type 0} (m : Reader A) (f : A → Reader B)
    → Shrinks m
    → ((a : A) → Shrinks (f a))
    → Shrinks (m >>= f)
>>=-Shrinks m f hm hf buffer rest b e =
    resume-le f (m buffer) (length buffer) (λ a mid q. hm buffer mid a q) hf rest b e

buffer_read-Shrinks : (n : ℤ) → Shrinks (buffer_read n)
unfolding buffer_read
buffer_read-Shrinks (pos n) buffer rest a e = ground (arith, length-drop n buffer)
buffer_read-Shrinks (negsuc zero) buffer rest a e = ground arith
buffer_read-Shrinks (negsuc (suc n)) buffer rest a e = ground arith

nonempty-Shrinks : (bs : Bytes) → Shrinks (nonempty bs)
unfolding nonempty
nonempty-Shrinks [] buffer rest a e = ground arith
nonempty-Shrinks (b ∷ bs) buffer rest a e = ground arith

pub read_bytes-Shrinks : (n : ℤ) → Shrinks (read_bytes n)
unfolding read_bytes
read_bytes-Shrinks n = >>=-Shrinks (buffer_read n) nonempty (buffer_read-Shrinks n) nonempty-Shrinks

pub unpacked-Shrinks : {A : Type 0} (r : Result A) → Shrinks (unpacked r)
unpacked-Shrinks (ok v) buffer rest a e = ground arith
unpacked-Shrinks (err x) buffer rest a e = ground arith

pub read_int16-Shrinks : Shrinks read_int16
unfolding read_int16
read_int16-Shrinks =
    >>=-Shrinks (read_bytes (pos 2)) _ (read_bytes-Shrinks (pos 2)) (λ b. unpacked-Shrinks _)

pub read_int32-Shrinks : Shrinks read_int32
unfolding read_int32
read_int32-Shrinks =
    >>=-Shrinks (read_bytes (pos 4)) _ (read_bytes-Shrinks (pos 4)) (λ b. unpacked-Shrinks _)

pub read_byte-Shrinks : Shrinks read_byte
unfolding read_byte
read_byte-Shrinks [] rest a e = ground arith
read_byte-Shrinks (b ∷ buffer) rest a e = ground arith

prepended_le :
    (b : ℕ) (buffer : Bytes) (r : Result (Bytes × Bytes))
    → ((s left : Bytes) → r ≡ ok (s, left) → length left ≤ length buffer)
    → (rest a : Bytes) → (if b == 0 then ok ([], buffer) else prepend b r) ≡ ok (a, rest)
    → length rest ≤ suc (length buffer)
prepended_le b buffer (ok (s, left)) h rest a e = ground (arith, h s left refl)
prepended_le b buffer (err x) h rest a e = ground arith

pub read_string-Shrinks : Shrinks read_string
unfolding read_string
read_string-Shrinks [] rest a e = ground arith
read_string-Shrinks (b ∷ buffer) rest a e =
    prepended_le b buffer (read_string buffer) (λ s left q. read_string-Shrinks buffer left s q)
      rest a e

pub repeat-Shrinks : {A : Type 0} (n : ℕ) (read : Reader A) → Shrinks read → Shrinks (repeat n read)
unfolding repeat
repeat-Shrinks zero read h = return-Shrinks []
repeat-Shrinks (suc n) read h = >>=-Shrinks read _ h (λ a.
    >>=-Shrinks (repeat n read) _ (repeat-Shrinks n read h) (λ rest. return-Shrinks (a ∷ rest)))
