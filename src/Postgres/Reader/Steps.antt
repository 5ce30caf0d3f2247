-- ===== src/Postgres/Reader/Steps.antt =====
-- The formats of the protocol, and how the methods of `PostgresPacketReader` read them.
use mindsdb.Common.{
  ℕ, ◌<◌, ◌≡◌, refl, List, [], ◌∷◌, ◌++◌, arith, length, take-append, drop-append, All, Bytes, ℤ,
  pos, ok, append_assoc,
}
use mindsdb.Wire.Text.{IsNonzero}
use mindsdb.Postgres.Numbers.{be16, be32, wrap, Is16, Is32, unpack_h-be16, unpack_i-be32}
use mindsdb.Postgres.Reader.{
  Reader, ◌>>=◌, return, buffer_read, nonempty, read_bytes, read_string, read_int16, read_int32,
  repeat,
}

-- Int16, Int32, String, and a list behind its count
abbrev pub int16 : ℤ → Bytes
int16 v = be16 (wrap 65535 v)

abbrev pub int32 : ℤ → Bytes
int32 v = be32 (wrap 4294967295 v)

abbrev pub string : Bytes → Bytes
string bs = bs ++ 0 ∷ []

abbrev pub each {ℓ} : {A : Type ℓ} → (A → Bytes) → List A → Bytes
each f [] = []
each f (x ∷ xs) = f x ++ each f xs

abbrev pub counted {ℓ} : {A : Type ℓ} → (A → Bytes) → List A → Bytes
counted f xs = int16 (pos (length xs)) ++ each f xs

-- `read` takes `bytes` for `a` and leaves what follows.
abbrev pub Reads : {A : Type 0} → Reader A → Bytes → A → Type 0
Reads read bytes a = (rest : Bytes) → read (bytes ++ rest) ≡ ok (a, rest)

pub Reads-bind :
    {A B : Type 0} (m : Reader A) (f : A → Reader B) (p q : Bytes) (a : A) (b : B)
    → Reads m p a
    → Reads (f a) q b
    → Reads (m >>= f) (p ++ q) b
Reads-bind m f p q a b hm hf rest = rw (append_assoc p q rest, hm (q ++ rest)) (hf rest)

pub Reads-map :
    {A B : Type 0} (m : Reader A) (g : A → B) (p : Bytes) (a : A)
    → Reads m p a
    → Reads (m >>= λ x. return (g x)) p (g a)
Reads-map m g p a hm rest = rw (hm rest) refl

pub read_bytes-Reads :
    (bs : Bytes) (n : ℕ) → n ≡ length bs → 0 < n → Reads (read_bytes (pos n)) bs bs
unfolding read_bytes buffer_read nonempty
read_bytes-Reads [] n e h rest = absurd (omega arith)
read_bytes-Reads (b ∷ bs) n e h rest =
    rw (take-append (b ∷ bs) rest n e, drop-append (b ∷ bs) rest n e) refl

pub read_int16-Reads : (v : ℤ) → Is16 v → Reads read_int16 (int16 v) v
unfolding read_int16 read_bytes buffer_read nonempty
read_int16-Reads v h rest = rw (unpack_h-be16 v h) refl

pub read_int32-Reads : (v : ℤ) → Is32 v → Reads read_int32 (int32 v) v
unfolding read_int32 read_bytes buffer_read nonempty
read_int32-Reads v h rest = rw (unpack_i-be32 v h) refl

pub read_string-Reads : (bs : Bytes) → All IsNonzero bs → Reads read_string (string bs) bs
unfolding read_string
read_string-Reads [] h rest = refl
read_string-Reads (b ∷ bs) (hb, hs) rest = ground (arith, read_string-Reads bs hs rest)

module _ {A : Type 0} (read : Reader A) (f : A → Bytes) where
  pub repeat-Reads :
      (xs : List A)
      → All (λ x. Reads read (f x) x) xs
      → Reads (repeat (length xs) read) (each f xs) xs
  unfolding repeat
  repeat-Reads [] h = λ rest. refl
  repeat-Reads (x ∷ xs) (hx, hs) =
      Reads-bind read _ (f x) (each f xs) x (x ∷ xs) hx
        (Reads-map (repeat (length xs) read) (◌∷◌ x) (each f xs) xs (repeat-Reads xs hs))
