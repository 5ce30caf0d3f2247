-- ===== src/Wire/Text.antt =====
-- Python's `str`, as a list of code points without surrogates, and what the proxy asks of it:
-- `encode('utf8')`, whether `bytes.decode()` succeeds, and `str(n)`.
pub mod Decode
use mindsdb.Common.{
  ℕ, zero, suc, ◌+◌, ◌/◌, ◌%◌, ◌≤◌, ◌<◌, ◌≡◌, refl, Bool, true, false, ◌&&◌, List, [], ◌∷◌, ◌++◌,
  arith, ltb, leb, ◌==◌, if◌then◌else◌, Bytes, length, length-append, All, All-append, ℤ, pos,
  negsuc,
}

-- `str.encode('utf8')`, one character
utf8_char : ℕ → Bytes
utf8_char c =
    if ltb c 128
    then c ∷ []
    else if ltb c 2048
    then (192 + c / 64) ∷ (128 + c % 64) ∷ []
    else if ltb c 65536
    then (224 + c / 4096) ∷ (128 + c / 64 % 64) ∷ (128 + c % 64) ∷ []
    else (240 + c / 262144) ∷ (128 + c / 4096 % 64) ∷ (128 + c / 64 % 64) ∷ (128 + c % 64) ∷ []

unfoldable pub utf8 : List ℕ → Bytes
unfolding utf8_char
utf8 [] = []
utf8 (c ∷ s) = utf8_char c ++ utf8 s

-- What a first byte asks for: how many bytes follow it, and the range of the next one.
pub record Lead : Type 0 where
  pub count : ℕ
  pub low : ℕ
  pub high : ℕ
  pub fits : Bool

unfoldable pub lead : ℕ → Lead
lead b =
    if ltb b 128
    then record { count = 0; low = 128; high = 191; fits = true }
    else if leb 194 b && leb b 223
    then record { count = 1; low = 128; high = 191; fits = true }
    else if b == 224
    then record { count = 2; low = 160; high = 191; fits = true }
    else if b == 237
    then record { count = 2; low = 128; high = 159; fits = true }
    else if leb 225 b && leb b 239
    then record { count = 2; low = 128; high = 191; fits = true }
    else if b == 240
    then record { count = 3; low = 144; high = 191; fits = true }
    else if leb 241 b && leb b 243
    then record { count = 3; low = 128; high = 191; fits = true }
    else if b == 244
    then record { count = 3; low = 128; high = 143; fits = true }
    else record { count = 0; low = 0; high = 0; fits = false }

decodes_from : ℕ → ℕ → ℕ → Bytes → Bool
unfolding lead
decodes_from n low high [] = n == 0
decodes_from zero low high (b ∷ bs) =
    let l = lead b in l.fits && decodes_from l.count l.low l.high bs
decodes_from (suc n) low high (b ∷ bs) = leb low b && leb b high && decodes_from n 128 191 bs

-- whether `bytes.decode()` succeeds
unfoldable pub decodes : Bytes → Bool
unfolding decodes_from
decodes bs = decodes_from 0 128 191 bs

-- `str(n)`; `n` rounds are more than the digits
decimal_loop : ℕ → ℕ → List ℕ → List ℕ
decimal_loop zero n acc = acc
decimal_loop (suc fuel) n acc =
    let rest = decimal_loop fuel (n / 10) ((b'0' + n % 10) ∷ acc) in
    if ltb n 10 then (b'0' + n) ∷ acc else rest

unfoldable pub decimal : ℤ → List ℕ
unfolding decimal_loop
decimal (pos n) = decimal_loop (suc n) n []
decimal (negsuc n) = b'-' ∷ decimal_loop (suc (suc n)) (suc n) []

-- A character that is not NUL, and one that is ASCII.
abbrev pub IsAscii : ℕ → Type 0
IsAscii c = c < 128

abbrev pub IsNonzero : ℕ → Type 0
IsNonzero c = 0 < c

utf8_char_of_IsAscii : (c : ℕ) → IsAscii c → utf8_char c ≡ c ∷ []
unfolding utf8_char
utf8_char_of_IsAscii c h = ground arith

pub utf8_of_IsAscii : (s : List ℕ) → All IsAscii s → utf8 s ≡ s
unfolding utf8
utf8_of_IsAscii [] h = refl
utf8_of_IsAscii (c ∷ s) (hc, hs) = rw (utf8_char_of_IsAscii c hc, utf8_of_IsAscii s hs)

length-utf8_char : (c : ℕ) → (1 ≤ length (utf8_char c)) × (128 ≤ c → 2 ≤ length (utf8_char c))
unfolding utf8_char
length-utf8_char c = ground arith

-- A character takes at least one byte.
pub length-le-utf8 : (s : List ℕ) → length s ≤ length (utf8 s)
unfolding utf8
length-le-utf8 [] = omega arith
length-le-utf8 (c ∷ s) =
    omega (arith, length-append (utf8_char c) (utf8 s), length-utf8_char c, length-le-utf8 s)

-- Only in an ASCII text does each take exactly one.
pub IsAscii-of_length-utf8 : (s : List ℕ) → length (utf8 s) ≤ length s → All IsAscii s
unfolding utf8
IsAscii-of_length-utf8 [] h = tt
IsAscii-of_length-utf8 (c ∷ s) h =
    let k : 128 ≤ c → 2 ≤ length (utf8_char c) = (length-utf8_char c).1 in
    let e = length-append (utf8_char c) (utf8 s) in
    let m = length-le-utf8 s in
    let o = (length-utf8_char c).0 in (grind arith, IsAscii-of_length-utf8 s (omega arith))

utf8_char-IsNonzero : (c : ℕ) → IsNonzero c → All IsNonzero (utf8_char c)
unfolding utf8_char
utf8_char-IsNonzero c h = ground arith

-- No byte of a text without NUL is zero.
pub utf8-IsNonzero : (s : List ℕ) → All IsNonzero s → All IsNonzero (utf8 s)
unfolding utf8
utf8-IsNonzero [] h = tt
utf8-IsNonzero (c ∷ s) (hc, hs) =
    All-append IsNonzero (utf8_char c) (utf8 s) (utf8_char-IsNonzero c hc) (utf8-IsNonzero s hs)
