-- ===== src/Wire/Text/Decode.antt =====
-- `bytes.decode()` of UTF-8, and the trailing white space that the proxies strip.
use mindsdb.Common.{
  ℕ, zero, suc, ◌+◌, ◌-◌, ◌*◌, ◌/◌, ◌%◌, ◌≤◌, ◌<◌, ◌≡◌, refl, true, ◌&&◌, List, [], ◌∷◌, ◌++◌,
  arith, leb, ◌==◌, if◌then◌else◌, Bytes, All, Result, ok, err, unicode_error, ◌⊎◌, le→leb, ap, ◌∙◌,
}
use mindsdb.Wire.Text.{utf8, utf8_char, Lead, lead}

-- the bits of the character in its first byte
lead_bits : ℕ → ℕ → ℕ
lead_bits count b =
    if count == 0
    then b
    else if count == 1
    then b - 192
    else if count == 2
    then b - 224
    else b - 240

abbrev pub prepend : ℕ → Result (List ℕ) → Result (List ℕ)
prepend c (ok s) = ok (c ∷ s)
prepend c (err e) = err e

-- a character is complete when no byte of it is missing
abbrev complete : ℕ → ℕ → Result (List ℕ) → Result (List ℕ)
complete zero c next = prepend c next
complete (suc n) c next = next

-- `n` bytes are missing of a character whose bits so far are `bits`; the next one has a range
decode_from : ℕ → ℕ → ℕ → ℕ → Bytes → Result (List ℕ)
unfolding lead_bits
decode_from zero bits low high [] = ok []
decode_from (suc n) bits low high [] = err unicode_error
decode_from zero bits low high (b ∷ bs) =
    let l = lead b in
    let next = decode_from l.count (lead_bits l.count b) l.low l.high bs in
    let more = complete l.count b next in if l.fits then more else err unicode_error
decode_from (suc zero) bits low high (b ∷ bs) =
    let bits' = bits * 64 + (b - 128) in
    let next = prepend bits' (decode_from 0 bits' 128 191 bs) in
    if leb low b && leb b high then next else err unicode_error
decode_from (suc (suc n)) bits low high (b ∷ bs) =
    let next = decode_from (suc n) (bits * 64 + (b - 128)) 128 191 bs in
    if leb low b && leb b high then next else err unicode_error

unfoldable pub decode : Bytes → Result (List ℕ)
unfolding decode_from
decode bs = decode_from 0 0 128 191 bs

-- A code point that is no surrogate.
abbrev pub IsChar : ℕ → Type 0
IsChar c = (c < 55296) ⊎ ((57344 ≤ c) × (c < 1114112))

-- between characters, the state does not matter
decode_from_start : (bits low high : ℕ) (bs : Bytes) → decode_from 0 bits low high bs ≡ decode bs
unfolding decode decode_from
decode_from_start bits low high [] = refl
decode_from_start bits low high (b ∷ bs) = refl

-- a byte in its range goes into the bits of its character
decode_from-last :
    (bits low high b : ℕ) (bs : Bytes)
    → low ≤ b
    → b ≤ high
    → decode_from 1 bits low high (b ∷ bs) ≡ prepend (bits * 64 + (b - 128)) (decode bs)
unfolding decode_from
decode_from-last bits low high b bs h h' =
    rw (le→leb low b h, le→leb b high h')
      (ap (prepend (bits * 64 + (b - 128))) (decode_from_start _ 128 191 bs))

decode_from-more :
    (n bits low high b : ℕ) (bs : Bytes)
    → low ≤ b
    → b ≤ high
    → decode_from (suc (suc n)) bits low high (b ∷ bs)
      ≡ decode_from (suc n) (bits * 64 + (b - 128)) 128 191 bs
unfolding decode_from
decode_from-more n bits low high b bs h h' = rw (le→leb low b h, le→leb b high h') refl

abbrev lead_of : ℕ → ℕ → ℕ → Lead
lead_of count low high = record { count = count; low = low; high = high; fits = true }

decode-lead :
    (b count bits low high : ℕ) (bs : Bytes)
    → lead b ≡ lead_of (suc count) low high
    → lead_bits (suc count) b ≡ bits
    → decode (b ∷ bs) ≡ decode_from (suc count) bits low high bs
unfolding decode decode_from
decode-lead b count bits low high bs e e' =
    rw e (ap (λ x. decode_from (suc count) x low high bs) e')

decode-one : (c : ℕ) (bs : Bytes) → c < 128 → decode (c ∷ bs) ≡ prepend c (decode bs)
unfolding decode decode_from
decode-one c bs h =
    let e : lead c ≡ lead_of 0 128 191 = unfold lead in ground arith in
    rw e (ap (prepend c) (decode_from_start c 128 191 bs))

decode-two :
    (a b : ℕ) (bs : Bytes)
    → 194 ≤ a
    → a ≤ 223
    → 128 ≤ b
    → b ≤ 191
    → decode (a ∷ (b ∷ bs)) ≡ prepend ((a - 192) * 64 + (b - 128)) (decode bs)
unfolding lead_bits
decode-two a b bs h h' k k' =
    let e : lead a ≡ lead_of 1 128 191 = unfold lead in ground arith in
    decode-lead a 0 (a - 192) 128 191 (b ∷ bs) e refl ∙ decode_from-last (a - 192) 128 191 b bs k k'

decode-three :
    (a b c low high : ℕ) (bs : Bytes)
    → lead a ≡ lead_of 2 low high
    → low ≤ b
    → b ≤ high
    → 128 ≤ c
    → c ≤ 191
    → decode (a ∷ (b ∷ (c ∷ bs)))
      ≡ prepend (((a - 224) * 64 + (b - 128)) * 64 + (c - 128)) (decode bs)
unfolding lead_bits
decode-three a b c low high bs e h h' k k' =
    decode-lead a 1 (a - 224) low high (b ∷ (c ∷ bs)) e refl
    ∙ decode_from-more 0 (a - 224) low high b (c ∷ bs) h h'
    ∙ decode_from-last ((a - 224) * 64 + (b - 128)) 128 191 c bs k k'

decode-four :
    (a b c d low high : ℕ) (bs : Bytes)
    → lead a ≡ lead_of 3 low high
    → low ≤ b
    → b ≤ high
    → 128 ≤ c
    → c ≤ 191
    → 128 ≤ d
    → d ≤ 191
    → decode (a ∷ (b ∷ (c ∷ (d ∷ bs))))
      ≡ prepend ((((a - 240) * 64 + (b - 128)) * 64 + (c - 128)) * 64 + (d - 128)) (decode bs)
unfolding lead_bits
decode-four a b c d low high bs e h h' k k' m m' =
    decode-lead a 2 (a - 240) low high (b ∷ (c ∷ (d ∷ bs))) e refl
    ∙ decode_from-more 1 (a - 240) low high b (c ∷ (d ∷ bs)) h h'
    ∙ decode_from-more 0 ((a - 240) * 64 + (b - 128)) 128 191 c (d ∷ bs) k k'
    ∙ decode_from-last (((a - 240) * 64 + (b - 128)) * 64 + (c - 128)) 128 191 d bs m m'

three_bytes :
    (c : ℕ) (bs : Bytes)
    → IsChar c
    → 2048 ≤ c
    → c < 65536
    → decode ((224 + c / 4096) ∷ ((128 + c / 64 % 64) ∷ ((128 + c % 64) ∷ bs)))
      ≡ prepend c (decode bs)
three_bytes c bs h k k' =
    let a : ℕ = 224 + c / 4096 in
    let bits : ((a - 224) * 64 + (128 + c / 64 % 64 - 128)) * 64 + (128 + c % 64 - 128) ≡ c =
      omega arith in
    let low : ℕ = if a == 224 then 160 else 128 in
    let high : ℕ = if a == 237 then 159 else 191 in
    let e : lead a ≡ lead_of 2 low high = unfold lead in ground arith in
    decode-three a _ _ low high bs e (ground arith) (ground arith) (omega arith) (omega arith)
    ∙ ap (λ x. prepend x (decode bs)) bits

four_bytes :
    (c : ℕ) (bs : Bytes)
    → 65536 ≤ c
    → c < 1114112
    → decode (
        (240 + c / 262144)
        ∷ ((128 + c / 4096 % 64) ∷ ((128 + c / 64 % 64) ∷ ((128 + c % 64) ∷ bs))))
      ≡ prepend c (decode bs)
four_bytes c bs k k' =
    let a : ℕ = 240 + c / 262144 in
    let bits : (((a - 240) * 64 + (128 + c / 4096 % 64 - 128)) * 64 + (128 + c / 64 % 64 - 128))
            * 64
          + (128 + c % 64 - 128)
        ≡ c =
      omega arith in
    let low : ℕ = if a == 240 then 144 else 128 in
    let high : ℕ = if a == 244 then 143 else 191 in
    let e : lead a ≡ lead_of 3 low high = unfold lead in ground arith in
    decode-four a _ _ _ low high bs e (ground arith) (ground arith) (omega arith) (omega arith)
      (omega arith) (omega arith)
    ∙ ap (λ x. prepend x (decode bs)) bits

two_bytes :
    (c : ℕ) (bs : Bytes)
    → 128 ≤ c
    → c < 2048
    → decode ((192 + c / 64) ∷ ((128 + c % 64) ∷ bs)) ≡ prepend c (decode bs)
two_bytes c bs k k' =
    let bits : (192 + c / 64 - 192) * 64 + (128 + c % 64 - 128) ≡ c = omega arith in
    decode-two (192 + c / 64) (128 + c % 64) bs (omega arith) (omega arith) (omega arith)
      (omega arith)
    ∙ ap (λ x. prepend x (decode bs)) bits

-- A character is read back from its bytes, whatever follows.
decode-utf8_char :
    (c : ℕ) (bs : Bytes) → IsChar c → decode (utf8_char c ++ bs) ≡ prepend c (decode bs)
unfolding utf8_char
decode-utf8_char c bs h =
    let one : c < 128 → decode (c ∷ bs) ≡ prepend c (decode bs) = decode-one c bs in
    let two = two_bytes c bs in
    let three = three_bytes c bs h in let four = four_bytes c bs in ground arith

-- `s.encode('utf8').decode() == s`
decode-utf8 : (s : List ℕ) → All IsChar s → decode (utf8 s) ≡ ok s
unfolding utf8
decode-utf8 [] h = unfold decode decode_from in refl
decode-utf8 (c ∷ s) (hc, hs) = decode-utf8_char c (utf8 s) hc ∙ ap (prepend c) (decode-utf8 s hs)
