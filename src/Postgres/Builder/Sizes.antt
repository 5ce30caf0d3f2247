-- ===== src/Postgres/Builder/Sizes.antt =====
-- `PostgresPacketBuilder`: the length that a packet says is the length that it has.
use mindsdb.Common.{
  Bool-cases, inl, inr, codes, ℕ, ◌+◌, ◌<◌, ◌≡◌, refl, List, [], ◌∷◌, ◌++◌, arith, length,
  length-append, length-take, length-replicate, replicate, Bytes, ℤ, pos, negsuc, ok, ok_of_bind,
  ◌>>=◌,
}
use mindsdb.Wire.Text.{utf8}
use mindsdb.Postgres.Numbers.{be32, pack_h, pack_i}
use mindsdb.Postgres.Builder.{
  Format, char, int, short, str, Arg, raw, number, Builder, PostgresField, pack_item, pack_items,
  get_packet_builder, add, add_char, add_string, add_int32, add_int16, add_bytes, add_field,
  add_fields, add_column_value, add_row, write, bytes_eq,
}

abbrev size : Format → ℕ
size char = 1
size (str n) = n
size int = 4
size short = 2

abbrev sizes : List Format → ℕ
sizes [] = 0
sizes (f ∷ fs) = size f + sizes fs

pub sizes-append : (fs gs : List Format) → sizes (fs ++ gs) ≡ sizes fs + sizes gs
sizes-append [] gs = omega arith
sizes-append (f ∷ fs) gs = omega (arith, sizes-append fs gs)

length-pack_item :
    (f : Format) (a : Arg) (out : Bytes) → pack_item f a ≡ ok out → length out ≡ size f
unfolding pack_item pack_i pack_h
length-pack_item char (raw []) out e = ground arith
length-pack_item char (raw (b ∷ [])) out e = ground arith
length-pack_item char (raw (b ∷ (d ∷ bs))) out e = ground arith
length-pack_item char (number v) out e = ground arith
length-pack_item (str n) (raw bs) out e = ground (
  arith,
  length-take n (bs ++ replicate n 0),
  length-append bs (replicate n 0),
  length-replicate {A = ℕ} n 0,
)
length-pack_item (str n) (number v) out e = ground arith
length-pack_item int (raw bs) out e = ground arith
length-pack_item int (number v) out e = ground arith
length-pack_item short (raw bs) out e = ground arith
length-pack_item short (number v) out e = ground arith

length-pack_items :
    (fs : List Format) (args : List Arg) (out : Bytes)
    → pack_items fs args ≡ ok out
    → length out ≡ sizes fs
unfolding pack_items
length-pack_items [] [] out e = ground arith
length-pack_items [] (a ∷ args) out e = ground arith
length-pack_items (f ∷ fs) [] out e = ground arith
length-pack_items (f ∷ fs) (a ∷ args) out e =
    let (item, p, e') = ok_of_bind (pack_item f a) _ out e in
    let (rest, q, e'') = ok_of_bind (pack_items fs args) _ out e' in
    let k = length-pack_item f a item p in
    let m = length-pack_items fs args rest q in ground (arith, length-append item rest)

-- `length` is the sum of the sizes in `pack_string`.
pub record IsSized (b : Builder) : Type 0 where
  sum : b.length ≡ sizes b.pack_string

pub reset-IsSized : (id : Bytes) → IsSized (get_packet_builder id)
reset-IsSized id = record { sum = refl }

add-IsSized :
    (f : Format) (a : Arg) (n : ℕ) (b : Builder) → size f ≡ n → IsSized b → IsSized (add f a n b)
add-IsSized f a n b e z = record { sum = omega (arith, sizes-append b.pack_string (f ∷ [])) }

pub add_string-IsSized : (bs : Bytes) {b : Builder} → IsSized b → IsSized (add_string bs b)
unfolding add_string
add_string-IsSized bs {b} z =
    add-IsSized (str (length (bs ++ 0 ∷ []))) (raw (bs ++ 0 ∷ [])) _ b refl z

pub add_int32-IsSized : (v : ℤ) {b : Builder} → IsSized b → IsSized (add_int32 v b)
unfolding add_int32
add_int32-IsSized v {b} z = add-IsSized int (number v) _ b refl z

pub add_int16-IsSized : (v : ℤ) {b : Builder} → IsSized b → IsSized (add_int16 v b)
unfolding add_int16
add_int16-IsSized v {b} z = add-IsSized short (number v) _ b refl z

pub add_char-IsSized :
    (bs : Bytes) (b b' : Builder) → add_char bs b ≡ ok b' → IsSized b → IsSized b'
unfolding add_char
add_char-IsSized bs b b' e z = let k = add-IsSized char (raw bs) 1 b refl z in ground arith

add_bytes-IsSized : (bs : Bytes) {b : Builder} → IsSized b → IsSized (add_bytes bs b)
unfolding add_bytes
add_bytes-IsSized bs {b} z = add-IsSized (str (length bs)) (raw bs) _ b refl z

pub add_field-IsSized : (f : PostgresField) {b : Builder} → IsSized b → IsSized (add_field f b)
unfolding add_field
add_field-IsSized f z =
    let named = add_int32-IsSized f.table_id (add_string-IsSized (utf8 f.name) z) in
    let typed =
      add_int16-IsSized f.dt_size
        (add_int32-IsSized f.object_id (add_int16-IsSized f.column_id named)) in
    add_int16-IsSized f.format_code (add_int32-IsSized f.type_modifier typed)

pub add_fields-IsSized :
    (fs : List PostgresField) {b : Builder} → IsSized b → IsSized (add_fields fs b)
unfolding add_fields
add_fields-IsSized [] z = z
add_fields-IsSized (f ∷ fs) z = add_fields-IsSized fs (add_field-IsSized f z)

add_column_value-IsSized : (v : Bytes) {b : Builder} → IsSized b → IsSized (add_column_value v b)
unfolding add_column_value
add_column_value-IsSized v z = elim (Bool-cases (bytes_eq v (codes "NULL"))) [
  | inl null ↦ rw null (add_int32-IsSized (negsuc 0) z)
  | inr value ↦ rw value (add_bytes-IsSized v (add_int32-IsSized (pos (length v)) z))
]

pub add_row-IsSized : (row : List Bytes) {b : Builder} → IsSized b → IsSized (add_row row b)
unfolding add_row
add_row-IsSized [] z = z
add_row-IsSized (v ∷ row) z = add_row-IsSized row (add_column_value-IsSized v z)

-- A packet of the protocol: one byte, the length of the rest with its own four bytes, the body.
pub record IsPacket (out : Bytes) : Type 0 where
  pub identifier : ℕ
  pub body : Bytes
  pub in_range : length body + 4 < 2147483648
  pub parts : out ≡ identifier ∷ be32 (length body + 4) ++ body

pack_items-IsPacket :
    (id : Bytes) (n : ℕ) (fs : List Format) (args : List Arg) (out : Bytes)
    → n ≡ sizes fs
    → pack_items (char ∷ (int ∷ fs)) (raw id ∷ (number (pos (n + 4)) ∷ args)) ≡ ok out
    → IsPacket out
unfolding pack_items pack_item pack_i
pack_items-IsPacket [] n fs args out z e = absurd (ground arith)
pack_items-IsPacket (x ∷ (y ∷ id)) n fs args out z e = absurd (ground arith)
pack_items-IsPacket (x ∷ []) n fs args out z e =
    let (rest, p, e') =
      ok_of_bind (pack_i (pos (n + 4)) >>= λ item. pack_items fs args >>= λ r. ok (item ++ r)) _ out
        e in
    let (item, q, p') = ok_of_bind (pack_i (pos (n + 4))) _ rest p in
    let (body, r, p'') = ok_of_bind (pack_items fs args) _ rest p' in
    let k = length-pack_items fs args body r in
    record { identifier = x; body = body; in_range = ground arith; parts = ground arith }

-- What `write` writes is a packet.
pub write-IsPacket : (b : Builder) (out : Bytes) → IsSized b → write b ≡ ok out → IsPacket out
unfolding write
write-IsPacket b out z e =
    pack_items-IsPacket b.identifier b.length b.pack_string b.pack_args out z.sum (ground arith)
