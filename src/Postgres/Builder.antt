-- ===== src/Postgres/Builder.antt =====
-- `PostgresPacketBuilder` of postgres_packets/postgres_packets.py: a packet is put together from parts,
-- with their formats and the sum of their lengths, and written by one `struct.pack`.
pub mod Sizes
pub mod Contents
use mindsdb.Common.{
  ℕ, ◌+◌, ◌≡◌, refl, Bool, List, [], ◌∷◌, ◌++◌, arith, ◌==◌, if◌then◌else◌, length, take, replicate,
  ◌-◌, Bytes, codes, ℤ, pos, negsuc, Result, ok, err, ◌>>=◌, struct_error, type_error, bad_char,
  no_identifier,
}
use mindsdb.Wire.Text.{utf8}
use mindsdb.Postgres.Numbers.{pack_h, pack_i}

-- One item of `pack_string`: 'c', 'i', 'h' or '<n>s'.
pub data Format : Type 0 where
  char int short : Format
  str : ℕ → Format

-- One of `pack_args`.
pub data Arg : Type 0 where
  raw : Bytes → Arg
  number : ℤ → Arg

pub record Builder : Type 0 where
  pub identifier : Bytes
  pub pack_string : List Format
  pub pack_args : List Arg
  pub length : ℕ

-- one item of `struct.pack`: '<n>s' pads with zeros and cuts
pack_item : Format → Arg → Result Bytes
pack_item char (raw (b ∷ [])) = ok (b ∷ [])
pack_item char _ = err struct_error
pack_item (str n) (raw bs) = ok (take n (bs ++ replicate n 0))
pack_item (str n) (number v) = err struct_error
pack_item int (number v) = pack_i v
pack_item int (raw bs) = err struct_error
pack_item short (number v) = pack_h v
pack_item short (raw bs) = err struct_error

-- `struct.pack(fmt, *args)`, without padding between items; there are as many arguments as items
pack_items : List Format → List Arg → Result Bytes
unfolding pack_item
pack_items [] [] = ok []
pack_items (f ∷ fs) (a ∷ args) = do
  item ← pack_item f a
  rest ← pack_items fs args
  ok (item ++ rest)
pack_items _ _ = err struct_error

-- `get_packet_builder`: a builder that was reset, with its identifier
abbrev pub get_packet_builder : Bytes → Builder
get_packet_builder id = record { identifier = id; pack_string = []; pack_args = []; length = 0 }

-- what all the `add_*` methods do: one more format, one more argument, `add_length`
abbrev pub add : Format → Arg → ℕ → Builder → Builder
add f a n b = record {
  identifier = b.identifier;
  pack_string = b.pack_string ++ f ∷ [];
  pack_args = b.pack_args ++ a ∷ [];
  length = b.length + n;
}

unfoldable pub add_char : Bytes → Builder → Result Builder
add_char bs b = if length bs == 1 then ok (add char (raw bs) 1 b) else err bad_char

unfoldable pub add_string : Bytes → Builder → Builder
add_string bs b =
    let terminated = bs ++ 0 ∷ [] in
    add (str (length terminated)) (raw terminated) (length terminated) b

unfoldable pub add_int32 : ℤ → Builder → Builder
add_int32 v b = add int (number v) 4 b

unfoldable pub add_int16 : ℤ → Builder → Builder
add_int16 v b = add short (number v) 2 b

unfoldable pub add_bytes : Bytes → Builder → Builder
add_bytes bs b = add (str (length bs)) (raw bs) (length bs) b

-- `PostgresField` of postgres_fields.py
pub record PostgresField : Type 0 where
  pub name : List ℕ
  pub object_id : ℤ
  pub dt_size : ℤ
  pub type_modifier : ℤ
  pub format_code : ℤ
  pub table_id : ℤ
  pub column_id : ℤ

-- `GenericField`
unfoldable pub generic_field : List ℕ → ℤ → ℤ → ℤ → PostgresField
generic_field name object_id table_id column_id = record {
  name = name;
  object_id = object_id;
  dt_size = negsuc 0;
  type_modifier = negsuc 0;
  format_code = pos 0;
  table_id = table_id;
  column_id = column_id;
}

unfoldable pub add_field : PostgresField → Builder → Builder
unfolding add_string add_int32 add_int16
add_field f b =
    let named = add_int32 f.table_id (add_string (utf8 f.name) b) in
    let typed = add_int16 f.dt_size (add_int32 f.object_id (add_int16 f.column_id named)) in
    add_int16 f.format_code (add_int32 f.type_modifier typed)

unfoldable pub add_fields : List PostgresField → Builder → Builder
unfolding add_field
add_fields [] b = b
add_fields (f ∷ fs) b = add_fields fs (add_field f b)

-- equality of `bytes`
unfoldable pub bytes_eq : Bytes → Bytes → Bool
bytes_eq [] [] = Bool.true
bytes_eq (x ∷ xs) (y ∷ ys) = if x == y then bytes_eq xs ys else Bool.false
bytes_eq _ _ = Bool.false

unfoldable pub add_column_value : Bytes → Builder → Builder
unfolding add_int32 add_bytes bytes_eq
add_column_value v b =
    if bytes_eq v (codes "NULL")
    then add_int32 (negsuc 0) b
    else add_bytes v (add_int32 (pos (length v)) b)

unfoldable pub add_row : List Bytes → Builder → Builder
unfolding add_column_value
add_row [] b = b
add_row (v ∷ row) b = add_row row (add_column_value v b)

-- `write`: the bytes of the packet. The identifier is one byte, and the length counts itself.
unfoldable pub write : Builder → Result Bytes
unfolding pack_items
write b =
    if length b.identifier == 0
    then err no_identifier
    else pack_items (char ∷ int ∷ b.pack_string)
        (raw b.identifier ∷ number (pos (b.length + 4)) ∷ b.pack_args)
