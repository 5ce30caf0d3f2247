-- ===== src/Wire/Command/Params.antt =====
-- command_packet.py: the parameters of COM_STMT_EXECUTE, as a client sends them.
use mindsdb.Common.{
  ℕ, zero, suc, ◌+◌, ◌-◌, ◌*◌, ℤ, pos, negsuc, if◌then◌else◌, ◌/◌, ◌^◌, ◌<◌, ◌≡◌, refl, Bool, true,
  false, List, [], ◌∷◌, ◌++◌, map, append_assoc, arith, length, Bytes, le_bytes, All, ok,
}
use mindsdb.Wire.Text.{decodes}
use mindsdb.Wire.Datum.RoundTrip.{protocol_string, set_from_buff-protocol_string}
use mindsdb.Wire.Datum.Fixed.{set_from_buff-le_bytes}
use mindsdb.Wire.Command.{
  Param, null_param, number_param, text_param, bits, read_nulls, read_types, read_value,
  read_values, read_params,
}

-- A parameter on the client's side: NULL, an integer of 1, 2, 4 or 8 bytes with whether its type is
-- unsigned, or a string.
pub data Sent : Type 0 where
  sent_null : Sent
  tiny short long longlong : Bool → ℤ → Sent
  var_string : Bytes → Sent

-- its type in the packet
abbrev pub type_code : Sent → ℕ
type_code sent_null = 6
type_code (tiny u z) = 1
type_code (short u z) = 2
type_code (long u z) = 3
type_code (longlong u z) = 8
type_code (var_string bs) = 253

-- the byte behind the type: its highest bit says that an integer is unsigned
abbrev pub type_flag : Sent → ℕ
type_flag (tiny u z) = if u then 128 else 0
type_flag (short u z) = if u then 128 else 0
type_flag (long u z) = if u then 128 else 0
type_flag (longlong u z) = if u then 128 else 0
type_flag _ = 0

-- two's complement in `n` bytes, as the unsigned number with the same bytes
abbrev pub wire : ℕ → ℤ → ℕ
wire n (pos v) = v
wire n (negsuc k) = 256 ^ n - 1 - k

-- its value in the packet
abbrev pub value_bytes : Sent → Bytes
value_bytes sent_null = []
value_bytes (tiny u z) = le_bytes 1 (wire 1 z)
value_bytes (short u z) = le_bytes 2 (wire 2 z)
value_bytes (long u z) = le_bytes 4 (wire 4 z)
value_bytes (longlong u z) = le_bytes 8 (wire 8 z)
value_bytes (var_string bs) = protocol_string bs

abbrev pub is_null : Sent → Bool
is_null sent_null = true
is_null p = false

-- what the server has for it: the unsigned number, also where a signed one is sent
abbrev pub param : Sent → Param
param sent_null = null_param
param (tiny u z) = number_param (wire 1 z)
param (short u z) = number_param (wire 2 z)
param (long u z) = number_param (wire 4 z)
param (longlong u z) = number_param (wire 8 z)
param (var_string bs) = text_param bs

-- the integers of a type of `n` bytes
abbrev pub Fits : ℕ → Bool → ℤ → Type 0
Fits n true (pos v) = v < 256 ^ n
Fits n true (negsuc k) = ⊥
Fits n false (pos v) = 2 * v < 256 ^ n
Fits n false (negsuc k) = 2 * k < 256 ^ n

-- An integer fits its type, and a string is UTF-8 of less than 2^24 bytes.
abbrev pub IsSendable : Sent → Type 0
IsSendable sent_null = Unit
IsSendable (tiny u z) = Fits 1 u z
IsSendable (short u z) = Fits 2 u z
IsSendable (long u z) = Fits 4 u z
IsSendable (longlong u z) = Fits 8 u z
IsSendable (var_string bs) = (length bs < 16777216) × (decodes bs ≡ true)

wire_bounds : (n : ℕ) (u : Bool) (z : ℤ) → Fits n u z → wire n z < 256 ^ n
wire_bounds n true (pos v) h = h
wire_bounds n true (negsuc k) h = elim h [ ]
wire_bounds n false (pos v) h = omega arith
wire_bounds n false (negsuc k) h = omega arith

abbrev pub type_bytes : List Sent → Bytes
type_bytes [] = []
type_bytes (p ∷ ps) = type_code p ∷ type_flag p ∷ type_bytes ps

abbrev pub values_bytes : List Sent → Bytes
values_bytes [] = []
values_bytes (p ∷ ps) = value_bytes p ++ values_bytes ps

-- the bits of a null bitmap, lowest first
abbrev pub all_bits : Bytes → List Bool
all_bits [] = []
all_bits (b ∷ bs) = bits b ++ all_bits bs

read_nulls_lem :
    (n : ℕ) (bitmap rest : Bytes)
    → length bitmap ≡ n
    → read_nulls n (bitmap ++ rest) ≡ ok (all_bits bitmap, rest)
unfolding read_nulls
read_nulls_lem zero [] rest e = refl
read_nulls_lem zero (b ∷ bs) rest e = absurd (omega arith)
read_nulls_lem (suc n) [] rest e = absurd (omega arith)
read_nulls_lem (suc n) (b ∷ bs) rest e = rw (read_nulls_lem n bs rest (omega arith))

read_types_lem :
    (ps : List Sent) (rest : Bytes)
    → read_types (length ps) (type_bytes ps ++ rest) ≡ ok (map type_code ps, rest)
unfolding read_types
read_types_lem [] rest = refl
read_types_lem (p ∷ ps) rest = rw (read_types_lem ps rest)

read_value_lem :
    (p : Sent) (types : List ℕ) (rest : Bytes)
    → is_null p ≡ false
    → IsSendable p
    → read_value (type_code p ∷ types) (value_bytes p ++ rest) ≡ ok (param p, rest)
unfolding read_value
read_value_lem sent_null types rest n h = cc
read_value_lem (tiny u z) types rest n h =
    rw (set_from_buff-le_bytes 1 (wire 1 z) rest (omega arith) (wire_bounds 1 u z h))
read_value_lem (short u z) types rest n h =
    rw (set_from_buff-le_bytes 2 (wire 2 z) rest (omega arith) (wire_bounds 2 u z h))
read_value_lem (long u z) types rest n h =
    rw (set_from_buff-le_bytes 4 (wire 4 z) rest (omega arith) (wire_bounds 4 u z h))
read_value_lem (longlong u z) types rest n h =
    rw (set_from_buff-le_bytes 8 (wire 8 z) rest (omega arith) (wire_bounds 8 u z h))
read_value_lem (var_string bs) types rest n (h, k) =
    rw (set_from_buff-protocol_string bs rest h) (rw k)

read_values_lem :
    (ps : List Sent) (pad : List Bool) (rest : Bytes)
    → All IsSendable ps
    → read_values (length ps) (map is_null ps ++ pad) (map type_code ps) (values_bytes ps ++ rest)
      ≡ ok (map param ps)
unfolding read_values
read_values_lem [] pad rest h = refl
read_values_lem (sent_null ∷ ps) pad rest (hp, hs) = rw (read_values_lem ps pad rest hs)
read_values_lem (p ∷ ps) pad rest (hp, hs) = rw append_assoc (
    rw (read_value_lem p (map type_code ps) (values_bytes ps ++ rest) refl hp)
      (rw (read_values_lem ps pad rest hs)))

-- The parameters of COM_STMT_EXECUTE, behind a null bitmap that has a bit for each and the mark
-- that types follow, are read in order, whatever stands behind them.
pub read_params-sent :
    (ps : List Sent) (bitmap : Bytes) (pad : List Bool) (rest : Bytes)
    → All IsSendable ps
    → length bitmap ≡ (length ps + 7) / 8
    → all_bits bitmap ≡ map is_null ps ++ pad
    → read_params (bitmap ++ 1 ∷ (type_bytes ps ++ (values_bytes ps ++ rest))) (length ps)
      ≡ ok (map param ps)
unfolding read_params
read_params-sent [] bitmap pad rest h l e = refl
read_params-sent (p ∷ ps) bitmap pad rest h l e =
    rw (read_nulls_lem _ bitmap (1 ∷ (type_bytes (p ∷ ps) ++ (values_bytes (p ∷ ps) ++ rest))) l) (
      rw (read_types_lem ps (values_bytes (p ∷ ps) ++ rest), e)
        (read_values_lem (p ∷ ps) pad rest h))
