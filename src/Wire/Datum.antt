-- ===== src/Wire/Datum.antt =====
-- mindsdb/api/mysql/mysql_proxy/data_types/mysql_datum.py: one value of a packet's body.
-- A type such as 'string<lenenc>' is its two halves. 'string<packet>', which no packet uses, is left
-- out. The proofs are in the modules below.
pub mod Sizes
pub mod RoundTrip
pub mod Fixed
use mindsdb.Common.{
  ℕ, zero, suc, ◌+◌, ◌-◌, ◌/◌, ◌^◌, ◌≡◌, refl, Bool, true, false, Option, none, some, List, [], ◌∷◌,
  ◌++◌, arith, ltb, leb, ◌==◌, if◌then◌else◌, length, take, drop, replicate, slice, Bytes, le_bytes,
  from_le, ℤ, pos, negsuc, Result, ok, err, value_error, type_error, struct_error, index_error,
  unicode_error, returned_none, ◌>>=◌, codes,
}
use mathlib.Core.Option
use mindsdb.Wire.Text.{utf8, decodes, decimal}

pub data VarType : Type 0 where
  int byte string str : VarType

pub data VarLen : Type 0 where
  lenenc eof nul : VarLen
  fixed : ℕ → VarLen

-- What `value` holds: `None`, an `int`, the 1-tuple of `struct.unpack`, `bytes`, or a `str`.
pub data Value : Type 0 where
  null : Value
  number : ℤ → Value
  tuple : ℤ → Value
  raw : Bytes → Value
  text : List ℕ → Value

pub record Datum : Type 0 where
  pub var_type : VarType
  pub var_len : VarLen
  pub value : Value

-- `Datum(type, value=None)`
abbrev pub datum : VarType → VarLen → Datum
datum t l = record { var_type = t; var_len = l; value = raw [] }

abbrev pub datum_of : VarType → VarLen → Value → Datum
datum_of t l null = datum t l
datum_of t l v = record { var_type = t; var_len = l; value = v }

-- The constants of libs/constants/mysql.py.
abbrev pub null_value : ℕ
null_value = 0xfb

abbrev pub one_byte_enc : ℕ
one_byte_enc = 0xfa

abbrev pub two_byte_enc : ℕ
two_byte_enc = 0xfc

abbrev pub three_byte_enc : ℕ
three_byte_enc = 0xfd

-- `struct`: 'Q' is 8 bytes unsigned, 'i' 4 bytes signed, '<n>s' n bytes padded with zeros.
unfoldable pub pack_q : ℕ → Result Bytes
pack_q v = if ltb v (2 ^ 64) then ok (le_bytes 8 v) else err struct_error

unfoldable pub pack_i : ℕ → Result Bytes
pack_i v = if ltb v (2 ^ 31) then ok (le_bytes 4 v) else err struct_error

unfoldable pub pack_s : ℕ → Bytes → Bytes
pack_s n bs = take n bs ++ replicate (n - length bs) 0

unfoldable pub unpack_q : Bytes → Result ℕ
unpack_q bs = if length bs == 8 then ok (from_le bs) else err struct_error

unfoldable pub unpack_i : Bytes → Result ℤ
unpack_i bs =
    let v = from_le bs in
    if length bs == 4
    then ok (if ltb v (2 ^ 31) then pos v else negsuc (2 ^ 32 - v - 1))
    else err struct_error

-- `int(math.ceil(math.log(n, 2) / 8))` for `n` at least 1, in exact arithmetic: the least `k` with
-- `n ≤ 256 ^ k`, counted up to `fuel`. The code tests it against 0, 2, 3 and 8.
unfoldable pub byte_count : ℕ → ℕ → ℕ
byte_count zero n = 0
byte_count (suc fuel) n =
    let more = byte_count fuel ((n + 255) / 256) in if leb n 1 then 0 else suc more

unfoldable pub lenenc_ℕ : ℕ → Result Bytes
unfolding byte_count pack_i pack_q
lenenc_ℕ value =
    let count = byte_count 9 (value + 1) in
    if count == 0
    then ok (0 ∷ [])
    else if ltb value null_value
    then (do bs ← pack_i value; ok (take 1 bs))
    else if leb count 2
    then (do bs ← pack_i value; ok (two_byte_enc ∷ take 2 bs))
    else if leb count 3
    then (do bs ← pack_i value; ok (three_byte_enc ∷ take 3 bs))
    else if leb count 8
    then (do bs ← pack_q value; ok (three_byte_enc ∷ take 8 bs))
    else err returned_none

-- `lenencInt`; the logarithm of a number below 1 is a `ValueError`
unfoldable pub lenenc_int : ℤ → Result Bytes
unfolding lenenc_ℕ
lenenc_int (pos value) = lenenc_ℕ value
lenenc_int (negsuc _) = err value_error

-- The last lines of `toStringPacket`, on the bytes of the text.
unfoldable pub lenenc_text : Bytes → Result Bytes
unfolding lenenc_ℕ
lenenc_text bs =
    let val_len = length bs in
    let count = byte_count 9 (val_len + 1) in
    if ltb val_len null_value
    then (do head ← lenenc_ℕ val_len; ok (head ++ bs))
    else if leb count 2
    then (do head ← pack_i val_len; ok (two_byte_enc ∷ (take 2 head ++ bs)))
    else if leb count 3
    then (do head ← pack_i val_len; ok (three_byte_enc ∷ (take 3 head ++ bs)))
    else if leb count 8
    then (do head ← pack_q val_len; ok (three_byte_enc ∷ (take 8 head ++ bs)))
    else err returned_none

-- `str(value)` of what is neither `bytes` nor `str`, and `value.encode('utf8')`
lenenc_value : Value → Result Bytes
unfolding lenenc_text utf8 decodes decimal
lenenc_value null = ok (null_value ∷ [])
lenenc_value (number n) = lenenc_text (utf8 (decimal n))
lenenc_value (tuple n) = lenenc_text (utf8 (b'(' ∷ (decimal n ++ codes ",)")))
lenenc_value (raw bs) = if decodes bs then lenenc_text bs else err unicode_error
lenenc_value (text s) = lenenc_text (utf8 s)

lenenc_number : Value → Result Bytes
unfolding lenenc_int
lenenc_number null = ok (null_value ∷ [])
lenenc_number (number n) = lenenc_int n
lenenc_number _ = err type_error

-- `len` of a text counts characters, and what it bounds are bytes
eof_value : Value → Result Bytes
unfolding utf8
eof_value (raw []) = ok []
eof_value (text s) = ok (take (length s) (utf8 s))
eof_value _ = err type_error

fixed_int : ℕ → Value → Result Bytes
unfolding pack_q
fixed_int n (number (pos v)) = do bs ← pack_q v; ok (take n bs)
fixed_int n _ = err struct_error

fixed_string : ℕ → Value → Result Bytes
unfolding utf8 pack_s
fixed_string n (text s) = ok (take n (pack_s n (utf8 s)))
fixed_string n _ = err type_error

fixed_byte : ℕ → Value → Result Bytes
unfolding pack_s
fixed_byte n (raw bs) = ok (take n (pack_s n bs))
fixed_byte n _ = err struct_error

nul_value : Value → Result Bytes
unfolding utf8
nul_value (text s) = ok (utf8 s ++ 0 ∷ [])
nul_value _ = err type_error

pack_as : VarType → VarLen → Value → Result Bytes
unfolding lenenc_value lenenc_number eof_value fixed_int fixed_string fixed_byte nul_value
pack_as string eof v = eof_value v
pack_as byte eof v = eof_value v
pack_as string nul v = nul_value v
pack_as int (fixed n) v = fixed_int n v
pack_as string (fixed n) v = fixed_string n v
pack_as byte (fixed n) v = fixed_byte n v
pack_as int lenenc v = lenenc_number v
pack_as string lenenc v = lenenc_value v
pack_as byte lenenc v = lenenc_value v
pack_as str lenenc null = ok (null_value ∷ [])
pack_as _ _ _ = err returned_none

unfoldable pub to_string_packet : Datum → Result Bytes
unfolding pack_as
to_string_packet d = pack_as d.var_type d.var_len d.value

-- `start` and `end`: where the length stands behind a first byte
pub lenenc_span : ℕ → ℕ × ℕ
lenenc_span b =
    if leb b one_byte_enc
    then (0, 1)
    else if b == two_byte_enc
    then (1, 3)
    else if b == three_byte_enc
    then (1, 4)
    else (1, 9)

-- the bytes of the length, padded with zeros to what `end - start` should leave
length_bytes : ℕ → ℕ → Bytes → Bytes
length_bytes start end buff = slice start end buff ++ replicate (8 - (end - start)) 0

-- `setFromBuff` returns the rest of the buffer
abbrev pub Parsed : Type 0
Parsed = Datum × Bytes

lenenc_body : VarType → Datum → ℕ → Bytes → Bytes → Result Parsed
unfolding unpack_i unpack_q
lenenc_body int d end num_str buff = do
  n ← unpack_i num_str
  ok (record d { value = tuple n }, drop end buff)
lenenc_body str d end num_str buff = err value_error
lenenc_body _ d end num_str buff = do
  n ← unpack_q num_str
  ok (record d { value = raw (slice end (n + end) buff) }, drop (n + end) buff)

from_lenenc : Datum → Bytes → Result Parsed
unfolding lenenc_span length_bytes lenenc_body
from_lenenc d [] = err index_error
from_lenenc d (b ∷ bs) =
    let buff = b ∷ bs in
    let (start, end) = lenenc_span b in
    lenenc_body d.var_type d end (length_bytes start end buff) buff

-- `enumerate(buff)` up to the first zero
find_nul : Bytes → Option ℕ
find_nul [] = none
find_nul (b ∷ bs) = let rest = Option.map suc (find_nul bs) in if b == 0 then some 0 else rest

fixed_number : Datum → ℕ → Bytes → Result Parsed
unfolding unpack_q
fixed_number d end buff = if ltb 8 end then ok (d, drop end buff) else do
  n ← unpack_q (take end buff ++ replicate (8 - end) 0)
  ok (record d { value = number (pos n) }, drop end buff)

from_fixed : VarType → Datum → ℕ → Bytes → Result Parsed
unfolding fixed_number
from_fixed byte d end buff = ok (record d { value = raw (take end buff) }, drop end buff)
from_fixed string d end buff = ok (record d { value = raw (take end buff) }, drop end buff)
from_fixed _ d end buff = fixed_number d end buff

-- the value loses its last byte, the zero
nul_at : Option ℕ → Datum → Bytes → Result Parsed
nul_at none d buff = err value_error
nul_at (some j) d buff = ok (record d { value = raw (take j buff) }, drop (j + 1) buff)

from_buff : VarType → VarLen → Datum → Bytes → Result Parsed
unfolding from_lenenc find_nul from_fixed nul_at
from_buff t lenenc d buff = from_lenenc d buff
from_buff t eof d buff = ok (record d { var_len = fixed (length buff); value = raw buff }, [])
from_buff string nul d buff = nul_at (find_nul buff) d buff
from_buff _ nul d buff = err value_error
from_buff t (fixed n) d buff = from_fixed t d n buff

unfoldable pub set_from_buff : Datum → Bytes → Result Parsed
unfolding from_buff
set_from_buff d buff = from_buff d.var_type d.var_len d buff
