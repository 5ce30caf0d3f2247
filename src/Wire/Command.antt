-- ===== src/Wire/Command.antt =====
-- mindsdb/api/mysql/mysql_proxy/data_types/mysql_packets/command_packet.py: a command from the body of
-- a packet. The proofs are in the modules below.
pub mod Params
pub mod Parse
use mindsdb.Common.{
  ℕ, zero, suc, ◌+◌, ◌/◌, ◌%◌, ◌^◌, Bool, true, false, ◌||◌, Option, none, some, List, [], ◌∷◌,
  ◌++◌, ltb, ◌==◌, if◌then◌else◌, length, Bytes, ℤ, pos, negsuc, Result, ok, err, struct_error,
  index_error, key_error, type_error, unicode_error, unsupported_type, ◌>>=◌,
}
use mindsdb.Common.Dict.{lookup}
use mindsdb.Wire.Text.{decodes}
use mindsdb.Wire.Datum.{
  VarType, VarLen, int, string, str, lenenc, eof, fixed, Value, null, number, raw, text, tuple,
  Datum, datum, set_from_buff,
}
use mindsdb.Wire.Statements.{Statements, PreparedStmt}

-- A statement's parameter: `None`, a number, or a `str` by its UTF-8 bytes.
pub data Param : Type 0 where
  null_param : Param
  number_param : ℕ → Param
  text_param : Bytes → Param

-- What `setup` stores, by the type of the command; `no_command` is a packet of length 0.
pub data Command : Type 0 where
  no_command : Command
  query : Bytes → Command
  stmt_prepare : Bytes → Command
  stmt_execute : ℕ → ℕ → ℕ → List Param → Command
  stmt_close : ℕ → Command
  stmt_fetch : ℕ → ℕ → Command
  init_db : Bytes → Command
  other : ℕ → Bytes → Command

-- `_read_byte`
read_byte : Bytes → Result (ℕ × Bytes)
read_byte [] = err struct_error
read_byte (b ∷ buffer) = ok (b, buffer)

-- `((1 << i) & b) != 0`
bit : ℕ → ℕ → Bool
bit i b = b / 2 ^ i % 2 == 1

unfoldable pub bits : ℕ → List Bool
unfolding bit
bits b = bit 0 b ∷ bit 1 b ∷ bit 2 b ∷ bit 3 b ∷ bit 4 b ∷ bit 5 b ∷ bit 6 b ∷ bit 7 b ∷ []

read_nulls : ℕ → Bytes → Result (List Bool × Bytes)
unfolding read_byte bits
read_nulls zero buffer = ok ([], buffer)
read_nulls (suc n) buffer = do
  (b, buffer1) ← read_byte buffer
  (nulls, buffer2) ← read_nulls n buffer1
  ok (bits b ++ nulls, buffer2)

-- the types of the parameters; the byte of the sign is read and not used
read_types : ℕ → Bytes → Result (List ℕ × Bytes)
unfolding read_byte
read_types zero buffer = ok ([], buffer)
read_types (suc n) buffer = do
  (t, buffer1) ← read_byte buffer
  (s, buffer2) ← read_byte buffer1
  (types, buffer3) ← read_types n buffer2
  ok (t ∷ types, buffer3)

-- `datumtypes`: VAR_STRING 253, STRING 254, VARCHAR 15, TINY 1, SHORT 2, LONG 3, LONGLONG 8
pub datum_type : ℕ → Option Datum
datum_type t =
    if t == 253 || (t == 254 || t == 15)
    then some (datum string lenenc)
    else if t == 1
    then some (datum int (fixed 1))
    else if t == 2
    then some (datum int (fixed 2))
    else if t == 3
    then some (datum int (fixed 4))
    else if t == 8
    then some (datum int (fixed 8))
    else none

-- `x.value`, decoded if it is `bytes`
param_of : Value → Result Param
unfolding decodes
param_of (raw bs) = if decodes bs then ok (text_param bs) else err unicode_error
param_of (number (pos n)) = ok (number_param n)
param_of _ = err type_error

read_value : List ℕ → Bytes → Result (Param × Bytes)
unfolding datum_type param_of
read_value [] buffer = err index_error
read_value (t ∷ types) buffer = elim (datum_type t) [
  | none ↦ err unsupported_type
  | some x ↦ do (x', rest) ← set_from_buff x buffer; p ← param_of x'.value; ok (p, rest)
]

abbrev pub tail_types : List ℕ → List ℕ
tail_types [] = []
tail_types (t ∷ types) = types

-- The loop over the parameters; `nulls` has at least `n` elements, and `types` has `n` or none.
read_values : ℕ → List Bool → List ℕ → Bytes → Result (List Param)
unfolding read_value
read_values zero nulls types buffer = ok []
read_values (suc n) [] types buffer = err index_error
read_values (suc n) (true ∷ nulls) types buffer = do
  ps ← read_values n nulls (tail_types types) buffer
  ok (null_param ∷ ps)
read_values (suc n) (false ∷ nulls) types buffer = do
  (p, rest) ← read_value types buffer
  ps ← read_values n nulls (tail_types types) rest
  ok (p ∷ ps)

-- `read_params`: what it appends to `self.parameters`
pub read_params : Bytes → ℕ → Result (List Param)
unfolding read_nulls read_byte read_types read_values
read_params buffer zero = ok []
read_params buffer (suc m) = do
  let n = suc m
  (nulls, buffer1) ← read_nulls ((n + 7) / 8) buffer
  (b, buffer2) ← read_byte buffer1
  (types, buffer3) ← if b == 1 then read_types n buffer2 else ok ([], buffer2)
  read_values n nulls types buffer3

-- a field of the packet that is a number of `n` bytes
read_int : ℕ → Bytes → Result (ℕ × Bytes)
unfolding set_from_buff
read_int n buffer = do
  (d, rest) ← set_from_buff (datum int (fixed n)) buffer
  elim d.value [
    | number v ↦ elim v [ pos k ↦ ok (k, rest) | _ ↦ err type_error ]
    | _ ↦ err type_error
  ]

-- a field that is the rest of the packet
read_rest : Bytes → Result Bytes
unfolding set_from_buff
read_rest buffer = do
  (d, rest) ← set_from_buff (datum str eof) buffer
  elim d.value [ raw bs ↦ ok bs | _ ↦ err type_error ]

num_params : Option PreparedStmt → Result ℕ
num_params none = err key_error
num_params (some p) = ok (length p.statement.params)

setup_execute : Statements → Bytes → Result Command
unfolding num_params
setup_execute prepared_stmts buffer = do
  (stmt_id, buffer1) ← read_int 4 buffer
  (flags, buffer2) ← read_int 1 buffer1
  (iteration_count, buffer3) ← read_int 4 buffer2
  n ← num_params (lookup stmt_id prepared_stmts)
  parameters ← read_params buffer3 n
  ok (stmt_execute stmt_id flags iteration_count parameters)

setup_as : Statements → ℕ → Bytes → Result Command
unfolding read_rest setup_execute
setup_as prepared_stmts t buffer =
    if t == 0x03
    then (do sql ← read_rest buffer; ok (query sql))
    else if t == 0x16
    then (do sql ← read_rest buffer; ok (stmt_prepare sql))
    else if t == 0x17
    then setup_execute prepared_stmts buffer
    else if t == 0x19
    then (do (stmt_id, rest) ← read_int 4 buffer; ok (stmt_close stmt_id))
    else if t == 0x1c
    then (do
      (stmt_id, buffer1) ← read_int 4 buffer
      (limit, buffer2) ← read_int 4 buffer1
      ok (stmt_fetch stmt_id limit))
    else if t == 0x02
    then (do database ← read_rest buffer; ok (init_db database))
    else (do content ← read_rest buffer; ok (other t content))

pub setup : Statements → ℕ → Bytes → Result Command
unfolding setup_as
setup prepared_stmts length body =
    if length == 0
    then ok no_command
    else do (t, buffer) ← read_int 1 body; setup_as prepared_stmts t buffer
