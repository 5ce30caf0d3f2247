-- ===== src/Postgres/Frontend.antt =====
-- The messages that a client sends, in postgres_packets/postgres_message_formats.py: `read` of each
-- class, and `read_message` of postgres_packets/postgres_packets.py.
pub mod RoundTrip
pub mod Progress
use mindsdb.Common.{
  ℕ, zero, suc, ◌+◌, ◌-◌, ◌≡◌, refl, Bool, true, false, Option, none, some, List, [], ◌∷◌, ◌++◌,
  arith, ltb, ◌==◌, ◌||◌, if◌then◌else◌, Bytes, codes, ℤ, pos, negsuc, Result, ok, err,
  unsupported_message_type,
}
use mindsdb.Postgres.Reader.{
  Reader, ◌>>=◌, return, read_bytes, read_byte, read_string, read_int16, read_int32, repeat, count,
}

pub record Parse : Type 0 where
  pub name : Bytes
  pub query : Bytes
  pub parameters : List ℤ

-- `None` among the parameters is SQL's NULL.
pub record Bind : Type 0 where
  pub name : Bytes
  pub statement_name : Bytes
  pub format_codes : List ℤ
  pub parameters : List (Option Bytes)
  pub result_format_codes : List ℤ

-- The classes of FE_MESSAGE_MAP, with the attributes that are used.
pub data FrontendMessage : Type 0 where
  query : Bytes → FrontendMessage
  terminate : FrontendMessage
  parse : Parse → FrontendMessage
  bind : Bind → FrontendMessage
  execute : Bytes → ℤ → FrontendMessage
  sync : FrontendMessage
  describe : ℕ → Bytes → FrontendMessage

-- `length - 4`
unfoldable pub minus_four : ℤ → ℤ
minus_four (pos n) = if ltb n 4 then negsuc (3 - n) else pos (n - 4)
minus_four (negsuc n) = negsuc (n + 4)

read_query : Reader FrontendMessage
unfolding read_int32 read_bytes minus_four
read_query = do length ← read_int32; sql ← read_bytes (minus_four length); return (query sql)

read_parse : Reader FrontendMessage
unfolding read_int32 read_string read_int16 repeat
read_parse = do
  length ← read_int32
  name ← read_string
  sql ← read_string
  num_params ← read_int16
  parameters ← repeat (count num_params) read_int32
  return (parse (record { name = name; query = sql; parameters = parameters }))

-- a value of the length that was read; `param_length == -1` is NULL
param_value : ℤ → Reader (Option Bytes)
unfolding read_bytes
param_value (negsuc zero) = return none
param_value param_length = do value ← read_bytes param_length; return (some value)

read_param : Reader (Option Bytes)
unfolding read_int32 param_value
read_param = do param_length ← read_int32; param_value param_length

read_bind : Reader FrontendMessage
unfolding read_int32 read_string read_int16 read_param repeat
read_bind = do
  length ← read_int32
  name ← read_string
  statement_name ← read_string
  num_format_codes ← read_int16
  format_codes ← repeat (count num_format_codes) read_int16
  num_parameters ← read_int16
  parameters ← repeat (count num_parameters) read_param
  num_result_format_codes ← read_int16
  result_format_codes ← repeat (count num_result_format_codes) read_int16
  return (
      bind (record {
        name = name;
        statement_name = statement_name;
        format_codes = format_codes;
        parameters = parameters;
        result_format_codes = result_format_codes;
      }))

read_execute : Reader FrontendMessage
unfolding read_int32 read_string
read_execute = do
  length ← read_int32
  name ← read_string
  max_rows_ret ← read_int32
  return (execute name max_rows_ret)

-- `BaseFrontendMessage.read`: a body is read and not used
abbrev longer_than_four : ℤ → Bool
longer_than_four (pos n) = ltb 4 n
longer_than_four (negsuc n) = false

read_sync : Reader FrontendMessage
unfolding read_int32 read_bytes minus_four
read_sync = do
  length ← read_int32
  if longer_than_four length
      then (read_bytes (minus_four length) >>= λ response. return sync)
      else return sync

read_describe : Reader FrontendMessage
unfolding read_int32 read_byte read_string
read_describe = do
  length ← read_int32
  describe_type ← read_byte
  name ← read_string
  return (describe describe_type name)

-- `self.fe_message_map[message_type]().read(self)`; the SSL request b'F' is an identifier without class
read_as : ℕ → Reader FrontendMessage
unfolding read_query read_parse read_bind read_execute read_sync read_describe
read_as message_type =
    if message_type == b'Q'
    then read_query
    else if message_type == b'X'
    then return terminate
    else if message_type == b'P'
    then read_parse
    else if message_type == b'B'
    then read_bind
    else if message_type == b'E'
    then read_execute
    else if message_type == b'S'
    then read_sync
    else if message_type == b'D'
    then read_describe
    else λ buffer. err unsupported_message_type

-- `None` at the end of the connection
unfoldable pub read_message : Reader (Option FrontendMessage)
unfolding read_as
read_message [] = ok (none, [])
read_message (message_type ∷ buffer) =
    (read_as message_type >>= λ message. return (some message)) buffer
