-- ===== src/Wire/Handshake.antt =====
-- The packets of a login, of mindsdb/api/mysql/mysql_proxy/data_types/mysql_packets:
-- handshake_packet.py, handshake_response_packet.py, switch_auth_packet.py, password_answer.py and
-- fast_auth_fail_packet.py.
pub mod Login
use mindsdb.Common.{
  ℕ, suc, ◌+◌, ◌/◌, ◌%◌, ◌^◌, Bool, true, false, ◌&&◌, Option, none, some, List, [], ◌∷◌, ◌++◌,
  ◌==◌, if◌then◌else◌, length, take, drop, Bytes, codes, pos, Result, ok, err, type_error, ◌>>=◌,
}
use mindsdb.Wire.Datum.{
  VarLen, int, string, lenenc, nul, eof, fixed, number, raw, text, Datum, datum, datum_of,
  set_from_buff,
}
use mindsdb.Wire.Replies.{int_datum, pack_all}

-- the fields of a text of Python
abbrev nul_text : List ℕ → Datum
nul_text s = datum_of string nul (text s)

abbrev fixed_text : ℕ → List ℕ → Datum
fixed_text n s = datum_of string (fixed n) (text s)

-- `HandshakePacket.body`; the capabilities are those of the server
unfoldable pub handshake_body : ℕ → ℕ → List ℕ → Result Bytes
handshake_body capabilities connection_id salt = pack_all (
    int_datum 1 10
    ∷ nul_text (codes "5.7.1-MindsDB-1.0")
    ∷ int_datum 4 connection_id
    ∷ fixed_text 8 (take 8 salt)
    ∷ fixed_text 1 []
    ∷ int_datum 2 capabilities
    ∷ int_datum 1 83
    ∷ int_datum 2 2
    ∷ int_datum 2 (capabilities / 65536)
    ∷ int_datum 1 21
    ∷ fixed_text 6 []
    ∷ fixed_text 4 []
    ∷ nul_text (drop 8 salt)
    ∷ nul_text (codes "caching_sha2_password")
    ∷ [])

-- `SwitchOutPacket.body`
unfoldable pub switch_out_body : List ℕ → List ℕ → Result Bytes
switch_out_body method seed = pack_all (int_datum 1 0xfe ∷ nul_text method ∷ nul_text seed ∷ [])

-- `has`, of a capability that is one bit
unfoldable pub has : ℕ → ℕ → Bool
has capabilities bit = capabilities / 2 ^ bit % 2 == 1

-- The bits of `CAPABILITIES`.
abbrev connect_with_db : ℕ
connect_with_db = 3

abbrev secure_connection : ℕ
secure_connection = 15

abbrev plugin_auth : ℕ
plugin_auth = 19

abbrev plugin_auth_lenenc_client_data : ℕ
plugin_auth_lenenc_client_data = 21

-- `FastAuthFail.body`
unfoldable pub fast_auth_fail_body : Result Bytes
fast_auth_fail_body = pack_all (int_datum 1 4 ∷ [])

-- What `HandshakeResponsePacket.setup` stores and is used after it.
pub data Response : Type 0 where
  ssl_request : ℕ → Response
  handshake_response : ℕ → Bytes → Bytes → Bytes → Bytes → Response

read_number : ℕ → Bytes → Result (ℕ × Bytes)
unfolding set_from_buff
read_number n buffer = do
  (d, rest) ← set_from_buff (datum int (fixed n)) buffer
  elim d.value [
    | number v ↦ elim v [ pos k ↦ ok (k, rest) | _ ↦ err type_error ]
    | _ ↦ err type_error
  ]

read_raw : VarLen → Bytes → Result (Bytes × Bytes)
unfolding set_from_buff
read_raw l buffer = do
  (d, rest) ← set_from_buff (datum string l) buffer
  elim d.value [ raw bs ↦ ok (bs, rest) | _ ↦ err type_error ]

-- the password: with its length as a string, behind a byte of its length, or not read but for a byte
read_password : Bool → Bool → Bytes → Result (Bytes × Bytes)
unfolding read_number read_raw
read_password true secure buffer = read_raw lenenc buffer
read_password false true buffer = do
  (auth_resp_len, buffer1) ← read_number 1 buffer
  read_raw (fixed auth_resp_len) buffer1
read_password false false buffer = do (pass_byte, buffer1) ← read_number 1 buffer; ok ([], buffer1)

-- a field that a capability announces
read_if : Bool → Bytes → Result (Bytes × Bytes)
unfolding read_raw
read_if true buffer = read_raw nul buffer
read_if false buffer = ok ([], buffer)

-- both sides of a connection must have the capability
unfoldable pub both : ℕ → ℕ → ℕ → Bool
unfolding has
both server client bit = has server bit && has client bit

read_ssl_request : Bytes → Result Response
unfolding read_number
read_ssl_request buffer = do
  (capabilities, buffer1) ← read_number 4 buffer
  (max_packet_size, buffer2) ← read_number 4 buffer1
  (charset, buffer3) ← read_number 1 buffer2
  ok (ssl_request capabilities)

-- the fields that follow the name of the user
read_tail : ℕ → ℕ → Bytes → Bytes → Result Response
unfolding read_password read_if both has
read_tail server capabilities username buffer = do
  (enc_password, buffer1) ←
      read_password (both server capabilities plugin_auth_lenenc_client_data)
        (both server capabilities secure_connection) buffer
  (database, buffer2) ← read_if (has capabilities connect_with_db) buffer1
  (client_auth_plugin, buffer3) ← read_if (has capabilities plugin_auth) buffer2
  ok (handshake_response capabilities username enc_password database client_auth_plugin)

read_response : ℕ → Bytes → Result Response
unfolding read_number read_raw read_tail
read_response server buffer = do
  (capabilities, buffer1) ← read_number 4 buffer
  (max_packet_size, buffer2) ← read_number 4 buffer1
  (charset, buffer3) ← read_number 1 buffer2
  (reserved, buffer4) ← read_raw (fixed 23) buffer3
  (username, buffer5) ← read_raw nul buffer4
  read_tail server capabilities username buffer5

all_zero : Bytes → Bool
all_zero [] = true
all_zero (b ∷ bs) = b == 0 && all_zero bs

-- `setup`; a packet of length 0 stores nothing
unfoldable pub setup : ℕ → Bytes → Result (Option Response)
unfolding read_ssl_request read_response all_zero
setup server [] = ok none
setup server (b ∷ bs) = do
  let body = b ∷ bs
  response ←
      if length body == 32 && all_zero (drop 9 body)
      then read_ssl_request body
      else read_response server body
  ok (some response)

-- `SwitchOutResponse.setup`: the password is the whole body
unfoldable pub switch_out_password : Bytes → Result Bytes
unfolding read_raw
switch_out_password [] = ok []
switch_out_password (b ∷ bs) = do (password, rest) ← read_raw eof (b ∷ bs); ok password

-- `PasswordAnswer.setup`; an empty packet has no password
unfoldable pub password_answer : Bytes → Result (Option Bytes)
unfolding read_raw
password_answer [] = ok none
password_answer (b ∷ bs) = do (password, rest) ← read_raw nul (b ∷ bs); ok (some password)
