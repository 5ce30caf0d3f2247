-- ===== src/Wire/Connection.antt =====
-- `MysqlProxy.handshake` of mindsdb/api/mysql/mysql_proxy/mysql_proxy.py: who a client is, and whether
-- it is let in. The sequence numbers of the packets that are sent are left out.
pub mod Admission
mod Examples
use mindsdb.Common.{
  ℕ, Bool, true, false, ◌&&◌, not, Option, none, some, List, [], ◌∷◌, ◌++◌, if◌then◌else◌, Bytes,
  codes, Result, ok, err, type_error, attribute_error,
}
use mindsdb.Common.Method.{M, continue, ◌>>=◌, ◌>>◌, return, lift}
use mindsdb.Auth.{Server, AuthData, refused, nothing, accepted, checked}
use mindsdb.Postgres.Text.{text_eq}
use mindsdb.Postgres.Builder.{bytes_eq}
use mindsdb.Wire.Text.{utf8}
use mindsdb.Wire.Text.Decode.{decode}
use mindsdb.Wire.Datum.{Value, raw, text}
use mindsdb.Wire.Packet.{Socket, Received, get}
use mindsdb.Wire.Handshake.{
  Response, ssl_request, handshake_response, setup, switch_out_password, password_answer,
}

-- What is sent during a handshake.
pub data Reply : Type 0 where
  greeting ok_packet fast_auth_fail : Reply
  switch_out : List ℕ → Reply
  err_packet : ℕ → List ℕ → Reply

-- The state of a connection that the handshake changes.
pub record Connection : Type 0 where
  pub socket : Socket
  pub sent : List Reply
  pub client_capabilities : Option ℕ
  pub is_ssl : Bool
  pub username : Value
  pub database : Option (List ℕ)
  pub auth : Bool

abbrev caching_sha2_password : List ℕ
caching_sha2_password = codes "caching_sha2_password"

abbrev mysql_native_password : List ℕ
mysql_native_password = codes "mysql_native_password"

-- `ERR.ER_PASSWORD_NO_MATCH`
abbrev password_no_match : ℕ
password_no_match = 1133

-- The attributes of a response; those of an SSL request are empty.
abbrev pub capabilities_of : Response → ℕ
capabilities_of (ssl_request c) = c
capabilities_of (handshake_response c username enc_password database plugin) = c

abbrev pub username_of : Response → Bytes
username_of (ssl_request c) = []
username_of (handshake_response c username enc_password database plugin) = username

abbrev pub enc_password_of : Response → Bytes
enc_password_of (ssl_request c) = []
enc_password_of (handshake_response c username enc_password database plugin) = enc_password

abbrev pub database_of : Response → Bytes
database_of (ssl_request c) = []
database_of (handshake_response c username enc_password database plugin) = database

abbrev pub plugin_of : Response → Bytes
plugin_of (ssl_request c) = []
plugin_of (handshake_response c username enc_password database plugin) = plugin

send : Reply → M Connection (Unit {0})
send m p = (ok tt, record p { sent = p.sent ++ m ∷ [] })

-- `get`; nothing is read after it returns `False`
abbrev taken : Connection → Result (Option Received) → Result (Option Bytes) × Connection
taken p (ok (some r)) = (ok (some r.packet.body), record p { socket = r.socket })
taken p (ok none) = (ok none, p)
taken p (err e) = (err e, p)

receive : M Connection (Option Bytes)
unfolding get
receive p = taken p (get p.socket)

-- `setup` stores the name in the session
stored : Option Response → M Connection (Option Response)
stored none p = (ok none, p)
stored (some r) p = (ok (some r), record p { username = raw (username_of r) })

set_up : ℕ → Option Bytes → M Connection (Option Response)
unfolding stored setup
set_up capabilities none p = (ok none, p)
set_up capabilities (some body) p = continue stored (setup capabilities body, p)

receive_response : ℕ → M Connection (Option Response)
unfolding receive set_up
receive_response capabilities = do body ← receive; set_up capabilities body

-- the password of an answer to a switch; without an answer it is the empty one
abbrev answered : Option Bytes → Result Bytes
answered none = ok []
answered (some body) = switch_out_password body

module _ (server : Server) where
  -- an empty password of the native method is scrambled
  native_or : List ℕ → Bytes → Result Bytes
  unfolding text_eq
  native_or method [] =
      if text_eq method mysql_native_password then server.scramble_func [] server.salt else ok []
  native_or method (b ∷ bs) = ok (b ∷ bs)

  -- `switch_auth`
  unfoldable pub switch_auth : List ℕ → M Connection Bytes
  unfolding send receive native_or switch_out_password
  switch_auth method = do
    send (switch_out method)
    answer ← receive
    password ← lift (answered answer)
    lift (native_or method password)

-- `password_answer.password.value.decode()`, where every exception is caught
abbrev decoded : Option Bytes → Option Bytes
decoded none = none
decoded (some bs) = elim (decode bs) [ ok s ↦ some bs | err e ↦ none ]

abbrev password_of : Option Bytes → Result (Option Bytes)
password_of none = ok none
password_of (some body) = password_answer body

-- `None` is the empty password for `check_auth`
fast_password : Option Bytes → M Connection Bytes
unfolding send
fast_password (some bs) = return bs
fast_password none = do
  send (err_packet password_no_match (codes "Is not password in connection query."))
  return []

-- `get_fast_auth_password`
get_fast_auth_password : M Connection Bytes
unfolding send receive fast_password password_answer decode
get_fast_auth_password = do
  send fast_auth_fail
  answer ← receive
  password ← lift (password_of answer)
  fast_password (decoded password)

module _ (server : Server) where
  after_switch : List ℕ → Bytes → M Connection Bytes
  unfolding get_fast_auth_password text_eq bytes_eq
  after_switch new_method password =
      if text_eq new_method caching_sha2_password
      then (if bytes_eq password (0 ∷ []) then return [] else get_fast_auth_password)
      else return password

  -- a switch to another method; `none` ends the handshake
  switch_to : List ℕ → M Connection (Option Bytes)
  unfolding switch_auth after_switch send text_eq
  switch_to new_method p =
      if text_eq new_method caching_sha2_password && not p.is_ssl
      then (do
        send
            (err_packet password_no_match (codes "caching_sha2_password without SSL not supported"))
        return none)
          p
      else (do
        password ← switch_auth server new_method
        password' ← after_switch new_method password
        return (some password'))
          p

  new_method : List ℕ → List ℕ
  unfolding text_eq
  new_method client_auth_plugin =
      if text_eq client_auth_plugin caching_sha2_password
      then caching_sha2_password
      else mysql_native_password

  -- a method that is neither the default nor the native one
  switched : List ℕ → M Connection (Option Bytes)
  unfolding switch_to new_method
  switched client_auth_plugin = switch_to (new_method client_auth_plugin)

  -- The password, by the method of the client. The default method is `caching_sha2_password`, so that
  -- of the last three branches the first is taken.
  unfoldable pub ask_password : List ℕ → Bytes → M Connection (Option Bytes)
  unfolding switch_auth switched text_eq bytes_eq
  ask_password client_auth_plugin enc_password =
      if not (text_eq client_auth_plugin caching_sha2_password)
      then (if text_eq client_auth_plugin mysql_native_password
          then (do password ← switch_auth server mysql_native_password; return (some password))
          else switched client_auth_plugin)
      else if bytes_eq enc_password (0 ∷ [])
      then return (some [])
      else (do password ← switch_auth server mysql_native_password; return (some password))

  -- the outcome of `check_auth`; `None['success']` raises
  decide : List ℕ → AuthData → M Connection Bool
  unfolding send
  decide username (accepted name) p =
      (do send ok_packet; return true) (record p { username = text name; auth = true })
  decide username refused p =
      (do
        send (err_packet password_no_match (codes "Access denied for user " ++ username))
        return false)
        p
  decide username nothing p = (err type_error, p)

  abbrev database_or : Result (List ℕ) → Option (List ℕ)
  database_or (ok s) = some s
  database_or (err e) = none

  checking : List ℕ → Bytes → Option Bytes → M Connection Bool
  unfolding decide checked decode
  checking username database none p = (ok false, p)
  checking username database (some password) p =
      decide username (checked server username password)
        (record p { database = database_or (decode database) })

  -- what follows the response of the client
  unfoldable pub login : Response → List ℕ → M Connection Bool
  unfolding ask_password checking decode
  login r client_auth_plugin = do
    username ← lift (decode (username_of r))
    password ← ask_password client_auth_plugin (enc_password_of r)
    checking username (database_of r) password

module _ (server : Server) (capabilities : ℕ) (wrap_socket : Socket → Result Socket) where
  -- the second response, over SSL; without one its attributes are missing
  second : Option Response → M Connection Bool
  unfolding login decode
  second none p = (err attribute_error, p)
  second (some r) p = (lift (decode (plugin_of r)) >>= login server r) p

  over_ssl : Result Socket → M Connection Bool
  unfolding receive_response second
  over_ssl (err e) p = (err e, p)
  over_ssl (ok socket) p = (receive_response capabilities >>= second) (record p { socket = socket })

  by_type : Response → List ℕ → M Connection Bool
  unfolding over_ssl login
  by_type (ssl_request c) plugin p = over_ssl (wrap_socket p.socket) (record p { is_ssl = true })
  by_type r plugin p = login server r plugin (record p { is_ssl = false })

  first : Option Response → M Connection Bool
  unfolding by_type send decode
  first none p = (do send ok_packet; return false) p
  first (some r) p =
      (lift (decode (plugin_of r)) >>= by_type r)
        (record p { client_capabilities = some (capabilities_of r) })

  -- `handshake`
  unfoldable pub handshake : M Connection Bool
  unfolding send receive_response first
  handshake = do send greeting; r ← receive_response capabilities; first r
