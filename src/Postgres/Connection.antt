-- ===== src/Postgres/Connection.antt =====
-- `PostgresProxyHandler.handle` of postgres_proxy.py: the handshake, the authentication, and the loop.
pub mod Authentication
use mindsdb.Common.{
  ℕ, ◌≡◌, refl, Bool, true, false, Option, none, some, List, [], ◌∷◌, ◌++◌, arith, Bytes, codes,
  Result, ok, err, type_error, key_error, attribute_error,
}
use mindsdb.Wire.Text.Decode.{decode}
use mindsdb.Postgres.Backend.{
  authentication_ok, authentication_clear_text_password, connection_failure, parameter_status,
}
use mindsdb.Postgres.Executor.{Engine}
use mindsdb.Postgres.Reader.{Reader}
use mindsdb.Postgres.Startup.{
  Startup, bytes_of, lookup, read_verify_ssl_request, read_startup_message, read_authentication,
}
use mindsdb.Auth.{Server, AuthData, refused, nothing, accepted, checked}
use mindsdb.Wire.Text.{utf8}
use mindsdb.Common.Method.{M, continue, ◌>>=◌, ◌>>◌, return, lift}
use mindsdb.Postgres.Proxy.{Proxy, send_message}
use mindsdb.Postgres.Handlers.{main_loop}

abbrev charset : Bytes
charset = codes "utf8"

abbrev value_or : Option Bytes → Bytes → Bytes
value_or none v = v
value_or (some w) v = w

abbrev user_of : Option Bytes → Result (List ℕ)
user_of none = err key_error
user_of (some name) = decode name

-- `self.user_parameters[b'user'].decode(encoding=self.charset)`
unfoldable pub username_of : Option Startup → Result (List ℕ)
unfolding lookup decode
username_of none = err type_error
username_of (some u) = user_of (bytes_of (lookup (codes "user") u))

module _ {Q S : Type 0} where
  -- a read of `client_buffer`
  abbrev taken : {A : Type 0} → Proxy Q S → Result (A × Bytes) → Result A × Proxy Q S
  taken p (ok (a, rest)) = (ok a, record p { rfile = rest })
  taken p (err e) = (err e, p)

  read_by : {A : Type 0} → Reader A → M (Proxy Q S) A
  read_by read p = taken p (read p.rfile)

  -- `write_char`
  write_char : ℕ → M (Proxy Q S) (Unit {0})
  write_char c p = (ok tt, record p { wfile = p.wfile ++ c ∷ [] })

  set_parameters : Startup → M (Proxy Q S) (Unit {0})
  set_parameters parameters p = (ok tt, record p { user_parameters = some parameters })

  unfoldable pub handshake : M (Proxy Q S) (Unit {0})
  unfolding read_by write_char set_parameters read_verify_ssl_request read_startup_message
  handshake = do
    read_by read_verify_ssl_request
    write_char b'N'
    parameters ← read_by read_startup_message
    set_parameters parameters

  admit : List ℕ → M (Proxy Q S) Bool
  unfolding send_message
  admit name p =
      (do send_message authentication_ok; return true) (record p { auth = true; username = name })

  -- the outcome of `check_auth`; `None['success']` raises
  decide : M (Proxy Q S) Bool → AuthData → M (Proxy Q S) Bool
  unfolding admit
  decide otherwise (accepted name) = admit name
  decide otherwise refused = otherwise
  decide otherwise nothing = lift (err type_error)

  fail : M (Proxy Q S) Bool
  unfolding send_message connection_failure
  fail = do send_message (connection_failure (some (codes "Authentication failed."))); return false

  unfoldable pub send_initial_data : M (Proxy Q S) (Unit {0})
  unfolding send_message lookup
  send_initial_data p = elim p.user_parameters [
    | none ↦ (err attribute_error, p)
    | some u ↦
        (do
          send_message (parameter_status (codes "server_version") (codes "14.6"))
          send_message (parameter_status (codes "server_encoding") charset)
          send_message (
              parameter_status (codes "client_encoding")
                (value_or (bytes_of (lookup (codes "client_encoding") u)) charset)))
          p
  ]

module _ {Q S : Type 0} (server : Server) where
  abbrev with_password : List ℕ → M (Proxy Q S) Bool
  with_password password p =
      continue (λ username. decide fail (checked server username (utf8 password)))
        (username_of p.user_parameters, p)

  -- `authenticate(ask_for_password=True)`
  authenticate_asking : M (Proxy Q S) Bool
  unfolding send_message read_by read_authentication username_of decide fail checked
  authenticate_asking = do
    send_message authentication_clear_text_password
    password ← read_by read_authentication
    with_password password

  -- `authenticate()`: the user is asked for a password where the empty one is not right
  unfoldable pub authenticate : M (Proxy Q S) Bool
  unfolding authenticate_asking username_of decide checked
  authenticate p =
      (do
        username ← lift (username_of p.user_parameters)
        decide authenticate_asking (checked server username []))
        p

  unfoldable pub start_connection : M (Proxy Q S) Bool
  unfolding handshake authenticate
  start_connection = do handshake; authenticate

module _ {Q S : Type 0} (engine : Engine Q S) (server : Server) where
  when_started : Bool → M (Proxy Q S) (Unit {0})
  unfolding send_initial_data main_loop
  when_started false = return tt
  when_started true = do send_initial_data; main_loop engine

  -- `handle`, with what `is_cloud_connection` says; such a connection skips the handshake
  unfoldable pub serve : Bool → M (Proxy Q S) (Unit {0})
  unfolding when_started start_connection
  serve true = when_started true
  serve false = do started ← start_connection server; when_started started
