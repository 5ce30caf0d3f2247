-- ===== src/Auth.antt =====
-- mindsdb/api/common/check_auth.py: who may connect, over either protocol.
pub mod Admitted
use mindsdb.Common.{
  ℕ, ◌≡◌, Bool, true, false, ◌||◌, not, Option, none, some, List, [], if◌then◌else◌, Bytes, Result,
  ok, err,
}
use mindsdb.Wire.Text.{utf8}
use mindsdb.Postgres.Builder.{bytes_eq}
use mindsdb.Postgres.Text.{text_eq}

-- `config['auth']`
pub record AuthConfig : Type 0 where
  pub username : Option (List ℕ)
  pub password : Option (List ℕ)

-- What `check_auth` returns; `nothing` is `None`, after an exception.
pub data AuthData : Type 0 where
  refused nothing : AuthData
  accepted : List ℕ → AuthData

abbrev pub password_or_empty : Option (List ℕ) → List ℕ
password_or_empty none = []
password_or_empty (some p) = p

abbrev pub is_user : List ℕ → Option (List ℕ) → Bool
is_user username none = false
is_user username (some u) = text_eq username u

-- with what `scramble_func` of external_libs makes of the configured password; `password` is encoded
unfoldable pub check_password : List ℕ → Bytes → AuthConfig → Result Bytes → AuthData
check_password username password config (err e) = nothing
check_password username password config (ok hash) =
    let hardcoded = utf8 (password_or_empty config.password) in
    if not (is_user username config.username)
    then refused
    else if bytes_eq password hardcoded || bytes_eq password hash
    then accepted username
    else refused

unfoldable pub check_auth :
    (List ℕ → List ℕ → Result Bytes) → List ℕ → Bytes → List ℕ → AuthConfig → AuthData
unfolding check_password
check_auth scramble_func username password salt config =
    check_password username password config (scramble_func (password_or_empty config.password) salt)

-- What `server.check_auth` and the salt are: the configuration, and `scramble_func`.
pub record Server : Type 0 where
  pub auth_config : AuthConfig
  pub scramble_func : List ℕ → List ℕ → Result Bytes
  pub salt : List ℕ

-- the check of a user with the bytes of a password
unfoldable pub checked : Server → List ℕ → Bytes → AuthData
unfolding check_auth
checked server username password =
    check_auth server.scramble_func username password server.salt server.auth_config
