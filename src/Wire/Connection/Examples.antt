-- ===== src/Wire/Connection/Examples.antt =====
-- The theorems on the handshake of the MySQL server at concrete values.
use mindsdb.Common.{◌≡◌, refl, false, none, some, [], ◌∷◌, codes, ok}
use mindsdb.Auth.{Server}
use mindsdb.Wire.Text.{lead, utf8}
use mindsdb.Wire.Datum.{null}
use mindsdb.Wire.Handshake.{Response, handshake_response}
use mindsdb.Wire.Connection.{Connection, ask_password, login}
use mindsdb.Wire.Connection.Admission.{LetIn, native_instead, login-LetIn, ask_password_lem}

abbrev server : Server
server = record {
  auth_config = record { username = some (codes "mindsdb"); password = none };
  scramble_func = λ password salt. ok (1 ∷ 2 ∷ []);
  salt = codes "salt";
}

abbrev response : Response
response = handshake_response 557064 (codes "mindsdb") (0 ∷ []) [] (codes "caching_sha2_password")

-- The client answers a switch with two bytes.
abbrev connection : Connection
connection = record {
  socket = (2 ∷ 0 ∷ 0 ∷ 3 ∷ []) ∷ (1 ∷ 2 ∷ []) ∷ [];
  sent = [];
  client_capabilities = none;
  is_ssl = false;
  username = null;
  database = none;
  auth = false;
}

login-LetIn_example : LetIn server response (codes "mysql_clear_password") connection
unfolding login lead utf8
login-LetIn_example = login-LetIn server response (codes "mysql_clear_password") connection refl

ask_password_lem_example :
    ask_password server (codes "mysql_clear_password") [] connection
    ≡ native_instead server (codes "mysql_clear_password") [] connection
ask_password_lem_example = ask_password_lem server (codes "mysql_clear_password") [] connection
