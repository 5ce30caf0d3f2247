-- ===== src/Postgres/Startup.antt =====
-- What a connection reads before its first message, in postgres_packets/postgres_packets.py:
-- `read_verify_ssl_request`, `read_startup_message` and `read_authentication`.
pub mod Parameters
use mindsdb.Common.{
  ℕ, ◌+◌, ◌-◌, ◌/◌, ◌%◌, ◌≡◌, refl, Bool, true, false, ◌&&◌, ◌||◌, not, Option, none, some, List,
  [], ◌∷◌, ◌++◌, arith, ltb, ◌==◌, if◌then◌else◌, Bytes, codes, ℤ, pos, negsuc, Result, ok, err,
  index_error, type_error, unsupported_ssl_request, unsupported_auth,
}
use mindsdb.Wire.Text.{utf8}
use mindsdb.Wire.Text.Decode.{decode}
use mindsdb.Postgres.Builder.{bytes_eq}
use mindsdb.Postgres.Text.{strip_null_byte, text_eq}
use mindsdb.Postgres.Frontend.{minus_four}
use mindsdb.Postgres.Reader.{Reader, ◌>>=◌, return, unpacked, read_bytes, read_byte, read_int32}

-- A dictionary with keys of `bytes`.
abbrev pub BytesDict : Type 0 → Type 0
BytesDict V = List (Bytes × V)

module _ {V : Type 0} where
  unfoldable pub lookup : Bytes → BytesDict V → Option V
  unfolding bytes_eq
  lookup k [] = none
  lookup k ((j, v) ∷ d) = if bytes_eq j k then some v else lookup k d

  unfoldable pub insert : Bytes → V → BytesDict V → BytesDict V
  unfolding bytes_eq
  insert k v [] = (k, v) ∷ []
  insert k v ((j, w) ∷ d) = if bytes_eq j k then (k, v) ∷ d else (j, w) ∷ insert k v d

-- A value in the dictionary of `read_startup_message`: one that the client sent, or half of the version.
pub data Parameter : Type 0 where
  as_bytes : Bytes → Parameter
  as_int : ℤ → Parameter

abbrev pub Startup : Type 0
Startup = BytesDict Parameter

-- the bytes under a name, which is not that of a version
abbrev pub bytes_of : Option Parameter → Option Bytes
bytes_of none = none
bytes_of (some (as_bytes value)) = some value
bytes_of (some (as_int n)) = none

-- equality of numbers
abbrev int_eq : ℤ → ℕ → Bool
int_eq (pos n) m = n == m
int_eq (negsuc n) m = false

-- the request is refused only if neither its length nor its code is right
ssl_request : ℤ → ℤ → Reader (Unit {0})
ssl_request length code buffer =
    if not (int_eq length 8) && not (int_eq code 80877103)
    then err unsupported_ssl_request
    else ok (tt, buffer)

unfoldable pub read_verify_ssl_request : Reader (Unit {0})
unfolding ssl_request read_int32
read_verify_ssl_request = do length ← read_int32; code ← read_int32; ssl_request length code

-- `data.split(b'\x00')`
abbrev pub onto_first : ℕ → List Bytes → List Bytes
onto_first b [] = (b ∷ []) ∷ []
onto_first b (piece ∷ pieces) = (b ∷ piece) ∷ pieces

unfoldable pub split_zeros : Bytes → List Bytes
split_zeros [] = [] ∷ []
split_zeros (b ∷ bs) = let rest = split_zeros bs in if b == 0 then [] ∷ rest else onto_first b rest

-- The two `pop(0)` of a round; the second raises at the end of the list.
unfoldable pub pop_pairs : List Bytes → Startup → Result Startup
unfolding insert
pop_pairs [] parameters = ok parameters
pop_pairs (key ∷ []) parameters = err index_error
pop_pairs (key ∷ (value ∷ message)) parameters =
    pop_pairs message (insert key (as_bytes value) parameters)

-- `length - 8`
abbrev pub minus_eight : ℤ → ℤ
minus_eight (pos n) = if ltb n 8 then negsuc (7 - n) else pos (n - 8)
minus_eight (negsuc n) = negsuc (n + 8)

-- `version >> 16` and `version & 0xffff`
abbrev pub high_half : ℤ → ℤ
high_half (pos n) = pos (n / 65536)
high_half (negsuc n) = negsuc (n / 65536)

abbrev pub low_half : ℤ → ℕ
low_half (pos n) = n % 65536
low_half (negsuc n) = 65535 - n % 65536

-- the halves of the version replace what the client sent under their names
unfoldable pub with_version : ℤ → Startup → Startup
unfolding insert
with_version version parameters =
    insert (codes "minor_version") (as_int (pos (low_half version)))
      (insert (codes "major_version") (as_int (high_half version)) parameters)

unfoldable pub read_startup_message : Reader Startup
unfolding read_int32 read_bytes split_zeros pop_pairs with_version
read_startup_message = do
  length ← read_int32
  version ← read_int32
  message ← read_bytes (minus_eight length)
  parameters ← unpacked (pop_pairs (split_zeros message) [])
  return (with_version version parameters)

-- a password message, behind its identifier
read_password : Reader (List ℕ)
unfolding read_int32 read_bytes minus_four decode strip_null_byte
read_password = do
  length ← read_int32
  password ← read_bytes (minus_four length)
  text ← unpacked (decode password)
  return (strip_null_byte text)

-- at the end of the connection there is no password
unfoldable pub read_authentication : Reader (List ℕ)
unfolding read_password
read_authentication [] = ok ([], [])
read_authentication (auth_type ∷ buffer) =
    let password = read_password buffer in
    if auth_type == b'p' then password else err unsupported_auth
