-- ===== src/Wire/Handshake/Login.antt =====
-- handshake_response_packet.py: the login of a client, as it is sent and as `setup` stores it.
use mindsdb.Common.{
  ℕ, ◌^◌, ◌<◌, ◌≤◌, ◌≡◌, refl, ap, sym, ◌∙◌, Bool, true, false, ◌&&◌, some, [], ◌∷◌, ◌++◌, arith,
  ◌==◌, if◌then◌else◌, length, length-append, take-append, drop-append, drop, Bytes, le_bytes, All,
  ok, ◌>>=◌, append_assoc,
}
use mindsdb.Wire.Text.{IsNonzero}
use mindsdb.Wire.Datum.{nul, lenenc, fixed, set_from_buff}
use mindsdb.Wire.Datum.Fixed.{set_from_buff-le_bytes, set_from_buff-nul}
use mindsdb.Wire.Datum.RoundTrip.{protocol_string, set_from_buff-protocol_string}
use mindsdb.Wire.Handshake.{
  Response, handshake_response, read_number, read_raw, read_password, read_if, both, has,
  connect_with_db, secure_connection, plugin_auth, plugin_auth_lenenc_client_data, read_tail,
  read_ssl_request, read_response, setup, all_zero,
}

-- A login on the client's side.
pub record Login : Type 0 where
  pub capabilities : ℕ
  pub max_packet_size : ℕ
  pub charset : ℕ
  pub reserved : Bytes
  pub username : Bytes
  pub password : Bytes
  pub database : Bytes
  pub plugin : Bytes
  pub attributes : Bytes

abbrev pub password_bytes : Bool → Bool → Bytes → Bytes
password_bytes true secure bs = protocol_string bs
password_bytes false true bs = le_bytes 1 (length bs) ++ bs
password_bytes false false bs = le_bytes 1 0

abbrev pub if_bytes : Bool → Bytes → Bytes
if_bytes true bs = bs ++ 0 ∷ []
if_bytes false bs = []

abbrev pub kept : Bool → Bytes → Bytes
kept true bs = bs
kept false bs = []

abbrev pub password_kept : Bool → Bool → Bytes → Bytes
password_kept true secure bs = bs
password_kept false secure bs = kept secure bs

-- The fields that follow the name of the user.
abbrev pub tail_bytes : ℕ → Login → Bytes
tail_bytes server l =
    password_bytes (both server l.capabilities plugin_auth_lenenc_client_data)
      (both server l.capabilities secure_connection) l.password
    ++ (if_bytes (has l.capabilities connect_with_db) l.database
        ++ (if_bytes (has l.capabilities plugin_auth) l.plugin ++ l.attributes))

abbrev pub login_body : ℕ → Login → Bytes
login_body server l =
    le_bytes 4 l.capabilities
    ++ (le_bytes 4 l.max_packet_size
        ++ (le_bytes 1 l.charset ++ (l.reserved ++ (l.username ++ 0 ∷ tail_bytes server l))))

-- What the server stores of it.
abbrev pub stored : ℕ → Login → Response
stored server l =
    handshake_response l.capabilities l.username
      (password_kept (both server l.capabilities plugin_auth_lenenc_client_data)
        (both server l.capabilities secure_connection) l.password)
      (kept (has l.capabilities connect_with_db) l.database)
      (kept (has l.capabilities plugin_auth) l.plugin)

pub record IsLogin (l : Login) : Type 0 where
  pub capabilities_fit : l.capabilities < 256 ^ 4
  pub size_fits : l.max_packet_size < 256 ^ 4
  pub charset_fits : l.charset < 256 ^ 1
  pub reserved_23 : length l.reserved ≡ 23
  pub username_string : All IsNonzero l.username
  pub short_password : length l.password < 256
  pub database_string : All IsNonzero l.database
  pub plugin_string : All IsNonzero l.plugin

read_number_lem :
    (n v : ℕ) (rest : Bytes)
    → n ≤ 8
    → v < 256 ^ n
    → read_number n (le_bytes n v ++ rest) ≡ ok (v, rest)
unfolding read_number
read_number_lem n v rest l h = rw (set_from_buff-le_bytes n v rest l h)

read_nul : (bs rest : Bytes) → All IsNonzero bs → read_raw nul (bs ++ 0 ∷ rest) ≡ ok (bs, rest)
unfolding read_raw
read_nul bs rest h = rw (set_from_buff-nul bs rest h)

read_fixed :
    (n : ℕ) (bs rest : Bytes) → length bs ≡ n → read_raw (fixed n) (bs ++ rest) ≡ ok (bs, rest)
unfolding read_raw set_from_buff
read_fixed n bs rest h = rw (take-append bs rest n (sym h), drop-append bs rest n (sym h)) refl

read_lenenc :
    (bs rest : Bytes)
    → length bs < 256
    → read_raw lenenc (protocol_string bs ++ rest) ≡ ok (bs, rest)
unfolding read_raw
read_lenenc bs rest h = rw (set_from_buff-protocol_string bs rest (omega arith))

read_password_lem :
    (plugin secure : Bool) (bs rest : Bytes)
    → length bs < 256
    → read_password plugin secure (password_bytes plugin secure bs ++ rest)
      ≡ ok (password_kept plugin secure bs, rest)
unfolding read_password
read_password_lem true secure bs rest h = read_lenenc bs rest h
read_password_lem false true bs rest h =
    ap (λ r. r >>= λ x. read_raw (fixed x.0) x.1)
      (read_number_lem 1 (length bs) (bs ++ rest) (omega arith) h)
    ∙ read_fixed (length bs) bs rest refl
read_password_lem false false bs rest h =
    ap (λ r. r >>= λ x. ok ([], x.1)) (read_number_lem 1 0 rest (omega arith) (omega arith))

read_if_lem :
    (b : Bool) (bs rest : Bytes)
    → All IsNonzero bs
    → read_if b (if_bytes b bs ++ rest) ≡ ok (kept b bs, rest)
unfolding read_if
read_if_lem true bs rest h = ap (read_raw nul) (append_assoc bs (0 ∷ []) rest) ∙ read_nul bs rest h
read_if_lem false bs rest h = refl

read_tail_lem :
    (server : ℕ) (l : Login)
    → IsLogin l
    → read_tail server l.capabilities l.username (tail_bytes server l) ≡ ok (stored server l)
unfolding read_tail
read_tail_lem server l h =
    let c = l.capabilities in
    let lenenc = both server c plugin_auth_lenenc_client_data in
    let secure = both server c secure_connection in
    let db = has c connect_with_db in
    let plugin = has c plugin_auth in
    let last = if_bytes plugin l.plugin ++ l.attributes in
    ap
      (λ r. r >>= λ x. read_if db x.1 >>= λ y.
        read_if plugin y.1 >>= λ z. ok (handshake_response c l.username x.0 y.0 z.0))
      (read_password_lem lenenc secure l.password (if_bytes db l.database ++ last) h.short_password)
    ∙ ap
        (λ r. r >>= λ y. read_if plugin y.1 >>= λ z.
          ok (handshake_response c l.username (password_kept lenenc secure l.password) y.0 z.0))
        (read_if_lem db l.database last h.database_string)
    ∙ ap
        (λ r. r >>= λ z. ok (
          handshake_response c l.username (password_kept lenenc secure l.password)
            (kept db l.database) z.0))
        (read_if_lem plugin l.plugin l.attributes h.plugin_string)

read_response_lem :
    (server : ℕ) (l : Login)
    → IsLogin l
    → read_response server (login_body server l) ≡ ok (stored server l)
unfolding read_response
read_response_lem server l h =
    let tail = tail_bytes server l in
    let named = l.username ++ 0 ∷ tail in
    let b₃ = l.reserved ++ named in
    let b₂ = le_bytes 1 l.charset ++ b₃ in
    let b₁ = le_bytes 4 l.max_packet_size ++ b₂ in
    ap
      (λ r. r >>= λ c. read_number 4 c.1 >>= λ m. read_number 1 m.1 >>= λ s.
        read_raw (fixed 23) s.1 >>= λ z. read_raw nul z.1 >>= λ u. read_tail server c.0 u.0 u.1)
      (read_number_lem 4 l.capabilities b₁ (omega arith) h.capabilities_fit)
    ∙ ap
        (λ r. r >>= λ m. read_number 1 m.1 >>= λ s. read_raw (fixed 23) s.1 >>= λ z.
          read_raw nul z.1 >>= λ u. read_tail server l.capabilities u.0 u.1)
        (read_number_lem 4 l.max_packet_size b₂ (omega arith) h.size_fits)
    ∙ ap
        (λ r. r >>= λ s. read_raw (fixed 23) s.1 >>= λ z.
          read_raw nul z.1 >>= λ u. read_tail server l.capabilities u.0 u.1)
        (read_number_lem 1 l.charset b₃ (omega arith) h.charset_fits)
    ∙ ap (λ r. r >>= λ z. read_raw nul z.1 >>= λ u. read_tail server l.capabilities u.0 u.1)
        (read_fixed 23 l.reserved named h.reserved_23)
    ∙ ap (λ r. r >>= λ u. read_tail server l.capabilities u.0 u.1)
        (read_nul l.username tail h.username_string)
    ∙ read_tail_lem server l h

-- The body is no SSL request: it is longer.
longer : (server : ℕ) (l : Login) → IsLogin l → 32 < length (login_body server l)
longer server l h = omega (
  arith,
  h.reserved_23,
  length-append l.reserved (l.username ++ 0 ∷ tail_bytes server l),
  length-append l.username (0 ∷ tail_bytes server l),
)

not_ssl : (n : ℕ) (z : Bool) → 32 < n → (n == 32 && z) ≡ false
not_ssl n z h = ground arith

-- The login of a client, with numbers that fit their widths, strings without NUL and a password
-- below 256 bytes, is stored as it was meant for any capabilities of the server and the client: the
-- password if both can send it, as a string or behind its length, and the database and the plugin
-- if the client announces them. It is not taken for an SSL request.
pub setup-login :
    (server : ℕ) (l : Login)
    → IsLogin l
    → setup server (login_body server l) ≡ ok (some (stored server l))
unfolding setup
setup-login server l h =
    let body = login_body server l in
    ap (λ b. (if b then read_ssl_request body else read_response server body) >>= λ r. ok (some r))
      (not_ssl (length body) (all_zero (drop 9 body)) (longer server l h))
    ∙ ap (λ r. r >>= λ x. ok (some x)) (read_response_lem server l h)
