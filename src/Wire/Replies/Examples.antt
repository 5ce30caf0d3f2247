-- ===== src/Wire/Replies/Examples.antt =====
-- The theorems on commands, rows and replies at concrete values.
use mindsdb.Common.{
  ◌*◌, ◌/◌, ◌+◌, ◌≡◌, refl, false, none, some, List, [], ◌∷◌, ◌++◌, map, arith, length, All, codes,
  replicate, IsByte, from_le, ok, ◌>>=◌, true, pos, negsuc,
}
use mindsdb.Common.Dict.{lookup}
use mindsdb.Wire.Handshake
use mindsdb.Wire.Handshake.Login.{Login, login_body, stored, setup-login}
use mindsdb.Wire.Text.{decodes, utf8}
use mindsdb.Wire.Statements.{PreparedStmt, Statements}
use mindsdb.Wire.Command.{bits, setup}
use mindsdb.Wire.Command.Params.{IsSendable, Sent, sent_null, tiny, long, var_string}
use mindsdb.Wire.Command.Parse.{Request, execute, request_body, command_of, setup-request}
use mindsdb.Wire.Rows.{Cell, text_row, null_bitmap}
use mindsdb.Wire.Rows.NullBitmap.{null_number, null_bitmap_lem}
use mindsdb.Wire.Rows.TextRow.{read_row, cell_text, read_row-text_row}

-- an unsigned 255, NULL, -1 and `né`; the second bit of the bitmap is that of the NULL
abbrev sent : List Sent
sent =
    tiny true (pos 255) ∷ sent_null ∷ long false (negsuc 0) ∷ var_string (110 ∷ 195 ∷ 169 ∷ []) ∷ []

sent-IsSendable : All IsSendable sent
sent-IsSendable = (omega arith, (_, (omega arith, ((omega arith, unfold decodes in refl), _))))

abbrev stmt : PreparedStmt
stmt = record {
  statement = record {
    query = codes "q";
    is_executed = false;
    columns = [];
    params = codes "a" ∷ codes "b" ∷ codes "c" ∷ codes "d" ∷ [];
    rows = none;
    server_status = none;
  };
  fetched = 0;
}

abbrev session : Statements
session = (7, stmt) ∷ []

abbrev request : Request
request = execute 7 0 1 sent (2 ∷ [])

setup-request_example :
    setup session (length (request_body request)) (request_body request) ≡ ok (command_of request)
setup-request_example = setup-request session request (
  omega arith,
  omega arith,
  omega arith,
  (stmt, unfold lookup in refl, refl),
  sent-IsSendable,
  refl,
  (false ∷ false ∷ false ∷ false ∷ [], unfold bits in refl),
)

-- ten cells, of which the first and the last two are NULL
abbrev cells : List Cell
cells =
    none
    ∷ some (codes "a")
    ∷ some []
    ∷ some []
    ∷ some []
    ∷ some []
    ∷ some []
    ∷ some []
    ∷ none
    ∷ none
    ∷ []

null_bitmap_lem_example :
    (from_le (null_bitmap cells) ≡ 4 * null_number cells)
    × (length (null_bitmap cells) ≡ (length cells + 9) / 8)
    × All IsByte (null_bitmap cells)
null_bitmap_lem_example = null_bitmap_lem cells

read_row-text_row_example :
    (do bs ← text_row (some (codes "ab") ∷ none ∷ some [] ∷ []); read_row 3 (bs ++ (9 ∷ [])))
    ≡ ok (map cell_text (some (codes "ab") ∷ none ∷ some [] ∷ []), 9 ∷ [])
read_row-text_row_example =
    read_row-text_row (some (codes "ab") ∷ none ∷ some [] ∷ []) (9 ∷ [])
      ((unfold utf8 in omega arith), (_, ((unfold utf8 in omega arith), _)))

abbrev login : Login
login = record {
  capabilities = 557064;
  max_packet_size = 16777216;
  charset = 33;
  reserved = replicate 23 0;
  username = codes "mindsdb";
  password = codes "12345678901234567890";
  database = codes "files";
  plugin = codes "mysql_native_password";
  attributes = [];
}

setup-login_example :
    Handshake.setup 557064 (login_body 557064 login) ≡ ok (some (stored 557064 login))
setup-login_example = setup-login 557064 login (record {
  capabilities_fit = omega arith;
  size_fits = omega arith;
  charset_fits = omega arith;
  reserved_23 = refl;
  username_string = ground arith;
  short_password = omega arith;
  database_string = ground arith;
  plugin_string = ground arith;
})
