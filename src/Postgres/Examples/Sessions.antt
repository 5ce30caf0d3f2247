-- ===== src/Postgres/Examples/Sessions.antt =====
-- The theorems on the connections of the PostgreSQL protocol, with a small engine.
use mindsdb.Common.{
  ℕ, suc, ◌≡◌, refl, true, Option, none, some, List, [], ◌∷◌, ◌++◌, arith, Bytes, codes, pos, ok,
  All,
}
use mindsdb.Wire.Text.{lead, utf8}
use mindsdb.Postgres.Text.{text_eq}
use mindsdb.Postgres.Numbers.{pack_i, unpack_i}
use mindsdb.Postgres.Executor.{Engine}
use mindsdb.Postgres.Answers.{text, mysql_code}
use mindsdb.Postgres.Backend.Framing.{IsFramed}
use mindsdb.Postgres.Frontend.{
  Parse, Bind, FrontendMessage, query, parse, bind, execute, sync, terminate,
}
use mindsdb.Postgres.Frontend.RoundTrip.{IsSendable, sent}
use mindsdb.Postgres.Startup.{as_bytes, with_version}
use mindsdb.Postgres.Reader.Steps.{each, int32, string}
use mindsdb.Common.Method.{◌>>◌}
use mindsdb.Postgres.Proxy.{Proxy, send_ready}
use mindsdb.Postgres.Handlers.{main_loop}
use mindsdb.Auth.{Server}
use mindsdb.Postgres.Connection.{authenticate}
use mindsdb.Postgres.Connection.Authentication.{LetIn, authenticate-LetIn}
use mindsdb.Postgres.Handlers.Loop.{run, main_loop-run}
use mindsdb.Postgres.Handlers.Ends.{Serves, main_loop-Serves}
use mindsdb.Postgres.Handlers.Sound.{main_loop-IsFramed}

-- Every text is a query but the empty one; it is answered with itself, and each run is counted.
abbrev parsed : List ℕ → Option (List ℕ)
parsed [] = none
parsed (c ∷ sql) = some (c ∷ sql)

abbrev pub echo : Engine (List ℕ) ℕ
echo = record {
  parse_mindsdb = parsed;
  parse_mysql = λ sql. none;
  param_count = λ q. 0;
  prepare_columns = λ s q. ok [];
  fill_query_params = λ q params. ok q;
  execute_command = λ s q. (
    ok (record {
      rows = some ((text q ∷ []) ∷ []);
      columns =
          some
            (record { name = some (codes "q"); alias = some (codes "q"); type = mysql_code } ∷ []);
    }),
    suc s,
  );
  clear_sql = λ sql. ok sql;
  message = λ e. codes "error";
}

abbrev pub start : Bytes → Proxy (List ℕ) ℕ
start rfile = record {
  session = 0;
  executors = [];
  named_statements = [];
  unnamed_statement = none;
  named_portals = [];
  unnamed_portal = none;
  transaction_status = codes "I";
  user_parameters = some (with_version (pos 196608) []);
  auth = true;
  username = codes "mindsdb";
  rfile = rfile;
  wfile = [];
}

abbrev pub asked : Parse
asked = record { name = codes "s"; query = codes "select 1"; parameters = [] }

abbrev pub bound : Bind
bound = record {
  name = codes "p";
  statement_name = codes "s";
  format_codes = [];
  parameters = [];
  result_format_codes = [];
}

abbrev pub messages : List FrontendMessage
messages =
    query (codes "select 1")
    ∷ parse asked
    ∷ bind bound
    ∷ execute (codes "p") (pos 0)
    ∷ sync
    ∷ terminate
    ∷ []

messages-IsSendable : All IsSendable messages
messages-IsSendable = (
  record { params = tt; in_range = omega arith },
  (
    record { params = ground arith; in_range = omega arith },
    (
      record { params = ground arith; in_range = omega arith },
      (
        record { params = ground arith; in_range = omega arith },
        (
          record { params = tt; in_range = omega arith },
          (record { params = tt; in_range = omega arith }, tt),
        ),
      ),
    ),
  ),
)

main_loop-run_example :
    main_loop echo (start (each sent messages))
    ≡ (send_ready >> run echo messages) (start (each sent messages))
main_loop-run_example =
    main_loop-run echo messages (start (each sent messages)) messages-IsSendable refl

main_loop-Serves_example :
    Serves echo (start (each sent messages)) (main_loop echo (start (each sent messages)))
main_loop-Serves_example = main_loop-Serves echo (start (each sent messages))

main_loop-IsFramed_example : IsFramed (main_loop echo (start (each sent messages))).1.wfile
main_loop-IsFramed_example = main_loop-IsFramed echo (start (each sent messages)) IsFramed.empty

abbrev server : Server
server = record {
  auth_config = record { username = some (codes "mindsdb"); password = some (codes "secret") };
  scramble_func = λ password salt. ok (0 ∷ []);
  salt = [];
}

-- a password message
abbrev password : Bytes
password = b'p' ∷ (int32 (pos 11) ++ string (codes "secret"))

abbrev guest : Proxy (List ℕ) ℕ
guest = record (start password) {
  user_parameters =
      some (with_version (pos 196608) ((codes "user", as_bytes (codes "mindsdb")) ∷ []));
}

authenticate-LetIn_example : LetIn server guest
unfolding authenticate lead text_eq utf8 pack_i unpack_i with_version
authenticate-LetIn_example = authenticate-LetIn server guest refl
