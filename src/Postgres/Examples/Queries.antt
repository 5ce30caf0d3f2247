-- ===== src/Postgres/Examples/Queries.antt =====
-- The theorems on the queries of the PostgreSQL protocol at concrete values.
use mindsdb.Common.{
  ℕ, ◌≡◌, ◌⊎◌, refl, true, false, none, some, List, [], ◌∷◌, ◌++◌, arith, Bytes, codes, ok,
  cannot_parse_sql,
}
use mindsdb.Wire.Text.{utf8, lead}
use mindsdb.Wire.Text.Decode.{decode}
use mindsdb.Postgres.Builder.{bytes_eq}
use mindsdb.Postgres.Numbers.{pack_i, pack_h}
use mindsdb.Postgres.Executor.{Executor, query_execute, stmt_prepare}
use mindsdb.Postgres.Answers.{
  text, mysql_code, PostgresColumn, int, to_postgres_columns, to_postgres_rows, to_postgres_fields,
}
use mindsdb.Postgres.Backend.Frames.{frame, error_body}
use mindsdb.Postgres.Startup.{lookup, with_version}
use mindsdb.Common.Method.{◌>>=◌}
use mindsdb.Postgres.Proxy.{Proxy, Portal, tag_of}
use mindsdb.Postgres.Handlers.{
  syntax_error, find_statement, find_portal, executor_at, get_parsed_sql, handle_bind, handle_parse,
  handle_execute, handle_describe, handle_query,
}
use mindsdb.Postgres.Handlers.Tables.{FitsTable, table_bytes, handle_query_table}
use mindsdb.Postgres.Handlers.Queries.{handle_query_failed}
use mindsdb.Postgres.Handlers.Prepared.{IsBound, handle_bind-handle_parse, handle_execute_again}
use mindsdb.Postgres.Handlers.Others.{handle_bind-others}
use mindsdb.Postgres.Handlers.Described.{IsDescribed, handle_describe_ok}
use mindsdb.Postgres.Examples.Sessions.{echo, start, asked, bound}

abbrev idle : Proxy (List ℕ) ℕ
idle = start []

-- an executor that ran
abbrev done : Executor (List ℕ)
done = record {
  sql = codes "select 1";
  query = codes "select 1";
  columns = record { name = some (codes "q"); alias = some (codes "q"); type = mysql_code } ∷ [];
  rows = some ((text (codes "select 1") ∷ []) ∷ []);
  is_executed = true;
}

abbrev columns : List PostgresColumn
columns = record { name = codes "q"; type = int } ∷ []

abbrev row : List Bytes
row = codes "select 1" ∷ []

fits : FitsTable columns row []
unfolding bytes_eq tag_of utf8 to_postgres_fields
fits = record {
  few_columns = omega arith;
  description_fits = grind arith;
  few_values = omega arith;
  rows_fit = (record { columns = refl; short = ground arith; in_range = omega arith }, tt);
  tag_fits = grind arith;
}

handle_query_table_example : handle_query echo (codes "select 1") idle ≡ (
  ok true,
  record idle {
    session = 1;
    wfile = idle.wfile ++ (table_bytes columns (row ∷ []) ++ frame b'Z' (b'I' ∷ []));
  },
)
unfolding get_parsed_sql query_execute lead to_postgres_columns to_postgres_rows utf8 lookup
    with_version
handle_query_table_example =
    handle_query_table echo (codes "select 1") (codes "select 1") done 1
      ((text (codes "select 1") ∷ []) ∷ []) columns row [] b'I' idle refl refl refl refl refl fits
      refl refl

handle_query_failed_example : handle_query echo (0 ∷ []) idle ≡ (
  ok true,
  record idle {
    session = 0;
    wfile =
        idle.wfile
        ++ (frame b'E' (error_body (codes "ERROR") syntax_error (utf8 (codes "error")))
            ++ frame b'Z' (b'I' ∷ []));
  },
)
unfolding get_parsed_sql lead query_execute lookup utf8 with_version
handle_query_failed_example =
    handle_query_failed echo (0 ∷ []) [] cannot_parse_sql 0 b'I' idle refl refl refl refl
      (omega arith)

abbrev fresh : Executor (List ℕ)
fresh = record {
  sql = codes "select 1";
  query = codes "select 1";
  columns = [];
  rows = none;
  is_executed = false;
}

handle_bind-handle_parse_example :
    (q : Proxy (List ℕ) ℕ) × ((handle_parse echo asked >>= λ _. handle_bind bound) idle
      ≡ (ok true, q))
    × IsBound echo asked bound fresh idle q
unfolding stmt_prepare decode lead
handle_bind-handle_parse_example = handle_bind-handle_parse echo asked bound fresh idle refl refl

abbrev portal : Portal
portal = record { statement = record { executor = 0; message = asked }; bound = bound }

abbrev other : Portal
other = record {
  statement = record { executor = 0; message = asked };
  bound = record bound { parameters = some (codes "1") ∷ [] };
}

abbrev ran : Proxy (List ℕ) ℕ
ran = record idle {
  executors = done ∷ [];
  named_portals = (codes "p", portal) ∷ (codes "q", other) ∷ [];
}

handle_execute_again_example :
    (handle_execute echo (codes "q") ran ≡ handle_execute echo (codes "p") ran)
    × ((handle_execute echo (codes "p") ran).1.session ≡ ran.session)
unfolding find_portal lookup executor_at
handle_execute_again_example =
    handle_execute_again echo (codes "p") (codes "q") portal other done ran refl refl refl refl refl

abbrev described : Proxy (List ℕ) ℕ
described = record ran { executors = fresh ∷ [] }

handle_describe_ok_example :
    ((◌≡◌ {A = ℕ} b'P' b'P') × IsDescribed (codes "p") described)
    ⊎ ((◌≡◌ {A = ℕ} b'P' b'S') × (codes "p" ≡ []) × (described.unnamed_statement ≡ none))
unfolding handle_describe lookup pack_i pack_h
handle_describe_ok_example = handle_describe_ok b'P' (codes "p") described true refl

-- a connection with a statement, a portal and an executor under other names than `s` and `p`
abbrev busy : Proxy (List ℕ) ℕ
busy = record idle {
  executors = done ∷ [];
  named_statements = (codes "t", other.statement) ∷ [];
  named_portals = (codes "q", other) ∷ [];
}

abbrev parsed : Proxy (List ℕ) ℕ
parsed = (handle_parse echo asked busy).1

handle_bind-others_example :
    (find_portal (codes "q") (handle_bind bound parsed).1 ≡ find_portal (codes "q") parsed)
    × (find_statement (codes "t") (handle_bind bound parsed).1 ≡ find_statement (codes "t") parsed)
handle_bind-others_example = handle_bind-others bound (codes "q") (codes "t") parsed (ground arith)
