-- ===== src/Postgres/Examples.antt =====
-- The theorems on the PostgreSQL protocol at concrete values: messages and values.
pub mod Sessions
pub mod Queries
use mindsdb.Common.{
  ℕ, ◌≡◌, refl, Bool, true, false, Option, none, some, List, [], ◌∷◌, ◌++◌, arith, map, ◌/◌, ◌%◌,
  Bytes, codes, pos, ok, length, All,
}
use mindsdb.Wire.Text.{utf8}
use mindsdb.Wire.Text.Decode.{decode}
use mindsdb.Postgres.Builder.{bytes_eq}
use mindsdb.Postgres.Backend.{data_row, send}
use mindsdb.Postgres.Backend.Rows.{FitsRow, row_frame, row_body, client_row, shown, send-data_row}
use mindsdb.Postgres.Reader.Steps.{each}
use mindsdb.Postgres.Frontend.{Bind, FrontendMessage, bind, read_message}
use mindsdb.Postgres.Frontend.RoundTrip.{IsSendable, sent, heard, left, read_message-sent}
use mindsdb.Postgres.Startup.{as_int, read_startup_message, lookup, insert}
use mindsdb.Postgres.Startup.Parameters.{startup, dict_of, read_startup_message-startup}

-- `a`, `é`, `€` and a character of four bytes
abbrev text : List ℕ
text = 97 ∷ 233 ∷ 8364 ∷ 128512 ∷ []

abbrev bound : Bind
bound = record {
  name = codes "p";
  statement_name = codes "s";
  format_codes = pos 0 ∷ [];
  parameters = some (codes "42") ∷ none ∷ [];
  result_format_codes = [];
}

bound-IsSendable : IsSendable (bind bound)
bound-IsSendable = record { params = ground arith; in_range = omega arith }

read_message-sent_example :
    read_message (sent (bind bound) ++ b'S' ∷ [])
    ≡ ok (some (heard (bind bound)), left (bind bound) (b'S' ∷ []))
read_message-sent_example = read_message-sent (bind bound) (b'S' ∷ []) bound-IsSendable

abbrev parameters : List (Bytes × Bytes)
parameters = (codes "user", codes "mindsdb") ∷ (codes "database", codes "files") ∷ []

read_startup_message-startup_example :
    read_startup_message (startup 196608 parameters ++ b'p' ∷ [])
    ≡ ok (
      insert
          (codes "minor_version")
          (as_int (pos (196608 % 65536)))
          (insert (codes "major_version") (as_int (pos (196608 / 65536))) (dict_of parameters [])),
      b'p' ∷ [],
    )
read_startup_message-startup_example =
    read_startup_message-startup 196608 parameters (b'p' ∷ []) (omega arith) (ground arith)
      (omega arith)

abbrev first : List Bytes
first = codes "1" ∷ codes "NULL" ∷ []

abbrev second : List Bytes
second = [] ∷ codes "b" ∷ []

send-data_row_example :
    (send (data_row (first ∷ second ∷ [])) (b'Z' ∷ [])
      ≡ (b'Z' ∷ [] ++ each row_frame (first ∷ second ∷ []), ok tt))
    × All (λ r. client_row (row_body r) ≡ ok (map shown r, [])) (first ∷ second ∷ [])
unfolding bytes_eq
send-data_row_example = send-data_row first (second ∷ []) (b'Z' ∷ []) (omega arith) (
  record { columns = refl; short = ground arith; in_range = omega arith },
  (record { columns = refl; short = ground arith; in_range = omega arith }, tt),
)
