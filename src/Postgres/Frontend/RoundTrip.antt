-- ===== src/Postgres/Frontend/RoundTrip.antt =====
-- postgres_message_formats.py: what a client sends by the formats that the classes document is what is
-- read.
use mindsdb.Common.{
  ℕ, ◌+◌, ◌<◌, ◌≡◌, refl, Option, none, some, List, [], ◌∷◌, ◌++◌, arith, length, length-append,
  All, Bytes, ℤ, pos, negsuc, ok, ◌⊎◌, inl, inr,
}
use mindsdb.Wire.Text.{IsNonzero}
use mindsdb.Postgres.Numbers.{Is16, Is32, unpack_i}
use mindsdb.Postgres.Reader.{
  Reader, ◌>>=◌, return, read_bytes, read_byte, read_string, read_int16, read_int32, repeat, count,
}
use mindsdb.Postgres.Reader.Steps.{
  int16, int32, string, each, counted, Reads, Reads-bind, Reads-map, read_bytes-Reads,
  read_int16-Reads, read_int32-Reads, read_string-Reads, repeat-Reads,
}
use mindsdb.Postgres.Frontend.{
  Parse, Bind, FrontendMessage, query, terminate, parse, bind, execute, sync, describe, minus_four,
  read_query, read_parse, read_param, param_value, read_bind, read_execute, read_describe, read_as,
  read_message,
}

-- a value behind its length, or -1
abbrev pub value : Option Bytes → Bytes
value none = int32 (negsuc 0)
value (some bs) = int32 (pos (length bs)) ++ bs

-- the bodies of the messages
abbrev body : FrontendMessage → Bytes
body (query sql) = string sql
body terminate = []
body (parse p) = string p.name ++ (string p.query ++ counted int32 p.parameters)
body (bind b) =
    string b.name
    ++ (string b.statement_name
        ++ (counted int16 b.format_codes
            ++ (counted value b.parameters ++ counted int16 b.result_format_codes)))
body (execute name max_rows) = string name ++ int32 max_rows
body sync = []
body (describe kind name) = kind ∷ string name

identifier : FrontendMessage → ℕ
identifier (query sql) = b'Q'
identifier terminate = b'X'
identifier (parse p) = b'P'
identifier (bind b) = b'B'
identifier (execute name max_rows) = b'E'
identifier sync = b'S'
identifier (describe kind name) = b'D'

-- Byte1, Int32 of the length with its own four bytes, body
unfoldable pub sent : FrontendMessage → Bytes
unfolding identifier
sent m = identifier m ∷ (int32 (pos (length (body m) + 4)) ++ body m)

-- What a client can send: strings without NUL, numbers and counts that fit their widths. No value of
-- length 0 and no query of length 0 is among it.
abbrev IsValue : Option Bytes → Type 0
IsValue none = Unit {0}
IsValue (some bs) = (0 < length bs) × (length bs < 2147483648)

abbrev AreParams : FrontendMessage → Type 0
AreParams (query sql) = Unit {0}
AreParams terminate = Unit {0}
AreParams (parse p) =
    All IsNonzero p.name
    × All IsNonzero p.query
    × (length p.parameters < 32768)
    × All Is32 p.parameters
AreParams (bind b) =
    All IsNonzero b.name
    × All IsNonzero b.statement_name
    × (length b.format_codes < 32768)
    × All Is16 b.format_codes
    × (length b.parameters < 32768)
    × All IsValue b.parameters
    × (length b.result_format_codes < 32768)
    × All Is16 b.result_format_codes
AreParams (execute name max_rows) = All IsNonzero name × Is32 max_rows
AreParams sync = Unit {0}
AreParams (describe kind name) = All IsNonzero name

pub record IsSendable (m : FrontendMessage) : Type 0 where
  pub params : AreParams m
  pub in_range : length (body m) + 4 < 2147483648

counted-Reads :
    {A B : Type 0} (read : Reader A) (f : A → Bytes) (k : List A → Reader B) (xs : List A)
    (q : Bytes) (b : B)
    → length xs < 32768
    → All (λ x. Reads read (f x) x) xs
    → Reads (k xs) q b
    → Reads (read_int16 >>= λ n. (repeat (count n) read >>= k)) (counted f xs ++ q) b
counted-Reads read f k xs q b h each_read next =
    Reads-bind read_int16 _ (int16 (pos (length xs))) (each f xs ++ q) (pos (length xs)) b
      (read_int16-Reads (pos (length xs)) h)
      (Reads-bind (repeat (length xs) read) k (each f xs) q xs b (repeat-Reads read f xs each_read)
        next)

param-Reads : (v : Option Bytes) → IsValue v → Reads read_param (value v) v
unfolding read_param param_value
param-Reads none h =
    Reads-bind read_int32 param_value (int32 (negsuc 0)) [] (negsuc 0) none
      (read_int32-Reads (negsuc 0) (omega arith)) (λ rest. refl)
param-Reads (some bs) (h, h') =
    Reads-bind read_int32 param_value (int32 (pos (length bs))) bs (pos (length bs)) (some bs)
      (read_int32-Reads (pos (length bs)) h')
      (Reads-map (read_bytes (pos (length bs))) some bs bs (read_bytes-Reads bs (length bs) refl h))

counted_last-Reads :
    {A B : Type 0} (read : Reader A) (f : A → Bytes) (g : List A → B) (xs : List A)
    → length xs < 32768
    → All (λ x. Reads read (f x) x) xs
    → Reads
        (read_int16 >>= λ n. (repeat (count n) read >>= λ ys. return (g ys)))
        (counted f xs)
        (g xs)
counted_last-Reads read f g xs h each_read =
    Reads-bind read_int16 _ (int16 (pos (length xs))) (each f xs) (pos (length xs)) (g xs)
      (read_int16-Reads (pos (length xs)) h)
      (Reads-map (repeat (length xs) read) g (each f xs) xs (repeat-Reads read f xs each_read))

All-map {ℓ} :
    {A : Type ℓ} (P Q : A → Type 0) → ((x : A) → P x → Q x) → (xs : List A) → All P xs → All Q xs
All-map P Q f [] h = tt
All-map P Q f (x ∷ xs) (hx, hs) = (f x hx, All-map P Q f xs hs)

-- what stands behind the identifier
abbrev header : FrontendMessage → Bytes
header m = int32 (pos (length (body m) + 4))

minus_four_lem : (n : ℕ) → minus_four (pos (n + 4)) ≡ pos n
unfolding minus_four
minus_four_lem n = ground arith

query-Reads :
    (sql : Bytes)
    → IsSendable (query sql)
    → Reads read_query (header (query sql) ++ string sql) (query (string sql))
unfolding read_query
query-Reads sql h =
    Reads-bind read_int32 _ (header (query sql)) (string sql) _ (query (string sql))
      (read_int32-Reads (pos (length (string sql) + 4)) h.in_range)
      (rw (minus_four_lem (length (string sql))) (
        Reads-map (read_bytes (pos (length (string sql)))) query (string sql) (string sql) (
          read_bytes-Reads (string sql) (length (string sql)) refl
            (omega (arith, length-append sql (0 ∷ []))))))

parse-Reads :
    (p : Parse)
    → IsSendable (parse p)
    → Reads read_parse (header (parse p) ++ body (parse p)) (parse p)
unfolding read_parse
parse-Reads p h =
    let (name, sql, few, types) = h.params in
    let m = parse p in
    Reads-bind read_int32 _ (header m) (body m) _ m
      (read_int32-Reads (pos (length (body m) + 4)) h.in_range)
      (Reads-bind read_string _ (string p.name) (string p.query ++ counted int32 p.parameters)
        p.name m (read_string-Reads p.name name)
        (Reads-bind read_string _ (string p.query) (counted int32 p.parameters) p.query m
          (read_string-Reads p.query sql)
          (counted_last-Reads read_int32 int32
            (λ xs. parse (record { name = p.name; query = p.query; parameters = xs })) p.parameters
            few
            (All-map Is32 (λ v. Reads read_int32 (int32 v) v) read_int32-Reads p.parameters
              types))))

bind-Reads :
    (b : Bind) → IsSendable (bind b) → Reads read_bind (header (bind b) ++ body (bind b)) (bind b)
unfolding read_bind
bind-Reads b h =
    let (name, statement, few, formats, few', values, few'', results) = h.params in
    let m = bind b in
    let last = counted int16 b.result_format_codes in
    let params = counted value b.parameters ++ last in
    let codes = counted int16 b.format_codes ++ params in
    Reads-bind read_int32 _ (header m) (body m) _ m
      (read_int32-Reads (pos (length (body m) + 4)) h.in_range)
      (Reads-bind read_string _ (string b.name) (string b.statement_name ++ codes) b.name m
        (read_string-Reads b.name name)
        (Reads-bind read_string _ (string b.statement_name) codes b.statement_name m
          (read_string-Reads b.statement_name statement)
          (counted-Reads read_int16 int16 _ b.format_codes params m few
            (All-map Is16 (λ v. Reads read_int16 (int16 v) v) read_int16-Reads b.format_codes
              formats)
            (counted-Reads read_param value _ b.parameters last m few'
              (All-map IsValue (λ v. Reads read_param (value v) v) param-Reads b.parameters values)
              (counted_last-Reads read_int16 int16
                (λ xs. bind (record b { result_format_codes = xs })) b.result_format_codes few''
                (All-map Is16 (λ v. Reads read_int16 (int16 v) v) read_int16-Reads
                  b.result_format_codes results))))))

execute-Reads :
    (name : Bytes) (n : ℤ)
    → IsSendable (execute name n)
    → Reads read_execute (header (execute name n) ++ body (execute name n)) (execute name n)
unfolding read_execute
execute-Reads name n h =
    let m = execute name n in
    Reads-bind read_int32 _ (header m) (body m) _ m
      (read_int32-Reads (pos (length (body m) + 4)) h.in_range)
      (Reads-bind read_string _ (string name) (int32 n) name m (read_string-Reads name h.params.0)
        (Reads-map read_int32 (execute name) (int32 n) n (read_int32-Reads n h.params.1)))

describe-Reads :
    (kind : ℕ) (name : Bytes)
    → IsSendable (describe kind name)
    → Reads read_describe
        (header (describe kind name) ++ body (describe kind name))
        (describe kind name)
unfolding read_describe read_byte
describe-Reads kind name h =
    let m = describe kind name in
    Reads-bind read_int32 _ (header m) (body m) _ m
      (read_int32-Reads (pos (length (body m) + 4)) h.in_range)
      (Reads-map read_string (describe kind) (string name) name (read_string-Reads name h.params))

-- What the server takes for a message: a query keeps the zero at its end, and of a termination only
-- the identifier is read.
unfoldable pub heard : FrontendMessage → FrontendMessage
heard (query sql) = query (string sql)
heard m = m

unfoldable pub left : FrontendMessage → Bytes → Bytes
left terminate rest = int32 (pos 4) ++ rest
left m rest = rest

-- A message of any of the seven types, with strings without NUL, numbers and counts that fit their
-- widths, and values that are NULL or not empty, is read back as it was sent, and what follows it
-- is left. A query keeps the NUL at its end, and of a termination the length is left.
pub read_message-sent :
    (m : FrontendMessage) (rest : Bytes)
    → IsSendable m
    → read_message (sent m ++ rest) ≡ ok (some (heard m), left m rest)
unfolding read_message read_as heard left sent identifier unpack_i
read_message-sent (query sql) rest h = rw (query-Reads sql h rest) refl
read_message-sent terminate rest h = refl
read_message-sent (parse p) rest h = rw (parse-Reads p h rest) refl
read_message-sent (bind b) rest h = rw (bind-Reads b h rest) refl
read_message-sent (execute name n) rest h = rw (execute-Reads name n h rest) refl
read_message-sent sync rest h = refl
read_message-sent (describe kind name) rest h = rw (describe-Reads kind name h rest) refl

-- Only a termination leaves bytes of its own.
pub left_cases : (m : FrontendMessage) (rest : Bytes) → (m ≡ terminate) ⊎ (left m rest ≡ rest)
unfolding left
left_cases terminate rest = inl refl
left_cases m rest = inr refl

pub length-sent_pos : (m : FrontendMessage) → 0 < length (sent m)
unfolding sent
length-sent_pos m = omega arith
