-- ===== src/Postgres/Backend/Rows.antt =====
-- `DataRow` of postgres_message_formats.py: what a client reads from the packets of the rows.
use mindsdb.Common.{
  ℕ, ◌<◌, ◌≡◌, refl, ap, sym, ◌∙◌, Option, none, some, List, [], ◌∷◌, ◌++◌, arith, length, take,
  drop, take-append, drop-append, Bytes, codes, ℤ, pos, negsuc, ok, append_assoc, append-nil,
  if◌then◌else◌, All, map, Bool-cases, inl, inr,
}
use mindsdb.Postgres.Builder.{Builder, bytes_eq, add_column_value, add_row}
use mindsdb.Postgres.Builder.Contents.{
  Builds, Builds-eq, reset-Builds, add_int16-Builds, add_int32-Builds, add_bytes-Builds,
  write-Builds,
}
use mindsdb.Postgres.Reader.{Reader, ◌>>=◌, read_int16, read_int32, repeat, count}
use mindsdb.Postgres.Reader.Steps.{
  int16, int32, each, Reads, Reads-bind, Reads-map, read_int16-Reads, read_int32-Reads,
}
use mindsdb.Postgres.Backend.{data_row, data_row_packet, send_rows, send}
use mindsdb.Postgres.Backend.Frames.{frame, InRange}

-- Int32 of the length and the value, or -1 for NULL: how a value is sent
abbrev pub cell : Bytes → Bytes
cell v = if bytes_eq v (codes "NULL") then int32 (negsuc 0) else int32 (pos (length v)) ++ v

abbrev pub row_body : List Bytes → Bytes
row_body row = int16 (pos (length row)) ++ each cell row

-- What a client takes for a value of a row: the text NULL is no text.
abbrev pub shown : Bytes → Option Bytes
shown v = if bytes_eq v (codes "NULL") then none else some v

-- A client: as many bytes as the length says, or NULL for a negative length
client_value : ℤ → Reader (Option Bytes)
client_value (negsuc n) rest = ok (none, rest)
client_value (pos n) rest = ok (some (take n rest), drop n rest)

client_cell : Reader (Option Bytes)
unfolding client_value read_int32
client_cell = do n ← read_int32; client_value n

-- the body of a DataRow
unfoldable pub client_row : Reader (List (Option Bytes))
unfolding client_cell read_int16 repeat
client_row = do n ← read_int16; repeat (count n) client_cell

abbrev pub IsShort : Bytes → Type 0
IsShort v = length v < 2147483648

value-Reads : (v : Bytes) → Reads (client_value (pos (length v))) v (some v)
unfolding client_value
value-Reads v rest =
    rw (take-append v rest (length v) refl, drop-append v rest (length v) refl) refl

cell-Reads : (v : Bytes) → IsShort v → Reads client_cell (cell v) (shown v)
unfolding client_cell
cell-Reads v h = elim (Bool-cases (bytes_eq v (codes "NULL"))) [
  | inl null ↦ rw null (
      Reads-bind read_int32 client_value (int32 (negsuc 0)) [] (negsuc 0) none
        (read_int32-Reads (negsuc 0) (omega arith)) (unfold client_value in λ rest. refl))
  | inr text ↦ rw text (
      Reads-bind read_int32 client_value (int32 (pos (length v))) v (pos (length v)) (some v)
        (read_int32-Reads (pos (length v)) h) (value-Reads v))
]

cells-Reads :
    (row : List Bytes)
    → All IsShort row
    → Reads (repeat (length row) client_cell) (each cell row) (map shown row)
unfolding repeat
cells-Reads [] h = λ rest. refl
cells-Reads (v ∷ row) (hv, hs) =
    Reads-bind client_cell _ (cell v) (each cell row) (shown v) (map shown (v ∷ row))
      (cell-Reads v hv)
      (Reads-map (repeat (length row) client_cell) (◌∷◌ (shown v)) (each cell row) (map shown row)
        (cells-Reads row hs))

pub client_row-Reads :
    (row : List Bytes)
    → length row < 32768
    → All IsShort row
    → Reads client_row (row_body row) (map shown row)
unfolding client_row
client_row-Reads row few h =
    Reads-bind read_int16 _ (int16 (pos (length row))) (each cell row) (pos (length row))
      (map shown row) (read_int16-Reads (pos (length row)) few) (cells-Reads row h)

-- The server's side.
add_column_value-Builds :
    {id body : Bytes} {b : Builder} (v : Bytes)
    → IsShort v
    → Builds id b body
    → Builds id (add_column_value v b) (body ++ cell v)
unfolding add_column_value
add_column_value-Builds {id} {body} {b} v h z = elim (Bool-cases (bytes_eq v (codes "NULL"))) [
  | inl null ↦ rw null (add_int32-Builds (negsuc 0) (omega arith) z)
  | inr text ↦ rw text (
      Builds-eq _ (append_assoc body (int32 (pos (length v))) v)
        (add_bytes-Builds v (add_int32-Builds (pos (length v)) h z)))
]

add_row-Builds :
    (row : List Bytes) {id body : Bytes} {b : Builder}
    → All IsShort row
    → Builds id b body
    → Builds id (add_row row b) (body ++ each cell row)
unfolding add_row
add_row-Builds [] {body = body} h z = Builds-eq _ (sym (append-nil body)) z
add_row-Builds (v ∷ row) {body = body} (hv, hs) z =
    Builds-eq _ (append_assoc body (cell v) (each cell row))
      (add_row-Builds row hs (add_column_value-Builds v hv z))

-- A row that fits the formats.
pub record FitsRow (n : ℕ) (row : List Bytes) : Type 0 where
  pub columns : length row ≡ n
  pub short : All IsShort row
  pub in_range : InRange (row_body row)

data_row_packet_lem :
    (n : ℕ) (row : List Bytes)
    → n < 32768
    → FitsRow n row
    → data_row_packet n row ≡ ok (frame b'D' (row_body row))
unfolding data_row_packet
data_row_packet_lem n row few h =
    let z = add_row-Builds row h.short (add_int16-Builds (pos n) few (reset-Builds (codes "D"))) in
    write-Builds
      (Builds-eq (row_body row) (ap (λ k. int16 (pos k) ++ each cell row) (sym h.columns)) z)
      h.in_range

abbrev pub row_frame : List Bytes → Bytes
row_frame row = frame b'D' (row_body row)

send_rows_lem :
    (n : ℕ) (rows : List (List Bytes)) (wfile : Bytes)
    → n < 32768
    → All (FitsRow n) rows
    → send_rows n rows wfile ≡ (wfile ++ each row_frame rows, ok tt)
unfolding send_rows
send_rows_lem n [] wfile few h = rw (append-nil wfile) refl
send_rows_lem n (row ∷ rows) wfile few (hr, hs) =
    rw (data_row_packet_lem n row few hr, send_rows)
      (send_rows_lem n rows (wfile ++ row_frame row) few hs
        ∙ ap (λ w. (w, ok tt)) (append_assoc wfile (row_frame row) (each row_frame rows)))

read_back :
    (n : ℕ) (rows : List (List Bytes))
    → n < 32768
    → All (FitsRow n) rows
    → All (λ row. client_row (row_body row) ≡ ok (map shown row, [])) rows
read_back n [] few h = tt
read_back n (row ∷ rows) few (hr, hs) =
    let columns = hr.columns in
    let e = client_row-Reads row (omega arith) hr.short [] in
    (rw append-nil at e, read_back n rows few hs)

-- Rows of as many values as the first, below 2^15 of them and of sizes that fit, are written as one
-- packet each, in their order, and a client reads from the body of each the values, where the text
-- NULL is SQL's NULL.
pub send-data_row :
    (row : List Bytes) (rows : List (List Bytes)) (wfile : Bytes)
    → length row < 32768
    → All (FitsRow (length row)) (row ∷ rows)
    → (send (data_row (row ∷ rows)) wfile ≡ (wfile ++ each row_frame (row ∷ rows), ok tt))
      × All (λ r. client_row (row_body r) ≡ ok (map shown r, [])) (row ∷ rows)
unfolding send
send-data_row row rows wfile few h =
    (send_rows_lem (length row) (row ∷ rows) wfile few h, read_back (length row) (row ∷ rows) few h)
