-- ===== src/Wire/Command/Parse.antt =====
-- command_packet.py: each command as a client sends it, and as `setup` stores it.
use mindsdb.Common.{
  ℕ, suc, ◌+◌, ◌/◌, ◌^◌, ◌≤◌, ◌<◌, ◌≡◌, Bool, false, some, List, [], ◌∷◌, ◌++◌, map, arith, ◌==◌,
  ◌∙◌, ◌%◌, length, Bytes, le_bytes, All, ok,
}
use mindsdb.Common.Dict.{lookup}
use mindsdb.Wire.Datum.Fixed.{set_from_buff-le_bytes}
use mindsdb.Wire.Statements.{Statements, PreparedStmt}
use mindsdb.Wire.Command.{
  Command, query, stmt_prepare, stmt_execute, stmt_close, stmt_fetch, init_db, read_int, setup,
  setup_execute, setup_as,
}
use mindsdb.Wire.Command.Params.{
  Sent, type_bytes, values_bytes, is_null, IsSendable, all_bits, param, read_params-sent,
}

-- The commands on the client's side. An execution has the statement, the flags, the iteration count,
-- the parameters and their null bitmap.
pub data Request : Type 0 where
  ask : Bytes → Request
  prepare : Bytes → Request
  execute : ℕ → ℕ → ℕ → List Sent → Bytes → Request
  close : ℕ → Request
  fetch : ℕ → ℕ → Request
  use_db : Bytes → Request

abbrev pub request_body : Request → Bytes
request_body (ask sql) = 0x03 ∷ sql
request_body (prepare sql) = 0x16 ∷ sql
request_body (execute i flags n ps bitmap) =
    0x17
    ∷ (le_bytes 4 i
        ++ (le_bytes 1 flags
            ++ (le_bytes 4 n ++ (bitmap ++ 1 ∷ (type_bytes ps ++ (values_bytes ps ++ []))))))
request_body (close i) = 0x19 ∷ (le_bytes 4 i ++ [])
request_body (fetch i limit) = 0x1c ∷ (le_bytes 4 i ++ (le_bytes 4 limit ++ []))
request_body (use_db name) = 0x02 ∷ name

abbrev pub command_of : Request → Command
command_of (ask sql) = query sql
command_of (prepare sql) = stmt_prepare sql
command_of (execute i flags n ps bitmap) = stmt_execute i flags n (map param ps)
command_of (close i) = stmt_close i
command_of (fetch i limit) = stmt_fetch i limit
command_of (use_db name) = init_db name

-- Numbers fit their widths. An execution is of a statement that was prepared with as many parameters
-- as are sent, and its bitmap has a bit for each of them.
abbrev pub IsRequest : Statements → Request → Type 0
IsRequest d (execute i flags n ps bitmap) =
    (i < 256 ^ 4)
    × (flags < 256 ^ 1)
    × (n < 256 ^ 4)
    × ((p : PreparedStmt) × (lookup i d ≡ some p) × (length p.statement.params ≡ length ps))
    × All IsSendable ps
    × (length bitmap ≡ (length ps + 7) / 8)
    × ((pad : List Bool) × (all_bits bitmap ≡ map is_null ps ++ pad))
IsRequest d (close i) = i < 256 ^ 4
IsRequest d (fetch i limit) = (i < 256 ^ 4) × (limit < 256 ^ 4)
IsRequest d _ = Unit

read_int_lem :
    (n v : ℕ) (rest : Bytes)
    → n ≤ 8
    → v < 256 ^ n
    → read_int n (le_bytes n v ++ rest) ≡ ok (v, rest)
unfolding read_int
read_int_lem n v rest l h = rw (set_from_buff-le_bytes n v rest l h)

nonzero : (n : ℕ) → (suc n == 0) ≡ false
nonzero n = ground arith

-- `setup` on a body that begins with the byte `t` of the command.
setup_type :
    (d : Statements) (t : ℕ) (rest : Bytes)
    → t < 256
    → setup d (length (t ∷ rest)) (t ∷ rest) ≡ setup_as d t rest
unfolding setup
setup_type d t rest h =
    let small : t % 256 ≡ t = omega arith in
    let first : read_int 1 (t ∷ rest) ≡ ok (t, rest) =
      rw small at (read_int_lem 1 t rest (omega arith) h) in
    rw (nonzero (length rest), first)

setup_execute_lem :
    (d : Statements) (i flags n : ℕ) (ps : List Sent) (bitmap : Bytes)
    → IsRequest d (execute i flags n ps bitmap)
    → setup_execute d (
        le_bytes 4 i
        ++ (le_bytes 1 flags
            ++ (le_bytes 4 n ++ (bitmap ++ 1 ∷ (type_bytes ps ++ (values_bytes ps ++ []))))))
      ≡ ok (stmt_execute i flags n (map param ps))
unfolding setup_execute
setup_execute_lem d i flags n ps bitmap (hi, hf, hn, (p, found, count), hs, hb, (pad, hp)) = rw (
  read_int_lem 4 i _ (omega arith) hi,
  read_int_lem 1 flags _ (omega arith) hf,
  read_int_lem 4 n _ (omega arith) hn,
  found,
  count,
  read_params-sent ps bitmap pad [] hs hb hp,
)

-- A request of a client, with numbers that fit their widths, is read as the command that it stands
-- for. For an execution, the parameters are as many as the statement has, their types are sent,
-- each is NULL, an integer of 1, 2, 4 or 8 bytes that fits its type, signed or unsigned, or a
-- string of UTF-8 below 2^24 bytes, and the bitmap marks the NULLs; a negative integer is read as
-- the unsigned one with the same bytes.
pub setup-request :
    (d : Statements) (r : Request)
    → IsRequest d r
    → setup d (length (request_body r)) (request_body r) ≡ ok (command_of r)
unfolding setup_as
setup-request d (ask sql) h = setup_type d 3 sql (omega arith)
setup-request d (prepare sql) h = setup_type d 22 sql (omega arith)
setup-request d (execute i flags n ps bitmap) h =
    setup_type d 23 _ (omega arith) ∙ setup_execute_lem d i flags n ps bitmap h
setup-request d (close i) h =
    setup_type d 25 (le_bytes 4 i ++ []) (omega arith) ∙ rw (read_int_lem 4 i [] (omega arith) h)
setup-request d (fetch i limit) (hi, hl) =
    setup_type d 28 (le_bytes 4 i ++ (le_bytes 4 limit ++ [])) (omega arith)
    ∙ rw (
      read_int_lem 4 i (le_bytes 4 limit ++ []) (omega arith) hi,
      read_int_lem 4 limit [] (omega arith) hl,
    )
setup-request d (use_db name) h = setup_type d 2 name (omega arith)
