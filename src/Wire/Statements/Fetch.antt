-- ===== src/Wire/Statements/Fetch.antt =====
-- `answer_stmt_fetch` of mysql_proxy.py: which rows a client gets.
use native.Mathlib.Nat.{add-zero, sub-zero, zero-add}
use native.Mathlib.Decide.{dec_lt}
use mindsdb.Common.{
  append-nil, ℕ, zero, suc, ◌+◌, ◌-◌, ◌*◌, ◌≤◌, ◌<◌, ◌≡◌, refl, ap, Bool, true, false, some, List,
  [], ◌∷◌, ◌++◌, map, arith, leb, le→leb, if◌then◌else◌, length, take, slice, drop_all, Result, ok,
  err, length-take,
}
use mindsdb.Common.Dict.{lookup, lookup-insert_self}
use mindsdb.Wire.Statements.{
  Row, PreparedStmt, Statements, Message, binary_row, status_autocommit, status_cursor_exists,
  status_last_row_sent, last_packet, fetch_rows, answer_stmt_fetch,
}

-- The statement `i` is there, with the rows `all` of which `fetched` were sent.
pub record Holds (d : Statements) (i : ℕ) (all : List Row) (fetched : ℕ) : Type 0 where
  pub stmt : PreparedStmt
  pub found : lookup i d ≡ some stmt
  pub answer : stmt.statement.rows ≡ some all
  pub sent : stmt.fetched ≡ fetched

-- the packets of a fetch that sends `rows`
abbrev pub fetch_messages : Bool → List Row → ℕ → List Message
fetch_messages deprecate_eof rows status =
    map binary_row rows ++ last_packet deprecate_eof status ∷ []

abbrev pub fetch_status : ℕ → ℕ → ℕ
fetch_status size shown =
    if leb size shown
    then status_autocommit + status_last_row_sent
    else status_autocommit + status_cursor_exists

take_none : (n : ℕ) → take {A = Row} n [] ≡ []
take_none zero = refl
take_none (suc n) = refl

module _ (deprecate_eof : Bool) (i limit : ℕ) (d : Statements) (all : List Row) where
  answer_stmt_fetch_lem :
      (p : PreparedStmt)
      → lookup i d ≡ some p
      → p.statement.rows ≡ some all
      → answer_stmt_fetch deprecate_eof i limit d ≡ fetch_rows deprecate_eof i limit p all d
  unfolding answer_stmt_fetch
  answer_stmt_fetch_lem p h r = ground arith

  -- A fetch sends the rows from position `fetched` up to position `limit`, and notes them as sent.
  fetch_step :
      (fetched : ℕ)
      → Holds d i all fetched
      → let rows = slice fetched limit all in
        ((answer_stmt_fetch deprecate_eof i limit d).0
          ≡ ok (fetch_messages deprecate_eof rows (fetch_status (length all) (limit + fetched))))
        × Holds (answer_stmt_fetch deprecate_eof i limit d).1 i all (fetched + length rows)
  unfolding fetch_rows
  fetch_step fetched h =
      rw (answer_stmt_fetch_lem h.stmt h.found h.answer, h.sent)
        (
          refl,
          record {
            stmt = record (h.stmt) { fetched = fetched + length (slice fetched limit all) };
            found = lookup-insert_self i _ d;
            answer = h.answer;
            sent = refl;
          },
        )

  -- The first fetch after an execution sends the first `limit` rows, or all if there are fewer, and
  -- says that the last row was sent exactly when there are no more than `limit`.
  answer_stmt_fetch_first :
      Holds d i all 0
      → ((answer_stmt_fetch deprecate_eof i limit d).0
          ≡ ok (fetch_messages deprecate_eof (take limit all) (fetch_status (length all) limit)))
        × Holds (answer_stmt_fetch deprecate_eof i limit d).1 i all (length (take limit all))
  answer_stmt_fetch_first h = simp (sub-zero, zero-add, add-zero) at (fetch_step 0 h)

  -- Once `limit` rows were sent, or all, a fetch of `limit` rows sends none and counts none.
  pub fetch_later :
      (fetched : ℕ)
      → slice fetched limit all ≡ []
      → Holds d i all fetched
      → ((answer_stmt_fetch deprecate_eof i limit d).0
          ≡ ok (fetch_messages deprecate_eof [] (fetch_status (length all) (limit + fetched))))
        × Holds (answer_stmt_fetch deprecate_eof i limit d).1 i all fetched
  fetch_later fetched e h = rw (e, add-zero) at (fetch_step fetched h)

  slice_later : slice (length (take limit all)) limit all ≡ []
  slice_later = elim (dec_lt (length all) limit) [
    | yes p ↦
        rw (drop_all all (length (take limit all)) (omega (arith, length-take limit all)))
          (take_none (limit - length (take limit all)))
    | no p ↦
        let e : limit - length (take limit all) ≡ 0 = omega (arith, length-take limit all) in rw e
  ]

module _ (deprecate_eof : Bool) (i limit : ℕ) (d : Statements) (all : List Row) where
  -- Where `limit` rows are not all, but twice as many would be, the second fetch sends no row and
  -- says that the last row was sent: the client never gets the rows behind the first `limit`.
  pub answer_stmt_fetch_loses_rows :
      Holds d i all 0
      → limit < length all
      → length all ≤ 2 * limit
      → ((answer_stmt_fetch deprecate_eof i limit (answer_stmt_fetch deprecate_eof i limit d).1).0
          ≡ ok (fetch_messages deprecate_eof [] (status_autocommit + status_last_row_sent)))
        × (length (take limit all) < length all)
  answer_stmt_fetch_loses_rows h l m =
      let shown = length-take limit all in
      let d' = (answer_stmt_fetch deprecate_eof i limit d).1 in
      let first = answer_stmt_fetch_first deprecate_eof i limit d all h in
      let later =
        fetch_later deprecate_eof i limit d' all _ (slice_later deprecate_eof i limit d all)
          first.1 in
      let e : leb (length all) (limit + length (take limit all)) ≡ true =
        le→leb _ _ (omega arith) in
      (rw e at later.0, omega arith)

-- the rows among the packets of an answer
abbrev pub rows_of : List Message → List Row
rows_of [] = []
rows_of (binary_row r ∷ ms) = r ∷ rows_of ms
rows_of (m ∷ ms) = rows_of ms

abbrev pub rows_in : Result (List Message) → List Row
rows_in (ok ms) = rows_of ms
rows_in (err e) = []

-- the rows that `n` fetches of `limit` rows each send one after another
abbrev pub rows_fetched : Bool → ℕ → ℕ → ℕ → Statements → List Row
rows_fetched deprecate_eof i limit zero d = []
rows_fetched deprecate_eof i limit (suc n) d =
    let (answer, d') = answer_stmt_fetch deprecate_eof i limit d in
    rows_in answer ++ rows_fetched deprecate_eof i limit n d'

rows_of-fetch_messages :
    (deprecate_eof : Bool) (rows : List Row) (status : ℕ)
    → rows_of (fetch_messages deprecate_eof rows status) ≡ rows
unfolding last_packet
rows_of-fetch_messages true [] status = refl
rows_of-fetch_messages false [] status = refl
rows_of-fetch_messages deprecate_eof (r ∷ rows) status =
    ap (◌∷◌ r) (rows_of-fetch_messages deprecate_eof rows status)

module _ (deprecate_eof : Bool) (i limit : ℕ) (all : List Row) where
  pub rows_fetched_later :
      (n fetched : ℕ) (d : Statements)
      → slice fetched limit all ≡ []
      → Holds d i all fetched
      → rows_fetched deprecate_eof i limit n d ≡ []
  rows_fetched_later zero fetched d e h = refl
  rows_fetched_later (suc n) fetched d e h =
      let later = fetch_later deprecate_eof i limit d all fetched e h in
      rw (
        later.0,
        rows_of-fetch_messages,
        rows_fetched_later n fetched (answer_stmt_fetch deprecate_eof i limit d).1 e later.1,
      )

  -- However often a client fetches `limit` rows of an answer, once or more, it gets the first
  -- `limit` rows and no other.
  rows_fetched-eq-take :
      (n : ℕ) (d : Statements)
      → Holds d i all 0
      → rows_fetched deprecate_eof i limit (suc n) d ≡ take limit all
  rows_fetched-eq-take n d h =
      let first = answer_stmt_fetch_first deprecate_eof i limit d all h in
      rw (
        first.0,
        rows_of-fetch_messages,
        rows_fetched_later n _ (answer_stmt_fetch deprecate_eof i limit d).1
            (slice_later deprecate_eof i limit d all) first.1,
        append-nil,
      )
