-- ===== src/Wire/Statements/Session.antt =====
-- The COM_STMT handlers of mysql_proxy.py, one after another in a session.
use mindsdb.Common.{
  ℕ, ◌≤◌, ◌<◌, ◌≡◌, ◌≢◌, sym, Bool, true, false, none, some, List, [], arith, ◌==◌, Bool-cases,
  Option-cases, inl, inr, Result, ok, err, Result-cases,
}
use mindsdb.Common.Dict.{lookup, insert, remove, lookup-insert, lookup-remove}
use mindsdb.Wire.Datum.{Value}
use mindsdb.Wire.Statements.{
  Row, Executor, PreparedStmt, Statements, Engine, contains, register_stmt, unregister_stmt,
  execute_rows, fetch_rows, fetch_found, answer_stmt_fetch, answer_stmt_close, prepared,
  answer_stmt_prepare, executed, execute_found, answer_stmt_execute,
}
use mindsdb.Wire.Statements.Registry.{register_stmt-fresh}

-- What a client may send, and what it leaves of the statements.
pub data Event : Type 0 where
  prepare : List ℕ → Event
  execute : ℕ → List Value → Event
  fetch : ℕ → ℕ → Event
  close : ℕ → Event

-- Identifiers are from 1 to 99.
abbrev pub InRange : Statements → Type 0
InRange d = (i : ℕ) → lookup i d ≢ none → (1 ≤ i) × (i < 100)

empty-InRange : InRange []
unfolding lookup
empty-InRange i h = ground arith

insert-InRange :
    (k : ℕ) (p : PreparedStmt) (d : Statements)
    → 1 ≤ k
    → k < 100
    → InRange d
    → InRange (insert k p d)
insert-InRange k p d a b r i h =
    let e = lookup-insert k i p d in
    elim (Bool-cases (k == i)) [ inl m ↦ ground arith | inr m ↦ r i (rw (e, m) at h) ]

remove-InRange : (k : ℕ) (d : Statements) → InRange d → InRange (remove k d)
remove-InRange k d r i h =
    let e = lookup-remove k i d in
    elim (Bool-cases (k == i)) [ inl m ↦ ground arith | inr m ↦ r i (rw (e, m) at h) ]

-- A statement that is there is changed.
change-InRange :
    (k : ℕ) (p q : PreparedStmt) (d : Statements)
    → lookup k d ≡ some p
    → InRange d
    → InRange (insert k q d)
change-InRange k p q d e r =
    let found : lookup k d ≢ none = ground arith in
    let (a, b) = r k found in insert-InRange k q d a b r

execute_rows-InRange :
    (deprecate_eof : Bool) (k : ℕ) (p : PreparedStmt) (rows : List Row) (d : Statements)
    → 1 ≤ k
    → k < 100
    → InRange d
    → InRange (execute_rows deprecate_eof k p rows d).1
unfolding execute_rows
execute_rows-InRange false k p rows d a b r = r
execute_rows-InRange true k p rows d a b r = insert-InRange k _ d a b r

register_stmt-InRange :
    (p : PreparedStmt) (d d' : Statements) (i : ℕ)
    → register_stmt p d ≡ ok (i, d')
    → InRange d
    → InRange d'
register_stmt-InRange p d d' i h r j k =
    let fresh = register_stmt-fresh p d h in
    let e = fresh.3 j in
    elim (Bool-cases (i == j)) [
      | inl m ↦ (let a = fresh.0 in let b = fresh.1 in ground arith)
      | inr m ↦ r j (rw (e, m) at k)
    ]

module _ (deprecate_eof : Bool) where
  fetch-InRange :
      (k limit : ℕ) (d : Statements)
      → InRange d
      → InRange (answer_stmt_fetch deprecate_eof k limit d).1
  unfolding answer_stmt_fetch fetch_found fetch_rows
  fetch-InRange k limit d r = elim (Option-cases (lookup k d)) [
    | inl e ↦ rw e r
    | inr (p, e) ↦ elim (Option-cases p.statement.rows) [
      | inl n ↦ rw (e, fetch_found, n) r
      | inr (all, n) ↦ rw (e, fetch_found, n) (change-InRange k p _ d e r)
    ]
  ]

  close-InRange : (k : ℕ) (d : Statements) → InRange d → InRange (answer_stmt_close k d).1
  unfolding answer_stmt_close unregister_stmt
  close-InRange k d r = elim (Bool-cases (contains k d)) [
    | inl e ↦ rw (e, answer_stmt_close) (remove-InRange k d r)
    | inr e ↦ rw (e, answer_stmt_close) r
  ]

  module _ (engine : Engine) where
    executed-InRange :
        (k fetched : ℕ) (p : PreparedStmt) (answer : Result (Unit {0})) (e : Executor)
        (d : Statements)
        → lookup k d ≡ some p
        → InRange d
        → InRange (executed engine deprecate_eof k fetched (answer, e) d).1
    unfolding executed execute_rows
    executed-InRange k fetched p (err x) e d f r = change-InRange k p _ d f r
    executed-InRange k fetched p (ok u) e d f r =
        (let (a, b) = r k (ground arith) in
          let q : PreparedStmt = record { statement = e; fetched = fetched } in
          let r' = insert-InRange k q d a b r in
          elim (Option-cases e.rows) [
            | inl n ↦ rw (n, executed) r'
            | inr (rows, n) ↦
                rw (n, executed) (execute_rows-InRange deprecate_eof k q rows (insert k q d) a b r')
          ])

    prepared-InRange :
        (i : ℕ) (answer : Result (Unit {0}) × Executor) (d : Statements)
        → ((x : Executor) → InRange (insert i (record { statement = x; fetched = 0 }) d))
        → InRange (prepared engine deprecate_eof i answer d).1
    unfolding prepared
    prepared-InRange i (ok u, e) d r = r e
    prepared-InRange i (err x, e) d r = r e

    prepare-InRange :
        (sql : List ℕ) (d : Statements)
        → InRange d
        → InRange (answer_stmt_prepare engine deprecate_eof sql d).1
    unfolding answer_stmt_prepare
    prepare-InRange sql d r =
        (let new : PreparedStmt = record { statement = engine.new; fetched = 0 } in
          elim (Result-cases (register_stmt new d)) [
            | inl ((i, d'), e) ↦
                (let fresh = register_stmt-fresh new d e in
                  let r' = register_stmt-InRange new d d' i e r in
                  let stored = λ (x : Executor).
                    insert-InRange i (record { statement = x; fetched = 0 }) d' fresh.0 fresh.1
                      r' in
                  rw (e, answer_stmt_prepare)
                    (prepared-InRange i (engine.stmt_prepare engine.new sql) d' stored))
            | inr (x, e) ↦ rw (e, answer_stmt_prepare) r
          ])

    execute-InRange :
        (k : ℕ) (values : List Value) (d : Statements)
        → InRange d
        → InRange (answer_stmt_execute engine deprecate_eof k values d).1
    unfolding answer_stmt_execute execute_found
    execute-InRange k values d r = elim (Option-cases (lookup k d)) [
      | inl e ↦ rw e r
      | inr (p, e) ↦
          (let answer = engine.stmt_execute p.statement values in
            rw (e, execute_found) (executed-InRange k p.fetched p answer.0 answer.1 d e r))
    ]

    abbrev pub step : Event → Statements → Statements
    step (prepare sql) d = (answer_stmt_prepare engine deprecate_eof sql d).1
    step (execute i values) d = (answer_stmt_execute engine deprecate_eof i values d).1
    step (fetch i limit) d = (answer_stmt_fetch deprecate_eof i limit d).1
    step (close i) d = (answer_stmt_close i d).1

    -- The statements of a session, after any commands in any order, whether they succeed or raise.
    pub data Reachable : Statements → Type 0 where
      start : Reachable []
      next : (e : Event) (d d' : Statements) → Reachable d → step e d ≡ d' → Reachable d'

    step-InRange : (e : Event) (d : Statements) → InRange d → InRange (step e d)
    step-InRange (prepare sql) d r = prepare-InRange sql d r
    step-InRange (execute i values) d r = execute-InRange i values d r
    step-InRange (fetch i limit) d r = fetch-InRange i limit d r
    step-InRange (close i) d r = close-InRange i d r

    -- Whatever commands a session has had, in whatever order, whether they succeeded or raised, all
    -- its statements have identifiers from 1 to 99.
    pub Reachable-InRange :
        (d : Statements) → Reachable d → (i : ℕ) → lookup i d ≢ none → (1 ≤ i) × (i < 100)
    Reachable-InRange d start = empty-InRange
    Reachable-InRange d (next e d0 d' r s) = rw (sym s) (step-InRange e d0 (Reachable-InRange d0 r))
