-- ===== src/Wire/Statements/Lifecycle.antt =====
-- Preparing, executing and closing a statement: the handlers of mysql_proxy.py.
use mindsdb.Common.{
  ℕ, ◌≡◌, refl, Bool, none, some, List, [], arith, ◌==◌, if◌then◌else◌, Error, ok, err, key_error,
}
use mindsdb.Common.Dict.{lookup, lookup-insert, lookup-remove}
use mindsdb.Wire.Statements.{
  Executor, Statements, Engine, contains, register_stmt, answer_stmt_prepare, answer_stmt_close,
}
use mindsdb.Wire.Statements.Registry.{register_stmt-fresh}

-- COM_STMT_CLOSE succeeds if the statement is there, and raises `KeyError` else. In either case
-- that statement is not there afterwards, and all others are as they were.
answer_stmt_close_lem :
    (i j : ℕ) (d : Statements)
    → ((answer_stmt_close i d).0 ≡ elim (lookup i d) [ none ↦ err key_error | some p ↦ ok [] ])
      × (lookup j (answer_stmt_close i d).1 ≡ (if i == j then none else lookup j d))
unfolding answer_stmt_close contains
answer_stmt_close_lem i j d = (ground arith, ground (arith, lookup-remove i j d))

module _ (engine : Engine) where
  -- A statement whose preparation raises stays registered under its new identifier, until the
  -- client closes it; the error goes to the client, and no other statement is touched.
  answer_stmt_prepare_error :
      (deprecate_eof : Bool) (sql : List ℕ) (d d' : Statements) (i : ℕ) (x : Error) (e : Executor)
      → register_stmt (record { statement = engine.new; fetched = 0 }) d ≡ ok (i, d')
      → engine.stmt_prepare engine.new sql ≡ (err x, e)
      → ((answer_stmt_prepare engine deprecate_eof sql d).0 ≡ err x)
        × ((j : ℕ)
            → lookup j (answer_stmt_prepare engine deprecate_eof sql d).1
              ≡ (if i == j then some (record { statement = e; fetched = 0 }) else lookup j d))
  unfolding answer_stmt_prepare
  answer_stmt_prepare_error deprecate_eof sql d d' i x e r p =
      rw (r, p, answer_stmt_prepare)
        (
          refl,
          λ j. ground (
            arith,
            lookup-insert i j (record { statement = e; fetched = 0 }) d',
            (register_stmt-fresh _ d r).3 j,
          ),
        )
