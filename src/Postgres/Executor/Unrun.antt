-- ===== src/Postgres/Executor/Unrun.antt =====
-- executor.py: what `stmt_prepare` leaves for `stmt_execute` to run.
use mindsdb.Common.{
  ◌≡◌, refl, ap, sym, false, inl, inr, Bool-cases, ok_of_bind, ◌∙◌, ◌==◌, Bytes, List, ok, ℕ,
}
use mindsdb.Wire.Text.Decode.{decode}
use mindsdb.Postgres.Executor.{Engine, Executor, parsed, parse, with_columns, stmt_prepare}

module _ {Q S : Type 0} (engine : Engine Q S) where
  same_flag : (e e' : Executor Q) → ok e ≡ ok e' → e.is_executed ≡ false → e'.is_executed ≡ false
  same_flag e e' h n = let same : e ≡ e' = cc in ap (λ x. x.is_executed) (sym same) ∙ n

  parse_not_run : (sql : List ℕ) (e : Executor Q) → parse engine sql ≡ ok e → e.is_executed ≡ false
  unfolding parse
  parse_not_run sql e h =
      let (q, _, h') =
        ok_of_bind (parsed engine (engine.parse_mindsdb sql) (engine.parse_mysql sql)) _ e h in
      same_flag _ e h' refl

  with_columns_not_run :
      (s : S) (e e' : Executor Q)
      → e.is_executed ≡ false
      → with_columns engine s e ≡ ok e'
      → e'.is_executed ≡ false
  unfolding with_columns
  with_columns_not_run s e e' n h = elim (Bool-cases (engine.param_count e.query == 0)) [
    | inl k ↦ same_flag e e' (rw (k, with_columns) at h) n
    | inr k ↦
        (let (columns, _, h') =
            ok_of_bind (engine.prepare_columns s e.query) _ e' (rw (k, with_columns) at h) in
          same_flag (record e { columns = columns }) e' h' n)
  ]

  -- a statement that is prepared has not run
  pub stmt_prepare_not_run :
      (s : S) (sql : Bytes) (e : Executor Q)
      → stmt_prepare engine s sql ≡ ok e
      → e.is_executed ≡ false
  unfolding stmt_prepare
  stmt_prepare_not_run s sql e h =
      let (text, _, h₁) = ok_of_bind (decode sql) _ e h in
      let (e₀, k, h₂) = ok_of_bind (parse engine text) _ e h₁ in
      with_columns_not_run s e₀ e (parse_not_run text e₀ k) h₂
