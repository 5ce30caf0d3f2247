-- ===== src/Postgres/Handlers/Described.antt =====
-- `describe` of postgres_proxy.py: when a client gets a description.
use mindsdb.Common.{
  ℕ, ◌≡◌, refl, Bool, Option, none, some, List, [], ◌∷◌, arith, Bytes, Result, ok, err, ◌⊎◌, inl,
  inr, ◌==◌, ==_iff, Bool-cases,
}
use mindsdb.Postgres.Backend.{send, invalid_sql_statement_name, data_exception}
use mindsdb.Postgres.Answers.{Column}
use mindsdb.Postgres.Executor.{Executor}
use mindsdb.Common.Method.{continue}
use mindsdb.Postgres.Proxy.{Proxy, Statement, Portal, send_message}
use mindsdb.Postgres.Handlers.{
  find_statement, find_portal, named_or, executor_at, fields_of_columns, describe_executor,
  describe_unnamed, describe_portal, describe_found, describe_statement, handle_describe,
}

named_none :
    {A : Type 0} (name : Bytes) (found unnamed : Option A)
    → named_or name found unnamed ≡ ok none
    → (name ≡ []) × (unnamed ≡ none)
unfolding named_or
named_none [] found unnamed e = (refl, ground arith)
named_none (x ∷ name) none unnamed e = absurd (ground arith)
named_none (x ∷ name) (some a) unnamed e = absurd (ground arith)

module _ {Q S : Type 0} where
  fields_of_columns_ok :
      (columns : List Column) (p : Proxy Q S) (r : Bool)
      → (fields_of_columns columns p).0 ≡ ok r
      → columns ≡ []
  unfolding fields_of_columns
  fields_of_columns_ok [] p r e = refl
  fields_of_columns_ok (c ∷ columns) p r e = ground arith

  -- What a portal must be to be described.
  pub record IsDescribed (name : Bytes) (p : Proxy Q S) : Type 0 where
    pub portal : Portal
    pub executor : Executor Q
    pub found : find_portal name p ≡ ok (some portal)
    pub has : executor_at portal.statement.executor p ≡ ok executor
    pub no_columns : executor.columns ≡ []

  executor_ok :
      (name : Bytes) (portal : Portal) (x : Result (Executor Q)) (p : Proxy Q S) (r : Bool)
      → find_portal name p ≡ ok (some portal)
      → executor_at portal.statement.executor p ≡ x
      → (continue (λ e. fields_of_columns e.columns) (x, p)).0 ≡ ok r
      → IsDescribed name p
  executor_ok name portal (err e) p r f h k = ground arith
  executor_ok name portal (ok e) p r f h k = record {
    portal = portal;
    executor = e;
    found = f;
    has = h;
    no_columns = fields_of_columns_ok e.columns p r k;
  }

  describe_executor_ok :
      (name : Bytes) (o : Option Portal) (p : Proxy Q S) (r : Bool)
      → find_portal name p ≡ ok o
      → (describe_executor o p).0 ≡ ok r
      → IsDescribed name p
  unfolding describe_executor
  describe_executor_ok name none p r f h = ground arith
  describe_executor_ok name (some portal) p r f h =
      executor_ok name portal (executor_at portal.statement.executor p) p r f refl h

  found_ok :
      (name : Bytes) (x : Result (Option Portal)) (p : Proxy Q S) (r : Bool)
      → find_portal name p ≡ x
      → (continue describe_executor (x, p)).0 ≡ ok r
      → IsDescribed name p
  found_ok name (err e) p r f h = ground arith
  found_ok name (ok o) p r f h = describe_executor_ok name o p r f h

  unnamed_ok :
      (s : Option Statement) (p : Proxy Q S) (r : Bool)
      → (describe_unnamed s p).0 ≡ ok r
      → IsDescribed [] p
  unfolding describe_unnamed invalid_sql_statement_name send_message send
  unnamed_ok none p r h = absurd (ground arith)
  unnamed_ok (some s) p r h =
      describe_executor_ok [] p.unnamed_portal p r (unfold find_portal named_or in refl) h

  describe_portal_ok :
      (name : Bytes) (p : Proxy Q S) (r : Bool)
      → (describe_portal name p).0 ≡ ok r
      → IsDescribed name p
  unfolding describe_portal
  describe_portal_ok [] p r h = unnamed_ok p.unnamed_statement p r h
  describe_portal_ok (x ∷ name) p r h = found_ok (x ∷ name) (find_portal (x ∷ name) p) p r refl h

  statement_ok :
      (name : Bytes) (x : Result (Option Statement)) (p : Proxy Q S) (r : Bool)
      → find_statement name p ≡ x
      → (continue describe_found (x, p)).0 ≡ ok r
      → (name ≡ []) × (p.unnamed_statement ≡ none)
  unfolding describe_found find_statement
  statement_ok name (err e) p r f h = absurd (ground arith)
  statement_ok name (ok (some s)) p r f h = absurd (ground arith)
  statement_ok name (ok none) p r f h = named_none name _ p.unnamed_statement f

  -- Describe raises but in two cases: a portal that is there and whose executor knows no columns,
  -- and the unnamed statement where there is none. The columns and the parameters of a statement
  -- are never described.
  pub handle_describe_ok :
      (kind : ℕ) (name : Bytes) (p : Proxy Q S) (r : Bool)
      → (handle_describe kind name p).0 ≡ ok r
      → ((kind ≡ b'P') × IsDescribed name p)
        ⊎ ((kind ≡ b'S') × (name ≡ []) × (p.unnamed_statement ≡ none))
  unfolding handle_describe describe_statement data_exception send_message send
  handle_describe_ok kind name p r h = elim (Bool-cases (kind == b'P')) [
    | inl portal ↦ inl ((==_iff kind b'P').0 portal, describe_portal_ok name p r (rw portal at h))
    | inr other ↦ elim (Bool-cases (kind == b'S')) [
      | inl statement ↦
          (let x =
              statement_ok name (find_statement name p) p r refl (rw (other, statement) at h) in
            inr ((==_iff kind b'S').0 statement, x.0, x.1))
      | inr wrong ↦ absurd (let k = rw (other, wrong) at h in ground arith)
    ]
  ]
