-- ===== src/Postgres/Handlers/Others.antt =====
-- postgres_proxy.py: a Parse and a Bind leave the statements and the portals of other names alone.
use mindsdb.Common.{
  ℕ, ◌≡◌, ◌≢◌, refl, sym, true, false, Option, none, some, [], ◌∷◌, Bytes, Result, ok, err, inl,
  inr, Bool-cases,
}
use mindsdb.Auth.Admitted.{bytes_eq→eq}
use mindsdb.Common.Method.{continue, ◌>>◌, return}
use mindsdb.Common.Method.Keeps.{Keeps, >>-Keeps}
use mindsdb.Postgres.Builder.{bytes_eq}
use mindsdb.Postgres.Backend.{BackendMessage, bind_complete, invalid_sql_statement_name}
use mindsdb.Postgres.Frontend.{Bind}
use mindsdb.Postgres.Executor.{Executor}
use mindsdb.Postgres.Startup.{BytesDict, lookup, insert}
use mindsdb.Postgres.Proxy.{Proxy, Statement, Portal, send_message}
use mindsdb.Postgres.Handlers.{
  named_or, store_portal, find_statement, find_portal, bind_to, handle_bind,
}

bytes_eq-false : (k j : Bytes) → k ≢ j → bytes_eq j k ≡ false
bytes_eq-false k j n = elim (Bool-cases (bytes_eq j k)) [
  | inl e ↦ absurd (n (sym (bytes_eq→eq j k e)))
  | inr e ↦ e
]

lookup-insert_other :
    {V : Type 0} (k j : Bytes) (v : V) (d : BytesDict V)
    → k ≢ j
    → lookup k (insert j v d) ≡ lookup k d
unfolding lookup insert
lookup-insert_other k j v [] n = rw (bytes_eq-false k j n) refl
lookup-insert_other k j v ((i, w) ∷ d) n = elim (Bool-cases (bytes_eq i j)) [
  | inl e ↦
      (let same : i ≡ j = bytes_eq→eq i j e in rw (e, insert, same, bytes_eq-false k j n) refl)
  | inr e ↦ rw (e, lookup-insert_other k j v d n) refl
]

named_or_named :
    {A : Type 0} (x : ℕ) (name : Bytes) (found u u' : Option A)
    → named_or (x ∷ name) found u ≡ named_or (x ∷ name) found u'
unfolding named_or
named_or_named x name none u u' = refl
named_or_named x name (some a) u u' = refl

module _ {Q S : Type 0} where
  find-store_portal_other :
      (name name' : Bytes) (s : Portal) (p : Proxy Q S)
      → name ≢ name'
      → find_portal name (store_portal name' s p) ≡ find_portal name p
  unfolding find_portal store_portal named_or
  find-store_portal_other [] [] s p n = absurd (n refl)
  find-store_portal_other [] (y ∷ name') s p n = refl
  find-store_portal_other (x ∷ name) [] s p n =
      named_or_named x name (lookup (x ∷ name) p.named_portals) (some s) p.unnamed_portal
  find-store_portal_other (x ∷ name) (y ∷ name') s p n =
      rw (lookup-insert_other (x ∷ name) (y ∷ name') s p.named_portals n) refl

  find_statement-store_portal :
      (name name' : Bytes) (s : Portal) (p : Proxy Q S)
      → find_statement name (store_portal name' s p) ≡ find_statement name p
  unfolding find_statement store_portal
  find_statement-store_portal name [] s p = refl
  find_statement-store_portal name (y ∷ name') s p = refl

  -- Writing leaves what is stored, and the executors.
  send_true-statement :
      (name : Bytes) (r : Result (Option Statement)) (m : BackendMessage)
      → Keeps {P = Proxy Q S} (λ q. find_statement name q ≡ r) (send_message m >> return true)
  unfolding send_message find_statement
  send_true-statement name r m =
      >>-Keeps (λ q. find_statement name q ≡ r) (send_message m) (return true) (λ p h. h) (λ p h. h)

  send_true-portal :
      (name : Bytes) (r : Result (Option Portal)) (m : BackendMessage)
      → Keeps {P = Proxy Q S} (λ q. find_portal name q ≡ r) (send_message m >> return true)
  unfolding send_message find_portal
  send_true-portal name r m =
      >>-Keeps (λ q. find_portal name q ≡ r) (send_message m) (return true) (λ p h. h) (λ p h. h)

  bind_to-others :
      (b : Bind) (found : Result (Option Statement)) (name name' : Bytes) (p : Proxy Q S)
      → name ≢ b.name
      → (find_portal name (continue (bind_to b) (found, p)).1 ≡ find_portal name p)
        × (find_statement name' (continue (bind_to b) (found, p)).1 ≡ find_statement name' p)
  unfolding bind_to
  bind_to-others b (err e) name name' p n = (refl, refl)
  bind_to-others b (ok none) name name' p n = (
    send_true-portal name (find_portal name p) (invalid_sql_statement_name none) p refl,
    send_true-statement name' (find_statement name' p) (invalid_sql_statement_name none) p refl,
  )
  bind_to-others b (ok (some statement)) name name' p n =
      let portal : Portal = record { statement = statement; bound = b } in
      (
        send_true-portal name (find_portal name p) bind_complete _
            (find-store_portal_other name b.name portal p n),
        send_true-statement name' (find_statement name' p) bind_complete _
            (find_statement-store_portal name' b.name portal p),
      )

  -- A Bind, whether it succeeds, answers with an error or raises, leaves the portals of all other
  -- names as they were, and all statements.
  pub handle_bind-others :
      (b : Bind) (name name' : Bytes) (p : Proxy Q S)
      → name ≢ b.name
      → (find_portal name (handle_bind b p).1 ≡ find_portal name p)
        × (find_statement name' (handle_bind b p).1 ≡ find_statement name' p)
  unfolding handle_bind
  handle_bind-others b name name' p n =
      bind_to-others b (find_statement b.statement_name p) name name' p n
