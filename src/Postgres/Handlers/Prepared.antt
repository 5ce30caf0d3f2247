-- ===== src/Postgres/Handlers/Prepared.antt =====
-- The extended queries of postgres_proxy.py: Parse, Bind, Describe, Execute.
use mindsdb.Common.{
  ℕ, ◌≡◌, refl, ap, sym, ◌∙◌, true, false, Option, some, List, [], ◌∷◌, ◌++◌, arith, length, Bytes,
  ok, append_assoc, get_elem?, ==_refl,
}
use mindsdb.Postgres.Builder.{bytes_eq}
use mindsdb.Postgres.Backend.{BackendMessage, parse_complete, bind_complete}
use mindsdb.Postgres.Backend.Frames.{frame, send-parse_complete, send-bind_complete}
use mindsdb.Postgres.Frontend.{Parse, Bind}
use mindsdb.Postgres.Executor.{Engine, Executor, stmt_prepare, stmt_execute}
use mindsdb.Postgres.Executor.Unrun.{stmt_prepare_not_run}
use mindsdb.Postgres.Startup.{BytesDict, lookup, insert}
use mindsdb.Common.Method.{continue, ◌>>=◌, ◌>>◌, return}
use mindsdb.Common.Method.Keeps.{Keeps, continue-Keeps, >>-Keeps}
use mindsdb.Postgres.Proxy.Invariants.{respond-Keeps}
use mindsdb.Postgres.Proxy.{
  Proxy, Statement, Portal, set, send_message, respond, return_executor_data,
}
use mindsdb.Postgres.Handlers.{
  named_or, store_statement, store_portal, find_statement, find_portal, bind_to, handle_bind,
  executor_at, prepared, handle_parse, answer_executed, execute_portal, handle_execute,
}
use mindsdb.Postgres.Handlers.Queries.{send_then}

bytes_eq_refl : (bs : Bytes) → bytes_eq bs bs ≡ true
unfolding bytes_eq
bytes_eq_refl [] = refl
bytes_eq_refl (b ∷ bs) = rw (==_refl b) (bytes_eq_refl bs)

lookup-insert_self :
    {V : Type 0} (k : Bytes) (v : V) (d : BytesDict V) → lookup k (insert k v d) ≡ some v
unfolding lookup insert
lookup-insert_self k v [] = rw (bytes_eq_refl k) refl
lookup-insert_self k v ((j, w) ∷ d) = ground (arith, bytes_eq_refl k, lookup-insert_self k v d)

get_elem?-snoc {ℓ} :
    {A : Type ℓ} (xs : List A) (a : A) → get_elem? (xs ++ a ∷ []) (length xs) ≡ some a
get_elem?-snoc [] a = refl
get_elem?-snoc (x ∷ xs) a = get_elem?-snoc xs a

module _ {Q S : Type 0} where
  find-store_statement :
      (name : Bytes) (s : Statement) (p : Proxy Q S)
      → find_statement name (store_statement name s p) ≡ ok (some s)
  unfolding find_statement store_statement named_or
  find-store_statement [] s p = refl
  find-store_statement (x ∷ name) s p = rw (lookup-insert_self (x ∷ name) s p.named_statements) refl

  find-store_portal :
      (name : Bytes) (s : Portal) (p : Proxy Q S)
      → find_portal name (store_portal name s p) ≡ ok (some s)
  unfolding find_portal store_portal named_or
  find-store_portal [] s p = refl
  find-store_portal (x ∷ name) s p = rw (lookup-insert_self (x ∷ name) s p.named_portals) refl

  -- the executors and what was written, as storing leaves them
  kept :
      (name : Bytes) (s : Statement) (p : Proxy Q S)
      → ((store_statement name s p).wfile ≡ p.wfile)
        × ((store_statement name s p).executors ≡ p.executors)
  unfolding store_statement
  kept [] s p = (refl, refl)
  kept (x ∷ name) s p = (refl, refl)

  kept_portal :
      (name : Bytes) (s : Portal) (p : Proxy Q S)
      → ((store_portal name s p).wfile ≡ p.wfile)
        × ((store_portal name s p).executors ≡ p.executors)
  unfolding store_portal
  kept_portal [] s p = (refl, refl)
  kept_portal (x ∷ name) s p = (refl, refl)

  abbrev wrote : Bytes → Proxy Q S → Proxy Q S
  wrote out q = record q { wfile = q.wfile ++ out }

  -- writing leaves what is stored
  find-wrote :
      (name out : Bytes) (p : Proxy Q S)
      → (find_statement name (wrote out p) ≡ find_statement name p)
        × (find_portal name (wrote out p) ≡ find_portal name p)
  unfolding find_statement find_portal
  find-wrote name out p = (refl, refl)

  bind_found :
      (b : Bind) (statement : Statement) (q : Proxy Q S)
      → find_statement b.statement_name q ≡ ok (some statement)
      → handle_bind b q ≡ (
        ok true,
        wrote (frame b'2' []) (store_portal b.name (record { statement = statement; bound = b }) q),
      )
  unfolding handle_bind bind_to
  bind_found b statement q found =
      let portal : Portal = record { statement = statement; bound = b } in
      ap (λ r. continue (bind_to b) (r, q)) found
      ∙ send_then bind_complete (frame b'2' []) (return true) (store_portal b.name portal q)
          (send-bind_complete (store_portal b.name portal q).wfile)

module _ {Q S : Type 0} where
  send_message-session :
      (s : S) (m : BackendMessage) → Keeps {P = Proxy Q S} (λ q. q.session ≡ s) (send_message m)
  unfolding send_message
  send_message-session s m p h = h

module _ {Q S : Type 0} (engine : Engine Q S) where
  parse_prepared :
      (m : Parse) (e : Executor Q) (p : Proxy Q S)
      → stmt_prepare engine p.session m.query ≡ ok e
      → handle_parse engine m p ≡ (
        ok true,
        wrote (frame b'1' []) (
            store_statement m.name
              (record { executor = length p.executors; message = m })
              (record p { executors = p.executors ++ e ∷ [] })),
      )
  unfolding handle_parse prepared
  parse_prepared m e p done =
      let s : Statement = record { executor = length p.executors; message = m } in
      let q = store_statement m.name s (record p { executors = p.executors ++ e ∷ [] }) in
      ap (λ r. prepared engine m r p) done
      ∙ send_then parse_complete (frame b'1' []) (return true) q (send-parse_complete q.wfile)

  -- What a client has after a Parse and a Bind to it.
  pub record IsBound (m : Parse) (b : Bind) (e : Executor Q) (p q : Proxy Q S) : Type 0 where
    pub portal :
        find_portal b.name q
        ≡ ok (
            some (record {
              statement = record { executor = length p.executors; message = m };
              bound = b;
            }))
    pub executor : executor_at (length p.executors) q ≡ ok e
    pub not_run : e.is_executed ≡ false
    pub written : q.wfile ≡ p.wfile ++ (frame b'1' [] ++ frame b'2' [])

  executor_at_of :
      (n : ℕ) (q : Proxy Q S) (es : List (Executor Q)) (e : Executor Q)
      → q.executors ≡ es
      → get_elem? es n ≡ some e
      → executor_at n q ≡ ok e
  unfolding executor_at
  executor_at_of n q es e same there = rw (ap (λ xs. get_elem? xs n) same ∙ there, executor_at) refl

  -- If a statement can be prepared, Parse and then Bind to its name succeed and write ParseComplete
  -- and BindComplete. Then the name of the portal stands for that statement with the values of the
  -- Bind message, and its executor is the prepared one, not yet run.
  pub handle_bind-handle_parse :
      (m : Parse) (b : Bind) (e : Executor Q) (p : Proxy Q S)
      → stmt_prepare engine p.session m.query ≡ ok e
      → b.statement_name ≡ m.name
      → (q : Proxy Q S) × ((handle_parse engine m >>= λ _. handle_bind b) p ≡ (ok true, q))
        × IsBound m b e p q
  handle_bind-handle_parse m b e p done named =
      let s : Statement = record { executor = length p.executors; message = m } in
      let portal : Portal = record { statement = s; bound = b } in
      let p₀ : Proxy Q S = record p { executors = p.executors ++ e ∷ [] } in
      let p₁ = store_statement m.name s p₀ in
      let q₁ = wrote (frame b'1' []) p₁ in
      let p₂ = store_portal b.name portal q₁ in
      let q₂ = wrote (frame b'2' []) p₂ in
      let found : find_statement b.statement_name q₁ ≡ ok (some s) =
        ap (λ n. find_statement n q₁) named
        ∙ (find-wrote m.name (frame b'1' []) p₁).0
        ∙ find-store_statement m.name s p₀ in
      let run : (handle_parse engine m >>= λ _. handle_bind b) p ≡ (ok true, q₂) =
        ap (continue (λ _. handle_bind b)) (parse_prepared m e p done) ∙ bind_found b s q₁ found in
      let executors : q₂.executors ≡ p.executors ++ e ∷ [] =
        (kept_portal b.name portal q₁).1 ∙ (kept m.name s p₀).1 in
      let w₁ = ap (λ w. w ++ frame b'1' []) (kept m.name s p₀).0 in
      let w₂ = ap (λ w. w ++ frame b'2' []) (kept_portal b.name portal q₁).0 in
      (
        q₂,
        run,
        record {
          portal = (find-wrote b.name (frame b'2' []) p₂).1 ∙ find-store_portal b.name portal q₁;
          executor =
              executor_at_of (length p.executors) q₂ (p.executors ++ e ∷ []) e executors
                (get_elem?-snoc p.executors e);
          not_run = stmt_prepare_not_run engine p.session m.query e done;
          written =
              w₂
              ∙ ap (λ w. w ++ frame b'2' []) w₁
              ∙ append_assoc p.wfile (frame b'1' []) (frame b'2' []);
        },
      )

  -- An executor that ran is not run again.
  stmt_execute_again :
      (s : S) (params : List (Option Bytes)) (e : Executor Q)
      → e.is_executed ≡ true
      → stmt_execute engine s params e ≡ (ok e, s)
  unfolding stmt_execute
  stmt_execute_again s params e h = ground arith

  execute_found :
      (name : Bytes) (portal : Portal) (e : Executor Q) (p : Proxy Q S)
      → find_portal name p ≡ ok (some portal)
      → executor_at portal.statement.executor p ≡ ok e
      → handle_execute engine name p
        ≡ answer_executed engine portal.statement.executor
            (stmt_execute engine p.session portal.bound.parameters e)
            p
  unfolding handle_execute execute_portal
  execute_found name portal e p found there =
      let n = portal.statement.executor in
      ap (λ r. continue (execute_portal engine) (r, p)) found
      ∙ ap
          (λ r.
            continue
              (λ x.
                answer_executed engine n (stmt_execute engine p.session portal.bound.parameters x))
              (r, p))
          there

  answer_executed-session :
      (n : ℕ) (e : Executor Q) (s : S) (p : Proxy Q S)
      → (answer_executed engine n (ok e, s) p).1.session ≡ s
  unfolding answer_executed
  answer_executed-session n e s p =
      let I : Proxy Q S → Type 0 = λ q. q.session ≡ s in
      continue-Keeps I (λ answer. respond e.sql answer false >> return true)
        (return_executor_data e, record p { session = s; executors = set n e p.executors })
        (λ answer.
          >>-Keeps I (respond e.sql answer false) (return true)
            (respond-Keeps I (send_message-session s) (λ c q h. h) e.sql answer false) (λ q h. h))
        refl

  -- Where the executor of a portal was run, executing any other portal of the same statement,
  -- whatever its values, does what executing this one does, and runs nothing: the session stays as
  -- it is.
  pub handle_execute_again :
      (name name' : Bytes) (portal portal' : Portal) (e : Executor Q) (p : Proxy Q S)
      → find_portal name p ≡ ok (some portal)
      → find_portal name' p ≡ ok (some portal')
      → portal'.statement.executor ≡ portal.statement.executor
      → executor_at portal.statement.executor p ≡ ok e
      → e.is_executed ≡ true
      → (handle_execute engine name' p ≡ handle_execute engine name p)
        × ((handle_execute engine name p).1.session ≡ p.session)
  handle_execute_again name name' portal portal' e p found found' same there ran =
      let n = portal.statement.executor in
      let n' = portal'.statement.executor in
      let first : handle_execute engine name p ≡ answer_executed engine n (ok e, p.session) p =
        execute_found name portal e p found there
        ∙ ap (λ r. answer_executed engine n r p)
            (stmt_execute_again p.session portal.bound.parameters e ran) in
      let second : handle_execute engine name' p ≡ answer_executed engine n (ok e, p.session) p =
        execute_found name' portal' e p found' (ap (λ i. executor_at i p) same ∙ there)
        ∙ ap (λ r. answer_executed engine n' r p)
            (stmt_execute_again p.session portal'.bound.parameters e ran)
        ∙ ap (λ i. answer_executed engine i (ok e, p.session) p) same in
      (second ∙ sym first, ap (λ r. r.1.session) first ∙ answer_executed-session n e p.session p)
