-- ===== src/Postgres/Handlers/Loop.antt =====
-- `main_loop` of postgres_proxy.py: it handles the messages of the client in their order.
use mindsdb.Common.{
  ℕ, zero, suc, ◌<◌, ◌≡◌, refl, ap, ◌∙◌, Bool, true, false, some, List, [], ◌∷◌, arith, length,
  length-append, Bytes, ok, All, ◌⊎◌, inl, inr,
}
use mindsdb.Postgres.Backend.{BackendMessage}
use mindsdb.Postgres.Frontend.{FrontendMessage, terminate, read_message}
use mindsdb.Postgres.Frontend.RoundTrip.{
  sent, heard, left, IsSendable, read_message-sent, left_cases, length-sent_pos,
}
use mindsdb.Postgres.Reader.Steps.{each}
use mindsdb.Postgres.Executor.{Engine}
use mindsdb.Common.Method.{M, continue, ◌>>◌}
use mindsdb.Common.Method.Keeps.{Keeps, continue_agree}
use mindsdb.Postgres.Proxy.{Proxy, send_message, send_ready}
use mindsdb.Postgres.Proxy.Invariants.{send_ready-Keeps}
use mindsdb.Postgres.Handlers.{
  store_statement, store_portal, handle, handle_terminate, go_on, round, loop, main_loop,
}
use mindsdb.Postgres.Handlers.Invariants.{IsStable, handle-Keeps}

module _ {Q S : Type 0} where
  -- what the client has still to say is `r`
  abbrev pub Unread : Bytes → Proxy Q S → Type 0
  Unread r p = p.rfile ≡ r

  store_statement-Unread :
      (name r : Bytes) (statement : _) (p : Proxy Q S)
      → Unread r p
      → Unread r (store_statement name statement p)
  unfolding store_statement
  store_statement-Unread [] r statement p e = e
  store_statement-Unread (x ∷ name) r statement p e = e

  store_portal-Unread :
      (name r : Bytes) (portal : _) (p : Proxy Q S)
      → Unread r p
      → Unread r (store_portal name portal p)
  unfolding store_portal
  store_portal-Unread [] r portal p e = e
  store_portal-Unread (x ∷ name) r portal p e = e

  send_message-Unread : (r : Bytes) (m : BackendMessage) → Keeps (Unread r) (send_message m)
  unfolding send_message
  send_message-Unread r m p e = e

  -- Handlers read nothing themselves.
  Unread-IsStable : (r : Bytes) → IsStable (Unread r)
  Unread-IsStable r = record {
    sends = send_message-Unread r;
    statuses = λ c p e. e;
    sessions = λ s p e. e;
    stores = λ m e p i. store_statement-Unread m.name r _ _ i;
    binds = λ m statement p h i. store_portal-Unread m.name r _ p i;
    runs = λ i e s p h. h;
  }

module _ {Q S : Type 0} (engine : Engine Q S) where
  pub handle-Unread : (r : Bytes) (m : FrontendMessage) → Keeps (Unread r) (handle engine m)
  handle-Unread r = handle-Keeps engine (Unread r) (Unread-IsStable r)

  go_on_agree :
      (again again' : M (Proxy Q S) (Unit {0})) (rest : Bytes)
      → ((q : Proxy Q S) → Unread rest q → again q ≡ again' q)
      → (res : Bool) (q : Proxy Q S) → Unread rest q
      → go_on engine again res q ≡ go_on engine again' res q
  go_on_agree again again' rest h true q e = h q e
  go_on_agree again again' rest h false q e = refl

  -- The server as its handlers see it: the messages of the client one after the other, until one of
  -- them ends the connection or raises.
  pub run : List FrontendMessage → M (Proxy Q S) (Unit {0})
  run [] p = (ok tt, p)
  run (m ∷ ms) p =
      continue (go_on engine (run ms))
        (handle engine (heard m) (record p { rfile = left m (each sent ms) }))

  -- a termination is not followed by anything
  terminate_agree :
      (again again' : M (Proxy Q S) (Unit {0})) (q : Proxy Q S)
      → continue (go_on engine again) (handle engine (heard terminate) q)
        ≡ continue (go_on engine again') (handle engine (heard terminate) q)
  unfolding handle handle_terminate heard
  terminate_agree again again' q = refl

  round-run :
      (ms : List FrontendMessage) (n : ℕ) (m : FrontendMessage) (p : Proxy Q S)
      → ((q : Proxy Q S) → Unread (each sent ms) q → loop engine n q ≡ run ms q)
      → (m ≡ terminate) ⊎ (left m (each sent ms) ≡ each sent ms)
      → round engine (loop engine n) (ok (some (heard m), left m (each sent ms))) p ≡ run (m ∷ ms) p
  unfolding round run
  round-run ms n m p ih (inl e) = rw e (
      terminate_agree (loop engine n) (run ms) (record p { rfile = left terminate (each sent ms) }))
  round-run ms n m p ih (inr e) =
      continue_agree (Unread (each sent ms)) (go_on engine (loop engine n)) (go_on engine (run ms))
        (handle engine (heard m) (record p { rfile = left m (each sent ms) }))
        (handle-Unread (each sent ms) (heard m) (record p { rfile = left m (each sent ms) }) e)
        (go_on_agree (loop engine n) (run ms) (each sent ms) ih)

  loop-run :
      (ms : List FrontendMessage) (n : ℕ) (p : Proxy Q S)
      → All IsSendable ms
      → Unread (each sent ms) p
      → length (each sent ms) < n
      → loop engine n p ≡ run ms p
  unfolding loop run
  loop-run ms zero p h u less = absurd (omega arith)
  loop-run [] (suc n) p h u less = ap (λ b. round engine (loop engine n) (read_message b) p) u
  loop-run (m ∷ ms) (suc n) p (hm, hs) u less =
      let longer = length-append (sent m) (each sent ms) in
      let some_byte = length-sent_pos m in
      ap (λ b. round engine (loop engine n) (read_message b) p) u
      ∙ ap (λ r. round engine (loop engine n) r p) (read_message-sent m (each sent ms) hm)
      ∙ round-run ms n m p (λ q v. loop-run ms n q hs v (omega arith)) (left_cases m (each sent ms))

  -- The main loop on the bytes of a client that sends messages of the seven types, with strings
  -- without NUL, numbers and counts that fit their widths, and values of Bind that are NULL or not
  -- empty, does what the handlers do on these messages one after the other: it writes the same,
  -- raises the same and leaves the same state, until a handler ends the connection or raises.
  pub main_loop-run :
      (ms : List FrontendMessage) (p : Proxy Q S)
      → All IsSendable ms
      → p.rfile ≡ each sent ms
      → main_loop engine p ≡ (send_ready >> run ms) p
  unfolding main_loop
  main_loop-run ms p h u =
      continue_agree (Unread (each sent ms)) (λ _. loop engine (suc (length p.rfile))) (λ _. run ms)
        (send_ready p)
        (send_ready-Keeps (Unread (each sent ms)) (send_message-Unread (each sent ms)) (λ c q e. e)
          p u)
        (λ _ q v. loop-run ms (suc (length p.rfile)) q h v (omega (arith, ap length u)))
