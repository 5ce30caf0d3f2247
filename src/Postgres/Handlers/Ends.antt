-- ===== src/Postgres/Handlers/Ends.antt =====
-- `main_loop` of postgres_proxy.py without fuel: how a connection goes on from message to message, and
-- how it ends.
use mindsdb.Common.{
  ℕ, zero, suc, ◌<◌, ◌≡◌, refl, ap, Bool, true, false, Option, none, some, arith, length, Bytes,
  Result, ok, err, Error,
}
use mindsdb.Postgres.Frontend.{FrontendMessage, read_message}
use mindsdb.Postgres.Frontend.Progress.{read_message_progress}
use mindsdb.Postgres.Executor.{Engine}
use mindsdb.Common.Method.{M, continue}
use mindsdb.Postgres.Proxy.{Proxy, send_message, send_ready}
use mindsdb.Postgres.Proxy.Invariants.{send_ready-Keeps}
use mindsdb.Postgres.Handlers.{handle, go_on, round, loop, main_loop}
use mindsdb.Postgres.Handlers.Loop.{Unread, handle-Unread}

module _ {Q S : Type 0} (engine : Engine Q S) where
  -- The runs of `while True`, each of them finite: a message that cannot be read, the end of the
  -- client's bytes, and a handler that ends the connection, raises, or goes on.
  pub data Runs : Proxy Q S → Result (Unit {0}) × Proxy Q S → Type 0 where
    unreadable : (p : Proxy Q S) (e : Error) → read_message p.rfile ≡ err e → Runs p (err e, p)
    closed :
        (p : Proxy Q S) (rest : Bytes) → read_message p.rfile ≡ ok (none, rest) → Runs p (ok tt, p)
    ended :
        (p q : Proxy Q S) (m : FrontendMessage) (rest : Bytes)
        → read_message p.rfile ≡ ok (some m, rest)
        → handle engine m (record p { rfile = rest }) ≡ (ok false, q)
        → Runs p (ok tt, q)
    raised :
        (p q : Proxy Q S) (m : FrontendMessage) (rest : Bytes) (e : Error)
        → read_message p.rfile ≡ ok (some m, rest)
        → handle engine m (record p { rfile = rest }) ≡ (err e, q)
        → Runs p (err e, q)
    next :
        (p q : Proxy Q S) (m : FrontendMessage) (rest : Bytes) (end : Result (Unit {0}) × Proxy Q S)
        → read_message p.rfile ≡ ok (some m, rest)
        → handle engine m (record p { rfile = rest }) ≡ (ok true, q)
        → Runs q end
        → Runs p end

  -- The first ReadyForQuery, and the loop behind it.
  pub data Serves (p : Proxy Q S) : Result (Unit {0}) × Proxy Q S → Type 0 where
    unsent : (q : Proxy Q S) (e : Error) → send_ready p ≡ (err e, q) → Serves p (err e, q)
    ready :
        (q : Proxy Q S) (end : Result (Unit {0}) × Proxy Q S)
        → send_ready p ≡ (ok tt, q)
        → Runs q end
        → Serves p end

  handled-Runs :
      (again : M (Proxy Q S) (Unit {0})) (p : Proxy Q S) (m : FrontendMessage) (rest : Bytes)
      (x : Result Bool × Proxy Q S)
      → read_message p.rfile ≡ ok (some m, rest)
      → handle engine m (record p { rfile = rest }) ≡ x
      → Runs x.1 (again x.1)
      → Runs p (continue (go_on engine again) x)
  handled-Runs again p m rest (err e, q) r h k = Runs.raised p q m rest e r h
  handled-Runs again p m rest (ok false, q) r h k = Runs.ended p q m rest r h
  handled-Runs again p m rest (ok true, q) r h k = Runs.next p q m rest (again q) r h k

  round-Runs :
      (again : M (Proxy Q S) (Unit {0})) (p : Proxy Q S)
      (r : Result (Option FrontendMessage × Bytes))
      → read_message p.rfile ≡ r
      → ((q : Proxy Q S) → length q.rfile < length p.rfile → Runs q (again q))
      → Runs p (round engine again r p)
  unfolding round
  round-Runs again p (err e) r k = Runs.unreadable p e r
  round-Runs again p (ok (none, rest)) r k = Runs.closed p rest r
  round-Runs again p (ok (some m, rest)) r k =
      let x = handle engine m (record p { rfile = rest }) in
      let u : x.1.rfile ≡ rest = handle-Unread engine rest m (record p { rfile = rest }) refl in
      let less = read_message_progress p.rfile rest m r in
      handled-Runs again p m rest x r refl (k x.1 (omega (arith, ap length u)))

  loop-Runs : (n : ℕ) (p : Proxy Q S) → length p.rfile < n → Runs p (loop engine n p)
  unfolding loop
  loop-Runs zero p h = absurd (omega arith)
  loop-Runs (suc n) p h =
      round-Runs (loop engine n) p (read_message p.rfile) refl
        (λ q less. loop-Runs n q (omega arith))

  sent-Serves :
      (p : Proxy Q S) (x : Result (Unit {0}) × Proxy Q S)
      → send_ready p ≡ x
      → x.1.rfile ≡ p.rfile
      → Serves p (continue (λ _. loop engine (suc (length p.rfile))) x)
  sent-Serves p (err e, q) s u = Serves.unsent q e s
  sent-Serves p (ok _, q) s u =
      Serves.ready q (loop engine (suc (length p.rfile)) q) s
        (loop-Runs (suc (length p.rfile)) q (omega (arith, ap length u)))

  send_message-Unread :
      (r : Bytes) (m : _) (q : Proxy Q S) → Unread r q → Unread r (send_message m q).1
  unfolding send_message
  send_message-Unread r m q e = e

  -- Whatever the client sends, the main loop ends, with the outcome and the state of a finite run
  -- of `while True` behind the first ReadyForQuery: each round handles the next message, and the
  -- last one cannot read a message, finds no more bytes, or has a handler that ends the connection
  -- or raises.
  pub main_loop-Serves : (p : Proxy Q S) → Serves p (main_loop engine p)
  unfolding main_loop
  main_loop-Serves p =
      sent-Serves p (send_ready p) refl
        (send_ready-Keeps (Unread p.rfile) (send_message-Unread p.rfile) (λ c q e. e) p refl)
