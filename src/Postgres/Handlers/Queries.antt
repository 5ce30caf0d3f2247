-- ===== src/Postgres/Handlers/Queries.antt =====
-- `query` of postgres_proxy.py: what the client gets for a simple query.
use mindsdb.Common.{
  ℕ, ◌≡◌, refl, ap, ◌∙◌, true, none, List, [], ◌∷◌, ◌++◌, Bytes, codes, ok, err, Error,
  append_assoc,
}
use mindsdb.Wire.Text.{utf8}
use mindsdb.Postgres.Backend.{BackendMessage, ready_for_query, from_answer, send}
use mindsdb.Postgres.Backend.Frames.{frame, InRange, error_body, send-error, send-ready_for_query}
use mindsdb.Postgres.Answers.{SqlAnswer, failure}
use mindsdb.Postgres.Executor.{Engine, query_execute}
use mindsdb.Common.Method.{M, continue, ◌>>=◌, ◌>>◌, return}
use mindsdb.Postgres.Proxy.{Proxy, encoding_of, send_message, send_ready, respond}
use mindsdb.Postgres.Handlers.{
  syntax_error, query_failed, query_answer, process_query, get_parsed_sql, handle_query,
}

module _ {Q S : Type 0} where
  wrote : Proxy Q S → Bytes → Proxy Q S
  wrote q out = record q { wfile = q.wfile ++ out }

  -- what is sent stands before what follows
  pub send_then :
      {B : Type 0} (m : BackendMessage) (out : Bytes) (k : M (Proxy Q S) B) (q : Proxy Q S)
      → send m q.wfile ≡ (q.wfile ++ out, ok tt)
      → (send_message m >> k) q ≡ k (record q { wfile = q.wfile ++ out })
  unfolding send_message
  send_then m out k q e = rw e refl

  pub ready_then :
      {B : Type 0} (x : ℕ) (k : M (Proxy Q S) B) (q : Proxy Q S)
      → q.transaction_status ≡ x ∷ []
      → (send_ready >> k) q ≡ k (record q { wfile = q.wfile ++ frame b'Z' (x ∷ []) })
  unfolding send_ready
  ready_then x k q e =
      send_then (ready_for_query q.transaction_status) (frame b'Z' (x ∷ [])) k q
        (ap (λ s. send (ready_for_query s) q.wfile) e ∙ send-ready_for_query x q.wfile)

  abbrev after : Bytes → Bytes → Proxy Q S → Proxy Q S
  after first second q = record q { wfile = q.wfile ++ (first ++ second) }

  -- a message and the readiness behind it
  message_then_ready :
      (m : BackendMessage) (out : Bytes) (x : ℕ) (q : Proxy Q S)
      → send m q.wfile ≡ (q.wfile ++ out, ok tt)
      → q.transaction_status ≡ x ∷ []
      → (send_message m >> (send_ready >> return true)) q
        ≡ (ok true, after out (frame b'Z' (x ∷ [])) q)
  message_then_ready m out x q e st =
      send_then m out (send_ready >> return true) q e
      ∙ ready_then x (return true) (record q { wfile = q.wfile ++ out }) st
      ∙ ap (λ w. (ok true, record q { wfile = w })) (append_assoc q.wfile out (frame b'Z' (x ∷ [])))

module _ {Q S : Type 0} (engine : Engine Q S) where
  abbrev failed_body : Error → Bytes
  failed_body e = error_body (codes "ERROR") syntax_error (utf8 (engine.message e))

  process_query_failed :
      (sql : List ℕ) (e : Error) (s : S) (p : Proxy Q S)
      → query_execute engine p.session sql ≡ (err e, s)
      → encoding_of p.user_parameters ≡ ok none
      → process_query engine sql p
        ≡ (ok (failure syntax_error (utf8 (engine.message e))), record p { session = s })
  unfolding process_query
  process_query_failed sql e s p failed charset =
      ap (λ r. query_answer engine r.0 (record p { session = r.1 })) failed
      ∙ (unfold query_answer query_failed in
          ap (λ r. continue (query_failed engine e) (r, record p { session = s })) charset)

  -- A query whose parsing or run raises is answered with one Error packet with the text of the
  -- exception, if that fits a packet and the client named no encoding of its own, and ReadyForQuery
  -- with the status of the transaction as it was; the connection goes on.
  pub handle_query_failed :
      (m : Bytes) (sql : List ℕ) (e : Error) (s : S) (x : ℕ) (p : Proxy Q S)
      → get_parsed_sql engine m ≡ ok sql
      → query_execute engine p.session sql ≡ (err e, s)
      → encoding_of p.user_parameters ≡ ok none
      → p.transaction_status ≡ x ∷ []
      → InRange (failed_body e)
      → handle_query engine m p ≡ (
        ok true,
        record p {
          session = s;
          wfile = p.wfile ++ (frame b'E' (failed_body e) ++ frame b'Z' (x ∷ []));
        },
      )
  unfolding handle_query respond
  handle_query_failed m sql e s x p clear failed charset st fits =
      let message = utf8 (engine.message e) in
      let f = λ (answer : SqlAnswer). respond sql answer true >> (send_ready >> return true) in
      ap
        (λ r.
          continue
            (λ t. process_query engine t >>= λ answer.
              respond t answer true >> (send_ready >> return true))
            (r, p))
        clear
      ∙ ap (continue f) (process_query_failed sql e s p failed charset)
      ∙ message_then_ready (from_answer syntax_error message) (frame b'E' (failed_body e)) x
          (record p { session = s }) (send-error (codes "ERROR") syntax_error message p.wfile fits)
          st
