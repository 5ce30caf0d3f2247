-- ===== src/Postgres/Connection/Authentication.antt =====
-- `authenticate` of postgres_proxy.py: who is let in.
use mindsdb.Common.{
  ℕ, ◌≡◌, refl, Bool, true, false, some, List, [], arith, Bytes, Result, ok, err, ◌⊎◌, ◌≢◌, inl,
  inr, codes,
}
use mindsdb.Wire.Text.{utf8}
use mindsdb.Postgres.Backend.{authentication_clear_text_password, connection_failure, send}
use mindsdb.Postgres.Startup.{read_authentication}
use mindsdb.Auth.{Server, AuthData, refused, nothing, accepted, checked}
use mindsdb.Auth.Admitted.{IsAdmitted, checked_accepted}
use mindsdb.Common.Method.{M, continue, ◌>>=◌, return}
use mindsdb.Postgres.Proxy.{Proxy, send_message}
use mindsdb.Postgres.Connection.{
  Server, taken, read_by, username_of, decide, fail, checked, with_password, authenticate_asking,
  authenticate,
}

module _ {Q S : Type 0} (server : Server) where
  -- What a client must have sent to be let in.
  pub data LetIn (p : Proxy Q S) : Type 0 where
    at_once :
        (username : List ℕ)
        → username_of p.user_parameters ≡ ok username
        → IsAdmitted server username []
        → LetIn p
    asked :
        (username password : List ℕ) (rest : Bytes)
        → username_of p.user_parameters ≡ ok username
        → read_authentication p.rfile ≡ ok (password, rest)
        → IsAdmitted server username (utf8 password)
        → LetIn p

  fail_false : (q : Proxy Q S) → (fail q).0 ≢ ok true
  unfolding fail send_message
  fail_false q h =
      sent_false (send (connection_failure (some (codes "Authentication failed."))) q.wfile).1 _ h
    where
      sent_false :
          (done : Result (Unit {0})) (q' : Proxy Q S)
          → (continue (λ _. return {P = Proxy Q S} false) (done, q')).0 ≢ ok true
      sent_false (ok u) q' e = ground arith
      sent_false (err x) q' e = ground arith

  decide_ok :
      (otherwise : M (Proxy Q S) Bool) (d : AuthData) (q : Proxy Q S)
      → (decide otherwise d q).0 ≡ ok true
      → ((n : List ℕ) × (d ≡ accepted n)) ⊎ ((otherwise q).0 ≡ ok true)
  unfolding decide
  decide_ok otherwise (accepted n) q h = inl (n, refl)
  decide_ok otherwise refused q h = inr h
  decide_ok otherwise nothing q h = absurd (ground arith)

  with_password_ok :
      (password rest : List ℕ) (r : Result (List ℕ)) (p q : Proxy Q S)
      → username_of p.user_parameters ≡ r
      → read_authentication p.rfile ≡ ok (password, rest)
      → (continue (λ username. decide fail (checked server username (utf8 password))) (r, q)).0
        ≡ ok true
      → LetIn p
  with_password_ok password rest (err e) p q u a h = absurd (ground arith)
  with_password_ok password rest (ok username) p q u a h =
      elim (decide_ok fail (checked server username (utf8 password)) q h) [
        | inl (n, k) ↦
            LetIn.asked username password rest u a
              (checked_accepted server username n (utf8 password) k)
        | inr k ↦ absurd (fail_false q k)
      ]

  read_ok :
      (r : Result (List ℕ × Bytes)) (p : Proxy Q S) (w : Bytes)
      → read_authentication p.rfile ≡ r
      → (continue (with_password server) (taken (record p { wfile = w }) r)).0 ≡ ok true
      → LetIn p
  read_ok (err e) p w a h = absurd (ground arith)
  read_ok (ok (password, rest)) p w a h =
      with_password_ok password rest (username_of p.user_parameters) p
        (record p { wfile = w; rfile = rest }) refl a h

  asking_ok :
      (done : Result (Unit {0})) (p : Proxy Q S) (w : Bytes)
      → (continue
          (λ _. read_by read_authentication >>= with_password server)
          (done, record p { wfile = w })).0
        ≡ ok true
      → LetIn p
  unfolding read_by
  asking_ok (err e) p w h = absurd (ground arith)
  asking_ok (ok u) p w h = read_ok (read_authentication p.rfile) p w refl h

  authenticate_asking_ok : (p : Proxy Q S) → (authenticate_asking server p).0 ≡ ok true → LetIn p
  unfolding authenticate_asking send_message
  authenticate_asking_ok p h =
      let sent = send authentication_clear_text_password p.wfile in asking_ok sent.1 p sent.0 h

  authenticate_from :
      (r : Result (List ℕ)) (p : Proxy Q S)
      → username_of p.user_parameters ≡ r
      → (continue
          (λ username. decide (authenticate_asking server) (checked server username []))
          (r, p)).0
        ≡ ok true
      → LetIn p
  authenticate_from (err e) p u h = absurd (ground arith)
  authenticate_from (ok username) p u h =
      elim (decide_ok (authenticate_asking server) (checked server username []) p h) [
        | inl (n, k) ↦ LetIn.at_once username u (checked_accepted server username n [] k)
        | inr k ↦ authenticate_asking_ok p k
      ]

  -- If a client is let in, its startup message named the configured user, and the empty password,
  -- or the one it sent when it was asked, is the configured password or its scrambled form.
  pub authenticate-LetIn : (p : Proxy Q S) → (authenticate server p).0 ≡ ok true → LetIn p
  unfolding authenticate
  authenticate-LetIn p h = authenticate_from (username_of p.user_parameters) p refl h
