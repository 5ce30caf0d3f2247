-- ===== src/Wire/Connection/Admission.antt =====
-- `handshake` of mysql_proxy.py: who is let in.
use mindsdb.Common.{
  ℕ, ◌≡◌, refl, true, Option, none, some, List, [], ◌∷◌, arith, Bytes, Result, ok, err, ◌&&◌,
  Bool-cases, inl, inr, if◌then◌else◌,
}
use mindsdb.Common.Method.{M, continue, ◌>>=◌, return}
use mindsdb.Auth.{Server, AuthData, refused, nothing, accepted, checked}
use mindsdb.Auth.Admitted.{IsAdmitted, checked_accepted}
use mindsdb.Wire.Text.Decode.{decode}
use mindsdb.Wire.Handshake.{Response}
use mindsdb.Wire.Connection.{
  Connection, username_of, enc_password_of, database_of, send, ask_password, decide, checking,
  login, caching_sha2_password, mysql_native_password, switch_auth, after_switch, switch_to,
}
use mindsdb.Postgres.Text.{text_eq}
use mindsdb.Postgres.Builder.{bytes_eq}

module _ (server : Server) where
  -- A client that is let in: its user, and the password that it was asked for.
  pub record LetIn (r : Response) (client_auth_plugin : List ℕ) (p : Connection) : Type 0 where
    pub username : List ℕ
    pub named : decode (username_of r) ≡ ok username
    pub password : Bytes
    pub after : Connection
    pub asked :
        ask_password server client_auth_plugin (enc_password_of r) p ≡ (ok (some password), after)
    pub admitted : IsAdmitted server username password

  decide_ok :
      (username : List ℕ) (password : Bytes) (d : AuthData) (p : Connection)
      → checked server username password ≡ d
      → (decide server username d p).0 ≡ ok true
      → IsAdmitted server username password
  unfolding decide send
  decide_ok username password (accepted n) p e h = checked_accepted server username n password e
  decide_ok username password refused p e h = absurd (ground arith)
  decide_ok username password nothing p e h = absurd (ground arith)

  checking_ok :
      (r : Response) (plugin username : List ℕ) (o : Option Bytes) (p q : Connection)
      → decode (username_of r) ≡ ok username
      → ask_password server plugin (enc_password_of r) p ≡ (ok o, q)
      → (checking server username (database_of r) o q).0 ≡ ok true
      → LetIn r plugin p
  unfolding checking
  checking_ok r plugin username none p q u a h = absurd (ground arith)
  checking_ok r plugin username (some password) p q u a h = record {
    username = username;
    named = u;
    password = password;
    after = q;
    asked = a;
    admitted = decide_ok username password (checked server username password) _ refl h;
  }

  asked_ok :
      (r : Response) (plugin username : List ℕ) (x : Result (Option Bytes)) (p q : Connection)
      → decode (username_of r) ≡ ok username
      → ask_password server plugin (enc_password_of r) p ≡ (x, q)
      → (continue (checking server username (database_of r)) (x, q)).0 ≡ ok true
      → LetIn r plugin p
  asked_ok r plugin username (err e) p q u a h = absurd (ground arith)
  asked_ok r plugin username (ok o) p q u a h = checking_ok r plugin username o p q u a h

  named_ok :
      (r : Response) (plugin : List ℕ) (x : Result (List ℕ)) (p : Connection)
      → decode (username_of r) ≡ x
      → (continue
          (λ username.
            ask_password server plugin (enc_password_of r)
            >>= checking server username (database_of r))
          (x, p)).0
        ≡ ok true
      → LetIn r plugin p
  named_ok r plugin (err e) p u h = absurd (ground arith)
  named_ok r plugin (ok username) p u h =
      let a = ask_password server plugin (enc_password_of r) p in
      asked_ok r plugin username a.0 p a.1 u refl h

  -- If the server of MySQL lets a client in behind its response, the response named the configured
  -- user, and the password that the server then asked for, or took from the response, is the
  -- configured password or its scrambled form.
  pub login-LetIn :
      (r : Response) (client_auth_plugin : List ℕ) (p : Connection)
      → (login server r client_auth_plugin p).0 ≡ ok true
      → LetIn r client_auth_plugin p
  unfolding login
  login-LetIn r plugin p h = named_ok r plugin (decode (username_of r)) p refl h

  -- The empty password of the default method, or a switch to the native method.
  abbrev pub native_instead : List ℕ → Bytes → M Connection (Option Bytes)
  native_instead plugin enc_password =
      if text_eq plugin caching_sha2_password && bytes_eq enc_password (0 ∷ [])
      then return (some [])
      else switch_auth server mysql_native_password >>= λ password. return (some password)

  switch_to-native :
      (p : Connection)
      → switch_to server mysql_native_password p
        ≡ (switch_auth server mysql_native_password >>= λ password. return (some password)) p
  unfolding switch_to after_switch text_eq
  switch_to-native p = refl

  -- Whatever method a client names, the server takes the empty password for it, if the method is
  -- the default one and the response has the mark of an empty password, and else switches to the
  -- native method: it never asks for a password of caching_sha2_password.
  pub ask_password_lem :
      (client_auth_plugin : List ℕ) (enc_password : Bytes) (p : Connection)
      → ask_password server client_auth_plugin enc_password p
        ≡ native_instead client_auth_plugin enc_password p
  unfolding ask_password
  ask_password_lem plugin enc_password p =
      elim (Bool-cases (text_eq plugin caching_sha2_password)) [
        | inl default ↦ elim (Bool-cases (bytes_eq enc_password (0 ∷ []))) [
          | inl empty ↦ rw (default, empty) refl
          | inr asked ↦ rw (default, asked) refl
        ]
        | inr other ↦ elim (Bool-cases (text_eq plugin mysql_native_password)) [
          | inl native ↦ rw (other, native) refl
          | inr neither ↦ rw (other, neither) (switch_to-native p)
        ]
      ]
