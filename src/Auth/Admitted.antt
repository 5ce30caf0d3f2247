-- ===== src/Auth/Admitted.antt =====
-- check_auth.py: whoever is accepted is the configured user, with the configured password.
use mindsdb.Common.{
  ℕ, ◌≡◌, refl, ap, sym, true, Option, none, some, List, [], ◌∷◌, arith, Bytes, Result, ok, err,
  ◌⊎◌, inl, inr, Bool-cases,
}
use mindsdb.Wire.Text.{utf8}
use mindsdb.Postgres.Text.{text_eq}
use mindsdb.Postgres.Builder.{bytes_eq}
use mindsdb.Auth.{
  AuthConfig, Server, accepted, password_or_empty, is_user, check_password, check_auth, checked,
}

text_eq→eq : (s t : List ℕ) → text_eq s t ≡ true → s ≡ t
unfolding text_eq
text_eq→eq [] [] h = refl
text_eq→eq [] (y ∷ t) h = ground arith
text_eq→eq (x ∷ s) [] h = ground arith
text_eq→eq (x ∷ s) (y ∷ t) h = ground (arith, text_eq→eq s t)

pub bytes_eq→eq : (s t : Bytes) → bytes_eq s t ≡ true → s ≡ t
unfolding bytes_eq
bytes_eq→eq [] [] h = refl
bytes_eq→eq [] (y ∷ t) h = ground arith
bytes_eq→eq (x ∷ s) [] h = ground arith
bytes_eq→eq (x ∷ s) (y ∷ t) h = ground (arith, bytes_eq→eq s t)

is_user→eq :
    (username : List ℕ) (o : Option (List ℕ)) → is_user username o ≡ true → o ≡ some username
is_user→eq username none h = ground arith
is_user→eq username (some u) h = ap some (sym (text_eq→eq username u h))

-- The configured user, with the configured password or its hash.
pub record IsAdmitted (server : Server) (username : List ℕ) (password : Bytes) : Type 0 where
  pub user : server.auth_config.username ≡ some username
  pub hash : Bytes
  pub hashed :
      server.scramble_func (password_or_empty server.auth_config.password) server.salt ≡ ok hash
  pub right : (password ≡ utf8 (password_or_empty server.auth_config.password)) ⊎ (password ≡ hash)

check_password_accepted :
    (username n : List ℕ) (password : Bytes) (config : AuthConfig) (hash : Bytes)
    → check_password username password config (ok hash) ≡ accepted n
    → (is_user username config.username ≡ true)
      × ((bytes_eq password (utf8 (password_or_empty config.password)) ≡ true)
          ⊎ (bytes_eq password hash ≡ true))
unfolding check_password
check_password_accepted username n password config hash h =
    elim (Bool-cases (is_user username config.username)) [
      | inr other ↦ absurd (let k = rw other at h in ground arith)
      | inl user ↦
          elim (Bool-cases (bytes_eq password (utf8 (password_or_empty config.password)))) [
            | inl plain ↦ (user, inl plain)
            | inr neither ↦ elim (Bool-cases (bytes_eq password hash)) [
              | inl hashed ↦ (user, inr hashed)
              | inr wrong ↦ absurd (let k = rw (user, neither, wrong) at h in ground arith)
            ]
          ]
    ]

scrambled :
    (server : Server) (username n : List ℕ) (password : Bytes) (r : Result Bytes)
    → server.scramble_func (password_or_empty server.auth_config.password) server.salt ≡ r
    → check_password username password server.auth_config r ≡ accepted n
    → IsAdmitted server username password
scrambled server username n password (err e) q h = absurd (unfold check_password in ground arith)
scrambled server username n password (ok hash) q h =
    let (user, right) = check_password_accepted username n password server.auth_config hash h in
    record {
      user = is_user→eq username server.auth_config.username user;
      hash = hash;
      hashed = q;
      right = elim right [
        | inl plain ↦ inl (bytes_eq→eq password _ plain)
        | inr hashed ↦ inr (bytes_eq→eq password hash hashed)
      ];
    }

pub checked_accepted :
    (server : Server) (username n : List ℕ) (password : Bytes)
    → checked server username password ≡ accepted n
    → IsAdmitted server username password
unfolding checked check_auth
checked_accepted server username n password h =
    scrambled server username n password
      (server.scramble_func (password_or_empty server.auth_config.password) server.salt) refl h
