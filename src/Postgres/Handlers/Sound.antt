-- ===== src/Postgres/Handlers/Sound.antt =====
-- postgres_proxy.py: the invariants of a connection, whatever the client sends.
use mindsdb.Common.{ℕ, ◌≡◌, refl, List, [], ◌∷◌, Bytes, codes, ◌⊎◌, inl, inr, Bool-cases}
use mindsdb.Postgres.Text.{text_eq}
use mindsdb.Postgres.Backend.{BackendMessage}
use mindsdb.Postgres.Backend.Framing.{IsFramed, send-IsFramed}
use mindsdb.Postgres.Executor.{Engine}
use mindsdb.Common.Method.Keeps.{Keeps}
use mindsdb.Postgres.Proxy.{Proxy, Statement, Portal, send_message, next_status}
use mindsdb.Postgres.Handlers.{store_statement, store_portal, main_loop}
use mindsdb.Postgres.Handlers.Invariants.{IsStable, main_loop-Keeps}

next_status-HasStatus :
    (c : List ℕ) (s : Bytes)
    → (s ≡ codes "I") ⊎ (s ≡ codes "T")
    → (next_status c s ≡ codes "I") ⊎ (next_status c s ≡ codes "T")
unfolding next_status
next_status-HasStatus c s h = elim (Bool-cases (text_eq c (codes "BEGIN"))) [
  | inl begin ↦ inr (rw begin refl)
  | inr other ↦ elim (Bool-cases (text_eq c (codes "COMMIT"))) [
    | inl commit ↦ inl (rw (other, commit) refl)
    | inr neither ↦ rw (other, neither) h
  ]
]

module _ {Q S : Type 0} where
  -- What was written, as the other changes leave it.
  abbrev WroteAll : (Bytes → Type 0) → Proxy Q S → Type 0
  WroteAll P p = P p.wfile

  store_statement-WroteAll :
      (P : Bytes → Type 0) (name : Bytes) (s : Statement) (p : Proxy Q S)
      → WroteAll P p
      → WroteAll P (store_statement name s p)
  unfolding store_statement
  store_statement-WroteAll P [] s p h = h
  store_statement-WroteAll P (x ∷ name) s p h = h

  store_portal-WroteAll :
      (P : Bytes → Type 0) (name : Bytes) (s : Portal) (p : Proxy Q S)
      → WroteAll P p
      → WroteAll P (store_portal name s p)
  unfolding store_portal
  store_portal-WroteAll P [] s p h = h
  store_portal-WroteAll P (x ∷ name) s p h = h

  send_message-IsFramed :
      (m : BackendMessage) → Keeps {P = Proxy Q S} (WroteAll IsFramed) (send_message m)
  unfolding send_message
  send_message-IsFramed m p h = send-IsFramed m p.wfile h

  IsFramed-IsStable : IsStable {Q = Q} {S = S} (WroteAll IsFramed)
  IsFramed-IsStable = record {
    sends = send_message-IsFramed;
    statuses = λ c p h. h;
    sessions = λ s p h. h;
    stores = λ m e p h. store_statement-WroteAll IsFramed m.name _ _ h;
    binds = λ m statement p e h. store_portal-WroteAll IsFramed m.name _ p h;
    runs = λ i e s p h. h;
  }

  -- The status that ReadyForQuery shows: idle, or in a transaction.
  abbrev HasStatus : Proxy Q S → Type 0
  HasStatus p = (p.transaction_status ≡ codes "I") ⊎ (p.transaction_status ≡ codes "T")

  store_statement-HasStatus :
      (name : Bytes) (s : Statement) (p : Proxy Q S)
      → HasStatus p
      → HasStatus (store_statement name s p)
  unfolding store_statement
  store_statement-HasStatus [] s p h = h
  store_statement-HasStatus (x ∷ name) s p h = h

  store_portal-HasStatus :
      (name : Bytes) (s : Portal) (p : Proxy Q S) → HasStatus p → HasStatus (store_portal name s p)
  unfolding store_portal
  store_portal-HasStatus [] s p h = h
  store_portal-HasStatus (x ∷ name) s p h = h

  send_message-HasStatus : (m : BackendMessage) → Keeps HasStatus (send_message m)
  unfolding send_message
  send_message-HasStatus m p h = h

  HasStatus-IsStable : IsStable HasStatus
  HasStatus-IsStable = record {
    sends = send_message-HasStatus;
    statuses = λ c p h. next_status-HasStatus c p.transaction_status h;
    sessions = λ s p h. h;
    stores = λ m e p h. store_statement-HasStatus m.name _ _ h;
    binds = λ m statement p e h. store_portal-HasStatus m.name _ p h;
    runs = λ i e s p h. h;
  }

module _ {Q S : Type 0} (engine : Engine Q S) where
  -- Whatever a client sends, and wherever the connection ends or raises, all that was written is
  -- whole packets, each with an identifier of one byte and its length, if it was so before.
  pub main_loop-IsFramed :
      (p : Proxy Q S) → IsFramed p.wfile → IsFramed (main_loop engine p).1.wfile
  main_loop-IsFramed p h =
      main_loop-Keeps engine (WroteAll IsFramed) IsFramed-IsStable (λ rest q i. i) p h

  -- Whatever a client sends, the status of the transaction is `I` or `T` at the end of the loop, if
  -- it was one of them at its start: `E`, for a failed transaction, is not reached.
  main_loop-HasStatus : (p : Proxy Q S) → HasStatus p → HasStatus (main_loop engine p).1
  main_loop-HasStatus p h = main_loop-Keeps engine HasStatus HasStatus-IsStable (λ rest q i. i) p h
