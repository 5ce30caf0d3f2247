-- ===== src/Postgres/Backend/Frames.antt =====
-- postgres_message_formats.py: the bytes that some messages are sent as, by the formats that their
-- classes document.
use mindsdb.Common.{
  ℕ, ◌+◌, ◌<◌, ◌≡◌, ap, [], ◌∷◌, ◌++◌, arith, length, Bytes, codes, Result, ok, ◌>>=◌, append_assoc,
}
use mindsdb.Postgres.Numbers.{be32}
use mindsdb.Postgres.Builder.{Builder, add_char}
use mindsdb.Postgres.Builder.Contents.{
  Builds, reset-Builds, add_char-Builds, add_string-Builds, Builds-eq, write-Builds,
}
use mindsdb.Postgres.Reader.Steps.{string}
use mindsdb.Postgres.Backend.{
  error, ready_for_query, command_complete, error_packet, ready_for_query_packet,
  command_complete_packet, parse_complete, bind_complete, parse_complete_packet,
  bind_complete_packet, write_file, send,
}

-- Byte1, the length of what follows with its own four bytes, the body
abbrev pub frame : ℕ → Bytes → Bytes
frame x body = x ∷ (be32 (length body + 4) ++ body)

abbrev pub InRange : Bytes → Type 0
InRange body = length body + 4 < 2147483648

-- the fields S, C and M, and the terminator
abbrev pub error_body : Bytes → Bytes → Bytes → Bytes
error_body severity code message =
    b'S' ∷ (string severity ++ (b'C' ∷ (string code ++ (b'M' ∷ (string message ++ 0 ∷ [])))))

-- a chain over `add_char`
add_char-then :
    {id : ℕ} {b : Builder} {body out : Bytes} (x : ℕ) (k : Builder → Result Bytes)
    → Builds (id ∷ []) b body
    → ((b' : Builder) → Builds (id ∷ []) b' (body ++ x ∷ []) → k b' ≡ ok out)
    → (add_char (x ∷ []) b >>= k) ≡ ok out
add_char-then {b = b} x k z h = let (b', e, z') = add_char-Builds x z in rw e (h b' z')

error_packet_lem :
    (s c m : Bytes)
    → InRange (error_body s c m)
    → error_packet s c m ≡ ok (frame b'E' (error_body s c m))
unfolding error_packet
error_packet_lem s c m h = add_char-then b'S' _ (reset-Builds (codes "E")) λ b₁ z₁.
    add_char-then b'C' _ (add_string-Builds s z₁) λ b₂ z₂.
      add_char-then b'M' _ (add_string-Builds c z₂) λ b₃ z₃.
        add_char-then 0 _ (add_string-Builds m z₃)
          λ b₄ z₄. write-Builds (Builds-eq (error_body s c m) (simp append_assoc) z₄) h

pub send-error :
    (s c m wfile : Bytes)
    → InRange (error_body s c m)
    → send (error s c m) wfile ≡ (wfile ++ frame b'E' (error_body s c m), ok tt)
unfolding send
send-error s c m wfile h = ap (write_file wfile) (error_packet_lem s c m h)

pub send-ready_for_query :
    (x : ℕ) (wfile : Bytes)
    → send (ready_for_query (x ∷ [])) wfile ≡ (wfile ++ frame b'Z' (x ∷ []), ok tt)
unfolding send ready_for_query_packet
send-ready_for_query x wfile =
    ap (write_file wfile)
      (add_char-then x _ (reset-Builds (codes "Z")) λ b z. write-Builds z (omega arith))

pub send-command_complete :
    (tag wfile : Bytes)
    → InRange (string tag)
    → send (command_complete tag) wfile ≡ (wfile ++ frame b'C' (string tag), ok tt)
unfolding send command_complete_packet
send-command_complete tag wfile h =
    ap (write_file wfile) (write-Builds (add_string-Builds tag (reset-Builds (codes "C"))) h)

pub send-parse_complete :
    (wfile : Bytes) → send parse_complete wfile ≡ (wfile ++ frame b'1' [], ok tt)
unfolding send parse_complete_packet
send-parse_complete wfile =
    ap (write_file wfile) (write-Builds (reset-Builds (codes "1")) (omega arith))

pub send-bind_complete :
    (wfile : Bytes) → send bind_complete wfile ≡ (wfile ++ frame b'2' [], ok tt)
unfolding send bind_complete_packet
send-bind_complete wfile =
    ap (write_file wfile) (write-Builds (reset-Builds (codes "2")) (omega arith))
