-- ===== src/Postgres/Backend/Framing.antt =====
-- postgres_message_formats.py: whatever is sent leaves whole packets on the wire.
use mindsdb.Common.{
  ℕ, ◌≡◌, refl, Option, none, some, List, [], ◌∷◌, ◌++◌, length, Bytes, codes, ℤ, pos, Result, ok,
  err, ◌>>=◌, ok_of_bind, Result-cases, inl, inr,
}
use mindsdb.Postgres.Builder.{Builder, add_char, write}
use mindsdb.Postgres.Builder.Sizes.{
  IsSized, IsPacket, add_string-IsSized, add_int32-IsSized, add_int16-IsSized, add_char-IsSized,
  add_fields-IsSized, add_row-IsSized, write-IsPacket, reset-IsSized,
}
use mindsdb.Postgres.Backend.{
  BackendMessage, notice_response, authentication_ok, authentication_clear_text_password,
  bind_complete, parse_complete, incomplete, ready_for_query, command_complete, error,
  parameter_status, row_descriptions, parameter_description, data_row, negotiate_protocol_version,
  notice_packet, authentication_ok_packet, clear_text_password_packet, ready_for_query_packet,
  command_complete_packet, bind_complete_packet, error_packet, parameter_status_packet,
  row_descriptions_packet, parameter_description_packet, negotiate_protocol_version_packet,
  parse_complete_packet, data_row_packet, add_params, add_option, status_or_idle, num_cols,
  write_file, send_rows, send,
}

-- A stream of whole packets.
pub data IsFramed : Bytes → Type 0 where
  empty : IsFramed []
  snoc : (wfile packet : Bytes) → IsFramed wfile → IsPacket packet → IsFramed (wfile ++ packet)

-- A computation whose result, if it has one, is a packet.
abbrev MakesPacket : Result Bytes → Type 0
MakesPacket r = (out : Bytes) → r ≡ ok out → IsPacket out

write-MakesPacket : {b : Builder} → IsSized b → MakesPacket (write b)
write-MakesPacket {b} z out e = write-IsPacket b out z e

add_char-MakesPacket :
    (bs : Bytes) (b : Builder) (k : Builder → Result Bytes)
    → IsSized b
    → ((b' : Builder) → IsSized b' → MakesPacket (k b'))
    → MakesPacket (add_char bs b >>= k)
add_char-MakesPacket bs b k z h out e =
    let (b', p, e') = ok_of_bind (add_char bs b) k out e in
    h b' (add_char-IsSized bs b b' p z) out e'

error_packet-MakesPacket : (s c m : Bytes) → MakesPacket (error_packet s c m)
unfolding error_packet
error_packet-MakesPacket s c m =
    add_char-MakesPacket (codes "S") _ _ (reset-IsSized (codes "E")) λ b₁ z₁.
      add_char-MakesPacket (codes "C") _ _ (add_string-IsSized s z₁) λ b₂ z₂.
        add_char-MakesPacket (codes "M") _ _ (add_string-IsSized c z₂) λ b₃ z₃.
          add_char-MakesPacket (0 ∷ []) _ _ (add_string-IsSized m z₃) λ b₄ z₄. write-MakesPacket z₄

add_params-IsSized : (ps : List ℤ) {b : Builder} → IsSized b → IsSized (add_params ps b)
unfolding add_params
add_params-IsSized [] z = z
add_params-IsSized (p ∷ ps) z = add_params-IsSized ps (add_int32-IsSized p z)

add_option-IsSized : (o : Option Bytes) {b : Builder} → IsSized b → IsSized (add_option o b)
unfolding add_option
add_option-IsSized none z = z
add_option-IsSized (some []) z = z
add_option-IsSized (some (x ∷ xs)) z = add_string-IsSized (x ∷ xs) z

write_file-IsFramed :
    (wfile : Bytes) (r : Result Bytes)
    → MakesPacket r
    → IsFramed wfile
    → IsFramed (write_file wfile r).0
write_file-IsFramed wfile (ok packet) h w = snoc wfile packet w (h packet refl)
write_file-IsFramed wfile (err e) h w = w

data_row_packet-MakesPacket : (n : ℕ) (row : List Bytes) → MakesPacket (data_row_packet n row)
unfolding data_row_packet
data_row_packet-MakesPacket n row =
    write-MakesPacket (add_row-IsSized row (add_int16-IsSized (pos n) (reset-IsSized (codes "D"))))

send_rows-IsFramed :
    (n : ℕ) (rows : List (List Bytes)) (wfile : Bytes)
    → IsFramed wfile
    → IsFramed (send_rows n rows wfile).0
unfolding send_rows
send_rows-IsFramed n [] wfile w = w
send_rows-IsFramed n (row ∷ rows) wfile w = elim (Result-cases (data_row_packet n row)) [
  | inl (p, e) ↦
      rw (e, send_rows)
        (send_rows-IsFramed n rows (wfile ++ p)
          (snoc wfile p w (data_row_packet-MakesPacket n row p e)))
  | inr (e', e) ↦ rw (e, send_rows) w
]

pub send-IsFramed :
    (m : BackendMessage) (wfile : Bytes) → IsFramed wfile → IsFramed (send m wfile).0
unfolding send notice_packet authentication_ok_packet clear_text_password_packet
    ready_for_query_packet command_complete_packet bind_complete_packet parameter_status_packet
    row_descriptions_packet parameter_description_packet negotiate_protocol_version_packet
    parse_complete_packet
send-IsFramed notice_response wfile =
    write_file-IsFramed wfile _ (write-MakesPacket (reset-IsSized (codes "N")))
send-IsFramed authentication_ok wfile =
    write_file-IsFramed wfile _
      (write-MakesPacket (add_int32-IsSized (pos 0) (reset-IsSized (codes "R"))))
send-IsFramed authentication_clear_text_password wfile =
    write_file-IsFramed wfile _
      (write-MakesPacket (add_int32-IsSized (pos 3) (reset-IsSized (codes "R"))))
send-IsFramed bind_complete wfile =
    write_file-IsFramed wfile _ (write-MakesPacket (reset-IsSized (codes "2")))
send-IsFramed parse_complete wfile =
    write_file-IsFramed wfile _ (write-MakesPacket (reset-IsSized (codes "1")))
send-IsFramed incomplete wfile = λ w. w
send-IsFramed (ready_for_query status) wfile = write_file-IsFramed wfile _ (
    add_char-MakesPacket (status_or_idle status) _ _ (reset-IsSized (codes "Z"))
      λ b z. write-MakesPacket z)
send-IsFramed (command_complete tag) wfile =
    write_file-IsFramed wfile _
      (write-MakesPacket (add_string-IsSized tag (reset-IsSized (codes "C"))))
send-IsFramed (error s c m) wfile = write_file-IsFramed wfile _ (error_packet-MakesPacket s c m)
send-IsFramed (parameter_status name value) wfile = write_file-IsFramed wfile _ (
    write-MakesPacket
      (add_string-IsSized value (add_string-IsSized name (reset-IsSized (codes "S")))))
send-IsFramed (row_descriptions fields) wfile = write_file-IsFramed wfile _ (
    write-MakesPacket (
      add_fields-IsSized fields
        (add_int16-IsSized (pos (length fields)) (reset-IsSized (codes "T")))))
send-IsFramed (parameter_description params) wfile = write_file-IsFramed wfile _ (
    write-MakesPacket (
      add_params-IsSized params
        (add_int16-IsSized (pos (length params)) (reset-IsSized (codes "t")))))
send-IsFramed (data_row rows) wfile = send_rows-IsFramed (num_cols rows) rows wfile
send-IsFramed (negotiate_protocol_version major minor option) wfile = write_file-IsFramed wfile _ (
    write-MakesPacket (
      add_option-IsSized option
        (add_int32-IsSized minor (add_int32-IsSized major (reset-IsSized (codes "v"))))))
