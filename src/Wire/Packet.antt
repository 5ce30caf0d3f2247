-- ===== src/Wire/Packet.antt =====
-- mindsdb/api/mysql/mysql_proxy/data_types/mysql_packet.py: a body behind its header of three bytes
-- of length and one of sequence number. The proofs are in the modules below.
pub mod Framing
pub mod Total
use mindsdb.Common.{
  ℕ, zero, suc, ◌+◌, ◌%◌, ◌^◌, ◌<◌, Bool, true, false, Option, none, some, List, [], ◌∷◌, ◌++◌, ltb,
  ◌==◌, if◌then◌else◌, length, take, drop, Bytes, le_bytes, from_le, Result, ok, err, struct_error,
  index_error, out_of_fuel, ◌>>=◌,
}
use mindsdb.Wire.Datum.{pack_i}

abbrev pub max_packet_size : ℕ
max_packet_size = 16777215

-- `_length`, `_seq` and `_body`
pub record Packet : Type 0 where
  pub length : ℕ
  pub seq : ℕ
  pub body : Bytes

-- `setBody`
pub set_body : Bytes → Packet → Packet
set_body body p = record p { body = body; length = length body }

-- `struct.pack('B', seq)`
pack_b : ℕ → Result Bytes
pack_b v = if ltb v 256 then ok (v ∷ []) else err struct_error

unfoldable pub get_packet_string : Packet → Result Bytes
unfolding pack_i pack_b
get_packet_string p = do
  len_header ← pack_i p.length
  count_header ← pack_b p.seq
  ok (take 3 len_header ++ (count_header ++ p.body))

-- `struct.unpack('i', packet_string[:3] + b'\x00')`, which wants all three bytes, and
-- `packet_string[3]`
unfoldable pub load_from_packet_string : Bytes → Result Packet
load_from_packet_string (a ∷ b ∷ c ∷ []) = err index_error
load_from_packet_string (a ∷ b ∷ c ∷ count ∷ body) =
    ok (record { length = from_le (a ∷ b ∷ c ∷ []); seq = count; body = body })
load_from_packet_string _ = err struct_error

-- A stream socket: the segments that arrive, none of them empty, and then the end of the stream.
-- `recv n` returns at most `n` bytes of the first segment.
abbrev pub Socket : Type 0
Socket = List Bytes

-- the rest of a segment stays to be received
pub push : Bytes → Socket → Socket
push [] s = s
push (b ∷ bs) s = (b ∷ bs) ∷ s

unfoldable pub recv : ℕ → Socket → Bytes × Socket
unfolding push
recv n [] = ([], [])
recv n (segment ∷ s) = (take n segment, push (drop n segment) s)

-- What `get` leaves behind: the packet, the session's `packet_sequence_number`, the socket.
pub record Received : Type 0 where
  pub packet : Packet
  pub packet_sequence_number : ℕ
  pub socket : Socket

received : ℕ → Bytes → Socket → Option Received
received count body s = some (record {
  packet = record { length = length body; seq = count; body = body };
  packet_sequence_number = (count + 1) % 256;
  socket = s;
})

-- `len_header` and `count_header`, or `none` for a header of less than four bytes
read_header : Socket → Option (ℕ × ℕ × Socket)
unfolding recv
read_header s =
    let (packet_string, s') = recv 4 s in
    elim packet_string [
      | a ∷ (b ∷ (c ∷ (count ∷ more))) ↦ some (from_le (a ∷ b ∷ c ∷ []), count, s')
      | _ ↦ none
    ]

-- The rest of a round, which goes on by `next` behind a full packet.
round :
    (Bytes → Socket → Result (Option Received)) → ℕ → ℕ → Bytes → Socket → Result (Option Received)
unfolding received
round next len_header count body s =
    let (part, s') = recv len_header s in
    let again = next (body ++ part) s' in
    if len_header == 0
    then ok (received count body s)
    else if len_header == max_packet_size
    then again
    else ok (received count (body ++ part) s')

-- The loop of `get`, on fuel; `ok none` is its `return False`. Each round takes a header's four bytes.
get_loop : ℕ → Bytes → Socket → Result (Option Received)
get_loop zero body s = err out_of_fuel
get_loop (suc fuel) body s = elim (read_header s) [
  | none ↦ ok none
  | some (len_header, count, s') ↦ round (get_loop fuel) len_header count body s'
]

-- the bytes that are still to arrive
abbrev pub pending : Socket → ℕ
pending [] = 0
pending (segment ∷ s) = length segment + pending s

unfoldable pub get : Socket → Result (Option Received)
unfolding get_loop read_header round
get s = get_loop (suc (pending s)) [] s
