-- ===== src/Wire/Packet/Framing.antt =====
-- mysql_packet.py: what `get` and `load_from_packet_string` return for what `send` writes.
use mindsdb.Common.{
  ℕ, zero, suc, ◌+◌, ◌*◌, ◌/◌, ◌%◌, ◌^◌, ◌≤◌, ◌<◌, ◌≡◌, ◌≢◌, refl, ap, ◌∙◌, false, Option, some,
  List, [], ◌∷◌, ◌++◌, append-nil, append_assoc, arith, ◌==◌, length, Bytes, le_bytes, take-append,
  drop-append, take_all, drop_all, All, Result, ok, ◌>>=◌,
}
use mindsdb.Wire.Packet.{
  read_header, round, Packet, Socket, Received, max_packet_size, get_packet_string,
  load_from_packet_string, recv, push, received, get_loop, pending, get,
}

-- The four bytes in front of a body of `n` bytes.
abbrev pub header : ℕ → ℕ → Bytes
header n seq = le_bytes 3 n ++ seq ∷ []

get_packet_string_lem :
    (p : Packet)
    → p.length < 2 ^ 31
    → p.seq < 256
    → get_packet_string p ≡ ok (header p.length p.seq ++ p.body)
unfolding get_packet_string
get_packet_string_lem p l h = ground arith

-- The length that a packet of less than 2^31 bytes is read back with is its length modulo 2^24; the
-- sequence number and the body are its own.
pub load-get_packet_string :
    (p : Packet)
    → p.length < 2 ^ 31
    → p.seq < 256
    → (do bs ← get_packet_string p; load_from_packet_string bs)
      ≡ ok (record p { length = p.length % 16777216 })
unfolding load_from_packet_string
load-get_packet_string p l h =
    rw (get_packet_string_lem p l h) (ap (λ n. ok (record p { length = n })) (omega arith))

length_of_header :
    (n : ℕ) → n < 16777216 → n % 256 + 256 * (n / 256 % 256 + 256 * (n / 256 / 256 % 256 + 0)) ≡ n
length_of_header n h = omega arith

==_false : (a b : ℕ) → a ≢ b → (a == b) ≡ false
==_false a b h = ground arith

-- What a round receives of a non-empty part behind a header.
recv_part :
    (n : ℕ) (part more : Bytes) (s : Socket)
    → n ≡ length part
    → recv n ((part ++ more) ∷ s) ≡ (part, push more s)
unfolding recv
recv_part n part more s e = rw (take-append part more n e, drop-append part more n e)

-- A segment that begins with a header.
read_header_segment :
    (n seq x : ℕ) (xs : Bytes) (s : Socket)
    → n < 16777216
    → read_header ((header n seq ++ x ∷ xs) ∷ s) ≡ some (n, seq, (x ∷ xs) ∷ s)
unfolding read_header
read_header_segment n seq x xs s h = ap (λ k. some (k, seq, (x ∷ xs) ∷ s)) (length_of_header n h)

get_loop_segment :
    (fuel n seq x : ℕ) (body xs : Bytes) (s : Socket)
    → n < 16777216
    → get_loop (suc fuel) body ((header n seq ++ x ∷ xs) ∷ s)
      ≡ round (get_loop fuel) n seq body ((x ∷ xs) ∷ s)
unfolding get_loop
get_loop_segment fuel n seq x body xs s h = rw (read_header_segment n seq x xs s h, get_loop)

-- One segment that holds a packet and begins the next.
module _ (fuel seq : ℕ) (body : Bytes) (n x : ℕ) (xs more : Bytes) (s : Socket)
    (e : n ≡ length (x ∷ xs)) where
  last_round :
      n < max_packet_size
      → get_loop (suc fuel) body ((header n seq ++ ((x ∷ xs) ++ more)) ∷ s)
        ≡ ok (received seq (body ++ (x ∷ xs)) (push more s))
  unfolding round
  last_round l = rw (get_loop_segment fuel n seq x body (xs ++ more) s (omega arith)) (
      rw (
        recv_part n (x ∷ xs) more s e,
        ==_false n 0 (omega arith),
        ==_false n max_packet_size (omega arith),
      ))

  full_round :
      n ≡ max_packet_size
      → get_loop (suc fuel) body ((header n seq ++ ((x ∷ xs) ++ more)) ∷ s)
        ≡ get_loop fuel (body ++ (x ∷ xs)) (push more s)
  unfolding round
  full_round l =
      rw (get_loop_segment fuel n seq x body (xs ++ more) s (omega arith))
        (rw (recv_part n (x ∷ xs) more s e, l))

empty_round :
    (fuel seq : ℕ) (body more : Bytes) (s : Socket)
    → get_loop (suc fuel) body ((header 0 seq ++ more) ∷ s) ≡ ok (received seq body (push more s))
unfolding get_loop read_header round
empty_round fuel seq body more s = refl

-- A last packet, empty or not, ends the loop.
final_round :
    (fuel seq : ℕ) (body part more : Bytes) (s : Socket)
    → length part < max_packet_size
    → get_loop (suc fuel) body ((header (length part) seq ++ (part ++ more)) ∷ s)
      ≡ ok (received seq (body ++ part) (push more s))
final_round fuel seq body [] more s l = rw append-nil (empty_round fuel seq body more s)
final_round fuel seq body (x ∷ xs) more s l = last_round fuel seq body _ x xs more s refl l

-- `send`, and `get` on the other side, when the packet arrives in one segment.
abbrev pub send_get : Packet → Bytes → Socket → Result (Option Received)
send_get p more s = do bs ← get_packet_string p; get ((bs ++ more) ∷ s)

get_string :
    (fuel : ℕ) (p : Packet) (more : Bytes) (s : Socket)
    → p.length ≡ length p.body
    → p.length < max_packet_size
    → get_loop (suc fuel) [] (((header p.length p.seq ++ p.body) ++ more) ∷ s)
      ≡ ok (
          some (record {
            packet = p;
            packet_sequence_number = (p.seq + 1) % 256;
            socket = push more s;
          }))
unfolding received
get_string fuel p more s e l =
    let w = final_round fuel p.seq [] p.body more s (omega arith) in
    ground (arith, w, append_assoc p.body more [])

-- A packet that `send` writes, of a body below the size limit, is the packet that `get` returns.
-- What follows it stays in the socket, and the session's next sequence number is the one after the
-- packet's.
get-send :
    (p : Packet) (more : Bytes) (s : Socket)
    → p.length ≡ length p.body
    → p.length < max_packet_size
    → p.seq < 256
    → send_get p more s
      ≡ ok (
          some (record {
            packet = p;
            packet_sequence_number = (p.seq + 1) % 256;
            socket = push more s;
          }))
unfolding get
get-send p more s e l h = rw (get_packet_string_lem p (omega arith) h) (get_string _ p more s e l)

-- The packets in which a client sends a body: full ones, and a last one, numbered from `seq`.
abbrev pub frames : ℕ → List Bytes → Bytes → Socket
frames seq [] last = (header (length last) seq ++ last) ∷ []
frames seq (c ∷ cs) last = (header (length c) seq ++ c) ∷ frames ((seq + 1) % 256) cs last

abbrev pub last_seq : ℕ → List Bytes → ℕ
last_seq seq [] = seq
last_seq seq (c ∷ cs) = last_seq ((seq + 1) % 256) cs

abbrev pub join : List Bytes → Bytes → Bytes
join [] last = last
join (c ∷ cs) last = c ++ join cs last

abbrev pub IsFull : Bytes → Type 0
IsFull c = length c ≡ max_packet_size

get_loop-frames :
    (fuel seq : ℕ) (cs : List Bytes) (body last : Bytes)
    → length cs < fuel
    → All IsFull cs
    → length last < max_packet_size
    → get_loop fuel body (frames seq cs last)
      ≡ ok (received (last_seq seq cs) (body ++ join cs last) [])
unfolding push
get_loop-frames zero seq cs body last f h l = absurd (omega arith)
get_loop-frames (suc fuel) seq [] body last f h l =
    rw append-nil at (final_round fuel seq body last [] [] l)
get_loop-frames (suc fuel) seq ([] ∷ cs) body last f (hc, hs) l = absurd (omega arith)
get_loop-frames (suc fuel) seq ((x ∷ xs) ∷ cs) body last f (hc, hs) l =
    (rw append-nil at
      (full_round fuel seq body _ x xs [] (frames ((seq + 1) % 256) cs last) refl hc))
    ∙ rw append_assoc at
        (get_loop-frames fuel ((seq + 1) % 256) cs (body ++ (x ∷ xs)) last (omega arith) hs l)

length-le-pending :
    (seq : ℕ) (cs : List Bytes) (last : Bytes) → length cs ≤ pending (frames seq cs last)
length-le-pending seq [] last = omega arith
length-le-pending seq (c ∷ cs) last = omega (arith, length-le-pending ((seq + 1) % 256) cs last)

-- A body that a client has split into packets, each of which arrives in one segment, is put
-- together again by `get`; the next sequence number is the one after the last packet's.
pub get-frames :
    (seq : ℕ) (cs : List Bytes) (last : Bytes)
    → All IsFull cs
    → length last < max_packet_size
    → get (frames seq cs last)
      ≡ ok (
          some (record {
            packet = record {
              length = length (join cs last);
              seq = last_seq seq cs;
              body = join cs last;
            };
            packet_sequence_number = (last_seq seq cs + 1) % 256;
            socket = [];
          }))
unfolding get received
get-frames seq cs last h l =
    get_loop-frames (suc (pending (frames seq cs last))) seq cs [] last
      (omega (arith, length-le-pending seq cs last)) h l

-- A packet with a body of fewer bytes than the greatest size, whose header arrives in one segment
-- with the first bytes of its body, at least one, is cut: `get` succeeds with these bytes only, and
-- what arrives later stays in the socket.
pub get_short_read :
    (n seq x : ℕ) (xs : Bytes) (s : Socket)
    → n < max_packet_size
    → length (x ∷ xs) ≤ n
    → get ((header n seq ++ x ∷ xs) ∷ s)
      ≡ ok (
          some (record {
            packet = record { length = length (x ∷ xs); seq = seq; body = x ∷ xs };
            packet_sequence_number = (seq + 1) % 256;
            socket = s;
          }))
unfolding get round recv
get_short_read n seq x xs s l h = rw (get_loop_segment _ n seq x [] xs s (omega arith)) (
    rw (
      ==_false n 0 (omega arith),
      ==_false n max_packet_size (omega arith),
      take_all (x ∷ xs) n h,
      drop_all (x ∷ xs) n h,
    ))
