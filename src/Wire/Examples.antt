-- ===== src/Wire/Examples.antt =====
-- The theorems on the wire protocol at concrete values, and runs of the code.
use mindsdb.Common.{
  ℕ, zero, suc, ◌+◌, ◌%◌, ◌≡◌, ◌≢◌, some, List, [], ◌∷◌, ◌++◌, arith, length, length-replicate,
  replicate, All, codes, Bytes, ok, err, out_of_fuel,
}
use mindsdb.Wire.Text.{utf8, IsAscii, utf8_of_IsAscii}
use mindsdb.Wire.Packet.{Packet, max_packet_size, get}
use mindsdb.Wire.Packet.Framing.{header, frames, last_seq, join, get-frames, get_short_read}
use mindsdb.Wire.Packet.Total.{get-ne-out_of_fuel}

-- A text of an `a`, an `é` and a `€`, which takes six bytes.
abbrev aee : List ℕ
aee = 97 ∷ 233 ∷ 8364 ∷ []

All-a : (n : ℕ) → All IsAscii (replicate n 97)
All-a zero = _
All-a (suc n) = (omega arith, All-a n)

length-utf8-a : (n : ℕ) → length (utf8 (replicate n 97)) ≡ n
length-utf8-a n = rw (utf8_of_IsAscii (replicate n 97) (All-a n)) (length-replicate n 97)

abbrev select_packet : Packet
select_packet = record { length = 9; seq = 255; body = 3 ∷ codes "SELECT 1" }

full_of : ℕ → Bytes
full_of n = replicate n 7

length-full_of : (n : ℕ) → length (full_of n) ≡ n
unfolding full_of
length-full_of n = length-replicate n 7

abbrev full : Bytes
full = full_of max_packet_size

get-frames_example :
    get (frames 254 (full ∷ []) (8 ∷ []))
    ≡ ok (
        some (record {
          packet = record {
            length = length (join (full ∷ []) (8 ∷ []));
            seq = last_seq 254 (full ∷ []);
            body = join (full ∷ []) (8 ∷ []);
          };
          packet_sequence_number = (last_seq 254 (full ∷ []) + 1) % 256;
          socket = [];
        }))
get-frames_example =
    get-frames 254 (full ∷ []) (8 ∷ []) (length-full_of max_packet_size, _) (omega arith)

get_short_read_example :
    get ((header 9 0 ++ 3 ∷ 83 ∷ []) ∷ (69 ∷ []) ∷ [])
    ≡ ok (
        some (record {
          packet = record { length = 2; seq = 0; body = 3 ∷ 83 ∷ [] };
          packet_sequence_number = 1;
          socket = (69 ∷ []) ∷ [];
        }))
get_short_read_example = get_short_read 9 0 3 (83 ∷ []) ((69 ∷ []) ∷ []) (omega arith) (omega arith)

get-ne-out_of_fuel_example : get ((255 ∷ 255 ∷ 255 ∷ 0 ∷ []) ∷ []) ≢ err out_of_fuel
get-ne-out_of_fuel_example = get-ne-out_of_fuel ((255 ∷ 255 ∷ 255 ∷ 0 ∷ []) ∷ [])
