-- ===== src/Wire/Packet/Total.antt =====
-- mysql_packet.py: the loop of `get` ends.
use mindsdb.Common.{
  ℕ, zero, suc, ◌+◌, ◌≤◌, ◌<◌, ◌≡◌, ◌≢◌, refl, some, [], ◌∷◌, ◌++◌, arith, length, take, drop,
  Bytes, length-append, take-append-drop, err, out_of_fuel, ap, Option-cases, inl, inr,
}
use mindsdb.Wire.Packet.{Socket, read_header, round, recv, push, get_loop, pending, get}

pending-push : (bs : Bytes) (s : Socket) → pending (push bs s) ≡ length bs + pending s
unfolding push
pending-push [] s = omega arith
pending-push (b ∷ bs) s = refl

pending-recv : (n : ℕ) (s : Socket) → length (recv n s).0 + pending (recv n s).1 ≡ pending s
unfolding recv
pending-recv n [] = omega arith
pending-recv n (bs ∷ s) = omega (
  arith,
  pending-push (drop n bs) s,
  length-append (take n bs) (drop n bs),
  ap length (take-append-drop n bs),
)

read_header-pending :
    (s : Socket) {len count : ℕ} {s' : Socket}
    → read_header s ≡ some (len, count, s')
    → pending s' + 4 ≤ pending s
unfolding read_header
read_header-pending s h = ground (arith, pending-recv 4 s)

get_loop-ne-out_of_fuel :
    (fuel : ℕ) (body : Bytes) (s : Socket)
    → pending s < fuel
    → get_loop fuel body s ≢ err out_of_fuel
unfolding get_loop round
get_loop-ne-out_of_fuel zero body s h = absurd (omega arith)
get_loop-ne-out_of_fuel (suc fuel) body s h = elim (Option-cases (read_header s)) [
  | inl e ↦ rw (e, get_loop) (λ p. cc)
  | inr ((len, count, s'), e) ↦
      rw (e, get_loop)
        (ground (
          arith,
          read_header-pending s e,
          pending-recv len s',
          get_loop-ne-out_of_fuel fuel (body ++ (recv len s').0) (recv len s').1,
        ))
]

-- Whatever arrives, and however it is cut into segments, `get` returns: its loop ends.
pub get-ne-out_of_fuel : (s : Socket) → get s ≢ err out_of_fuel
unfolding get
get-ne-out_of_fuel s = get_loop-ne-out_of_fuel (suc (pending s)) [] s (omega arith)
