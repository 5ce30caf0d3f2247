-- ===== src/Postgres/Startup/Parameters.antt =====
-- `read_startup_message` of postgres_packets.py: the parameters that a client sends are those that are
-- found.
use mindsdb.Common.{
  ℕ, ◌+◌, ◌/◌, ◌%◌, ◌<◌, ◌≡◌, refl, ap, ◌∙◌, List, [], ◌∷◌, ◌++◌, arith, length, length-append,
  Bytes, codes, pos, ok, All,
}
use mindsdb.Wire.Text.{IsNonzero}
use mindsdb.Postgres.Reader.{resume, ◌>>=◌, return, unpacked, read_int32, read_bytes}
use mindsdb.Postgres.Reader.Steps.{int32, string, read_int32-Reads, read_bytes-Reads}
use mindsdb.Postgres.Startup.{
  Startup, as_bytes, as_int, with_version, insert, split_zeros, pop_pairs, read_startup_message,
  minus_eight,
}

-- names and values, and the zero behind them
abbrev pub pairs_body : List (Bytes × Bytes) → Bytes
pairs_body [] = 0 ∷ []
pairs_body ((k, v) ∷ ps) = string k ++ (string v ++ pairs_body ps)

-- Int32 of the length, Int32 of the version, and the parameters
unfoldable pub startup : ℕ → List (Bytes × Bytes) → Bytes
startup version ps =
    int32 (pos (length (pairs_body ps) + 8)) ++ (int32 (pos version) ++ pairs_body ps)

abbrev pub AreStrings : Bytes × Bytes → Type 0
AreStrings (k, v) = All IsNonzero k × All IsNonzero v

-- a string up to its zero is one piece
split_zeros-string :
    (bs rest : Bytes) → All IsNonzero bs → split_zeros (string bs ++ rest) ≡ bs ∷ split_zeros rest
unfolding split_zeros
split_zeros-string [] rest h = refl
split_zeros-string (b ∷ bs) rest (hb, hs) = ground (arith, split_zeros-string bs rest hs)

-- the pieces of the message: the names and values, and two empty ones at its end
pieces : List (Bytes × Bytes) → List Bytes
pieces [] = [] ∷ ([] ∷ [])
pieces ((k, v) ∷ ps) = k ∷ (v ∷ pieces ps)

split_zeros-pairs_body :
    (ps : List (Bytes × Bytes)) → All AreStrings ps → split_zeros (pairs_body ps) ≡ pieces ps
unfolding split_zeros pieces
split_zeros-pairs_body [] h = refl
split_zeros-pairs_body ((k, v) ∷ ps) ((hk, hv), hs) =
    split_zeros-string k (string v ++ pairs_body ps) hk
    ∙ ap (◌∷◌ k)
        (split_zeros-string v (pairs_body ps) hv ∙ ap (◌∷◌ v) (split_zeros-pairs_body ps hs))

-- The dictionary: later values replace earlier ones, and the zero at the end makes the empty name.
abbrev pub dict_of : List (Bytes × Bytes) → Startup → Startup
dict_of [] d = insert [] (as_bytes []) d
dict_of ((k, v) ∷ ps) d = dict_of ps (insert k (as_bytes v) d)

pop_pairs-pieces :
    (ps : List (Bytes × Bytes)) (d : Startup) → pop_pairs (pieces ps) d ≡ ok (dict_of ps d)
unfolding pop_pairs pieces
pop_pairs-pieces [] d = refl
pop_pairs-pieces ((k, v) ∷ ps) d = pop_pairs-pieces ps (insert k (as_bytes v) d)

length-pairs_body_pos : (ps : List (Bytes × Bytes)) → 0 < length (pairs_body ps)
length-pairs_body_pos [] = omega arith
length-pairs_body_pos ((k, v) ∷ ps) = omega (
  arith,
  length-append (string k) (string v ++ pairs_body ps),
  length-append (string v) (pairs_body ps),
  length-pairs_body_pos ps,
)

minus_eight_lem : (n : ℕ) → minus_eight (pos (n + 8)) ≡ pos n
minus_eight_lem n = ground arith

-- The startup message of a client, with parameters that are strings without NUL, in a packet of
-- less than 2^31 bytes, is read as the dictionary of these parameters, where a later one replaces
-- an earlier of the same name, with an empty one that stands for the NUL at the end, and the two
-- halves of the version, which replace parameters named `major_version` and `minor_version`; what
-- follows it is left.
pub read_startup_message-startup :
    (version : ℕ) (ps : List (Bytes × Bytes)) (rest : Bytes)
    → version < 2147483648
    → All AreStrings ps
    → length (pairs_body ps) + 8 < 2147483648
    → read_startup_message (startup version ps ++ rest)
      ≡ ok (
        insert
            (codes "minor_version")
            (as_int (pos (version % 65536)))
            (insert (codes "major_version") (as_int (pos (version / 65536))) (dict_of ps [])),
        rest,
      )
unfolding read_startup_message startup with_version
read_startup_message-startup version ps rest h strings fits =
    let body = pairs_body ps in
    let n = length body in
    let make = λ (d : Startup). return (with_version (pos version) d) in
    let taken : read_bytes (minus_eight (pos (n + 8))) (body ++ rest) ≡ ok (body, rest) =
      ap (λ k. read_bytes k (body ++ rest)) (minus_eight_lem n)
      ∙ read_bytes-Reads body n refl (length-pairs_body_pos ps) rest in
    let found : pop_pairs (split_zeros body) [] ≡ ok (dict_of ps []) =
      ap (λ x. pop_pairs x []) (split_zeros-pairs_body ps strings) ∙ pop_pairs-pieces ps [] in
    ap
      (resume λ length. read_int32 >>= λ version'. read_bytes (minus_eight length) >>= λ message.
        unpacked (pop_pairs (split_zeros message) []) >>= λ parameters.
        return (with_version version' parameters))
      (read_int32-Reads (pos (n + 8)) fits (int32 (pos version) ++ (body ++ rest)))
    ∙ ap
        (resume λ version'. read_bytes (minus_eight (pos (n + 8))) >>= λ message.
          unpacked (pop_pairs (split_zeros message) []) >>= λ parameters.
          return (with_version version' parameters))
        (read_int32-Reads (pos version) h (body ++ rest))
    ∙ ap (resume λ message. unpacked (pop_pairs (split_zeros message) []) >>= make) taken
    ∙ ap (λ r. (unpacked r >>= make) rest) found
