-- ===== src/Postgres/Builder/Contents.antt =====
-- `PostgresPacketBuilder`: the bytes that a packet consists of, where its numbers fit their formats.
use mindsdb.Common.{
  ℕ, ◌+◌, ◌<◌, ◌≡◌, refl, List, [], ◌∷◌, ◌++◌, arith, length, length-append, take-append, replicate,
  Bytes, ℤ, pos, ok, append_assoc, append-nil, ap, ok_of_bind,
}
use mathlib.Core.Path.{subst}
use mindsdb.Postgres.Numbers.{be16, be32, wrap, Is16, Is32, pack_h_lem, pack_i_lem}
use mindsdb.Postgres.Builder.{
  Format, char, int, short, str, Arg, raw, number, Builder, pack_item, pack_items,
  get_packet_builder, add, add_char, add_string, add_int32, add_int16, add_bytes, write,
}

-- The packet of `b` will have the body `body`.
pub record Builds (id : Bytes) (b : Builder) (body : Bytes) : Type 0 where
  id_eq : b.identifier ≡ id
  packs : pack_items b.pack_string b.pack_args ≡ ok body
  sum : b.length ≡ length body

pub reset-Builds : (id : Bytes) → Builds id (get_packet_builder id) []
unfolding pack_items
reset-Builds id = record { id_eq = refl; packs = refl; sum = refl }

pack_items-snoc :
    (fs : List Format) (args : List Arg) (f : Format) (a : Arg) (body item : Bytes)
    → pack_items fs args ≡ ok body
    → pack_item f a ≡ ok item
    → pack_items (fs ++ f ∷ []) (args ++ a ∷ []) ≡ ok (body ++ item)
unfolding pack_items
pack_items-snoc [] [] f a body item p q = rw q (ground (arith, append-nil item))
pack_items-snoc [] (b ∷ args) f a body item p q = ground arith
pack_items-snoc (g ∷ fs) [] f a body item p q = ground arith
pack_items-snoc (g ∷ fs) (b ∷ args) f a body item p q =
    let (first, e, p') = ok_of_bind (pack_item g b) _ body p in
    let (rest, e', p'') = ok_of_bind (pack_items fs args) _ body p' in
    let k = pack_items-snoc fs args f a rest item e' q in
    rw (e, k) (ground (arith, append_assoc first rest item))

add-Builds :
    (f : Format) (a : Arg) (item : Bytes) {id : Bytes} {b : Builder} {body : Bytes}
    → pack_item f a ≡ ok item
    → Builds id b body
    → Builds id (add f a (length item) b) (body ++ item)
add-Builds f a item {id} {b} {body} e z = record {
  id_eq = z.id_eq;
  packs = pack_items-snoc b.pack_string b.pack_args f a body item z.packs e;
  sum = let k = z.sum in omega (arith, length-append body item);
}

module _ {id : Bytes} {b : Builder} {body : Bytes} where
  pub add_int32-Builds :
      (v : ℤ)
      → Is32 v
      → Builds id b body
      → Builds id (add_int32 v b) (body ++ be32 (wrap 4294967295 v))
  unfolding add_int32 pack_item
  add_int32-Builds v h z = add-Builds int (number v) (be32 (wrap 4294967295 v)) (pack_i_lem v h) z

  pub add_int16-Builds :
      (v : ℤ) → Is16 v → Builds id b body → Builds id (add_int16 v b) (body ++ be16 (wrap 65535 v))
  unfolding add_int16 pack_item
  add_int16-Builds v h z = add-Builds short (number v) (be16 (wrap 65535 v)) (pack_h_lem v h) z

  pub add_bytes-Builds : (bs : Bytes) → Builds id b body → Builds id (add_bytes bs b) (body ++ bs)
  unfolding add_bytes pack_item
  add_bytes-Builds bs z =
      add-Builds (str (length bs)) (raw bs) bs
        (ap ok (take-append bs (replicate (length bs) 0) _ refl)) z

  pub add_string-Builds :
      (bs : Bytes) → Builds id b body → Builds id (add_string bs b) (body ++ (bs ++ 0 ∷ []))
  unfolding add_string pack_item
  add_string-Builds bs z =
      let t = bs ++ 0 ∷ [] in
      add-Builds (str (length t)) (raw t) t (ap ok (take-append t (replicate (length t) 0) _ refl))
        z

  pub add_char-Builds :
      (x : ℕ)
      → Builds id b body
      → (b'' : Builder) × (add_char (x ∷ []) b ≡ ok b'') × Builds id b'' (body ++ x ∷ [])
  unfolding add_char pack_item
  add_char-Builds x z =
      (add char (raw (x ∷ [])) 1 b, refl, add-Builds char (raw (x ∷ [])) (x ∷ []) refl z)

pack_items-header :
    (x n : ℕ) (fs : List Format) (args : List Arg) (body : Bytes)
    → pack_items fs args ≡ ok body
    → n < 2147483648
    → pack_items (char ∷ (int ∷ fs)) (raw (x ∷ []) ∷ (number (pos n) ∷ args))
      ≡ ok (x ∷ (be32 n ++ body))
unfolding pack_items pack_item
pack_items-header x n fs args body e h = rw (pack_i_lem (pos n) h, e) refl

write_parts :
    (id : Bytes) (n x : ℕ) (fs : List Format) (args : List Arg) (body : Bytes)
    → id ≡ x ∷ []
    → n ≡ length body
    → pack_items fs args ≡ ok body
    → length body + 4 < 2147483648
    → write (record { identifier = id; pack_string = fs; pack_args = args; length = n })
      ≡ ok (x ∷ (be32 (length body + 4) ++ body))
unfolding write
write_parts id n x fs args body e l p h =
    rw (e, l) (pack_items-header x (length body + 4) fs args body p h)

-- What `write` writes.
pub write-Builds :
    {x : ℕ} {b : Builder} {body : Bytes}
    → Builds (x ∷ []) b body
    → length body + 4 < 2147483648
    → write b ≡ ok (x ∷ (be32 (length body + 4) ++ body))
unfolding write
write-Builds {x} {b} {body} z h =
    write_parts b.identifier b.length x b.pack_string b.pack_args body z.id_eq z.sum z.packs h

pub Builds-eq :
    {id : Bytes} {b : Builder} {body : Bytes} (body' : Bytes)
    → body ≡ body'
    → Builds id b body
    → Builds id b body'
Builds-eq {id} {b} body' e z = subst (Builds id b) e z
