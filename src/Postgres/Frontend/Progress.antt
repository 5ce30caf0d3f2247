-- ===== src/Postgres/Frontend/Progress.antt =====
-- `read_message`: a message takes at least the byte of its identifier.
use mindsdb.Common.{
  ℕ, zero, suc, ◌<◌, ◌≡◌, Bool, none, some, [], ◌∷◌, arith, length, Bytes, ℤ, pos, negsuc, ok, ◌==◌,
  if◌then◌else◌,
}
use mindsdb.Postgres.Reader.{
  Reader, return, read_bytes, read_byte, read_string, read_int16, read_int32, repeat, count,
}
use mindsdb.Postgres.Reader.Shrinks.{
  Shrinks, return-Shrinks, >>=-Shrinks, read_bytes-Shrinks, read_int16-Shrinks, read_int32-Shrinks,
  read_byte-Shrinks, read_string-Shrinks, repeat-Shrinks,
}
use mindsdb.Postgres.Frontend.{
  FrontendMessage, terminate, sync, minus_four, read_query, read_parse, param_value, read_param,
  read_bind, read_execute, read_sync, read_describe, read_as, read_message, longer_than_four,
}

query-Shrinks : Shrinks read_query
unfolding read_query
query-Shrinks = >>=-Shrinks read_int32 _ read_int32-Shrinks (λ n.
    >>=-Shrinks (read_bytes (minus_four n)) _ (read_bytes-Shrinks (minus_four n))
      (λ s. return-Shrinks _))

parse-Shrinks : Shrinks read_parse
unfolding read_parse
parse-Shrinks = >>=-Shrinks read_int32 _ read_int32-Shrinks λ n.
    >>=-Shrinks read_string _ read_string-Shrinks λ name.
      >>=-Shrinks read_string _ read_string-Shrinks λ sql.
        >>=-Shrinks read_int16 _ read_int16-Shrinks λ k.
          >>=-Shrinks (repeat (count k) read_int32) _
            (repeat-Shrinks (count k) read_int32 read_int32-Shrinks) λ xs. return-Shrinks _

param_value-Shrinks : (n : ℤ) → Shrinks (param_value n)
unfolding param_value
param_value-Shrinks (negsuc zero) = return-Shrinks none
param_value-Shrinks (negsuc (suc n)) =
    >>=-Shrinks (read_bytes (negsuc (suc n))) _ (read_bytes-Shrinks (negsuc (suc n)))
      (λ v. return-Shrinks (some v))
param_value-Shrinks (pos n) =
    >>=-Shrinks (read_bytes (pos n)) _ (read_bytes-Shrinks (pos n)) (λ v. return-Shrinks (some v))

param-Shrinks : Shrinks read_param
unfolding read_param
param-Shrinks = >>=-Shrinks read_int32 param_value read_int32-Shrinks param_value-Shrinks

bind-Shrinks : Shrinks read_bind
unfolding read_bind
bind-Shrinks = >>=-Shrinks read_int32 _ read_int32-Shrinks λ n.
    >>=-Shrinks read_string _ read_string-Shrinks λ name.
      >>=-Shrinks read_string _ read_string-Shrinks λ statement.
        >>=-Shrinks read_int16 _ read_int16-Shrinks λ k.
          >>=-Shrinks (repeat (count k) read_int16) _
            (repeat-Shrinks (count k) read_int16 read_int16-Shrinks)
            λ xs. >>=-Shrinks read_int16 _ read_int16-Shrinks λ m.
              >>=-Shrinks (repeat (count m) read_param) _
                (repeat-Shrinks (count m) read_param param-Shrinks)
                λ ys. >>=-Shrinks read_int16 _ read_int16-Shrinks λ j.
                  >>=-Shrinks (repeat (count j) read_int16) _
                    (repeat-Shrinks (count j) read_int16 read_int16-Shrinks) λ zs. return-Shrinks _

execute-Shrinks : Shrinks read_execute
unfolding read_execute
execute-Shrinks = >>=-Shrinks read_int32 _ read_int32-Shrinks λ n.
    >>=-Shrinks read_string _ read_string-Shrinks
      λ name. >>=-Shrinks read_int32 _ read_int32-Shrinks λ m. return-Shrinks _

describe-Shrinks : Shrinks read_describe
unfolding read_describe
describe-Shrinks = >>=-Shrinks read_int32 _ read_int32-Shrinks λ n.
    >>=-Shrinks read_byte _ read_byte-Shrinks
      λ kind. >>=-Shrinks read_string _ read_string-Shrinks λ name. return-Shrinks _

if-Shrinks :
    {A : Type 0} (b : Bool) (x y : Reader A) → Shrinks x → Shrinks y → Shrinks (if b then x else y)
if-Shrinks Bool.true x y hx hy = hx
if-Shrinks Bool.false x y hx hy = hy

sync-Shrinks : Shrinks read_sync
unfolding read_sync
sync-Shrinks = >>=-Shrinks read_int32 _ read_int32-Shrinks λ n.
    if-Shrinks (longer_than_four n) _ _
      (>>=-Shrinks (read_bytes (minus_four n)) _ (read_bytes-Shrinks (minus_four n))
        (λ s. return-Shrinks sync))
      (return-Shrinks sync)

read_as-Shrinks : (kind : ℕ) → Shrinks (read_as kind)
unfolding read_as
read_as-Shrinks kind = if-Shrinks (kind == b'Q') _ _ query-Shrinks (
    if-Shrinks (kind == b'X') _ _ (return-Shrinks terminate) (
      if-Shrinks (kind == b'P') _ _ parse-Shrinks (
        if-Shrinks (kind == b'B') _ _ bind-Shrinks (
          if-Shrinks (kind == b'E') _ _ execute-Shrinks (
            if-Shrinks (kind == b'S') _ _ sync-Shrinks (
              if-Shrinks (kind == b'D') _ _ describe-Shrinks (λ buffer rest a e. ground arith)))))))

pub read_message_progress :
    (buffer rest : Bytes) (m : FrontendMessage)
    → read_message buffer ≡ ok (some m, rest)
    → length rest < length buffer
unfolding read_message
read_message_progress [] rest m e = ground arith
read_message_progress (kind ∷ buffer) rest m e =
    let k =
      >>=-Shrinks (read_as kind) (λ x. return (some x)) (read_as-Shrinks kind)
        (λ x. return-Shrinks (some x)) buffer rest (some m) e in
    omega arith
