-- ===== src/Common/Octets.antt =====
-- Bytes, and the little-endian numbers of `struct`.
use Prim.Native.Nat.{ℕ, zero, suc, ◌+◌, ◌*◌, ◌/◌, ◌%◌, ◌^◌, ◌<◌}
use Prim.Native.Char.{code}
use Prim.Native.String.{String}
use mathlib.Core.Path.{◌≡◌, refl, ap}
use mathlib.Core.List.{List, [], ◌∷◌, ◌++◌}
use native.Mathlib.Omega.{arith}
use native.Mathlib.Nat.{pow-suc, suc-add}
use mindsdb.Common.Lists.{length, take, replicate, All}

abbrev pub Bytes : Type 0
Bytes = List ℕ

abbrev pub IsByte : ℕ → Type 0
IsByte b = b < 256

-- The code points of a literal; these are its bytes when the text is ASCII.
abbrev pub codes : String → List ℕ
codes String.[] = []
codes (String.◌∷◌ c s) = code c ∷ codes s

-- the lowest `n` bytes of `v`, lowest first
abbrev pub le_bytes : ℕ → ℕ → Bytes
le_bytes zero v = []
le_bytes (suc n) v = (v % 256) ∷ le_bytes n (v / 256)

abbrev pub from_le : Bytes → ℕ
from_le [] = 0
from_le (b ∷ bs) = b + 256 * from_le bs

pub length-le_bytes : (n v : ℕ) → length (le_bytes n v) ≡ n
length-le_bytes zero v = refl
length-le_bytes (suc n) v = ap suc (length-le_bytes n (v / 256))

pub le_bytes-IsByte : (n v : ℕ) → All IsByte (le_bytes n v)
le_bytes-IsByte zero v = tt
le_bytes-IsByte (suc n) v = (omega arith, le_bytes-IsByte n (v / 256))

pub take-le_bytes : (k m v : ℕ) → take k (le_bytes (k + m) v) ≡ le_bytes k v
take-le_bytes zero m v = refl
take-le_bytes (suc k) m v = rw suc-add (ap (◌∷◌ (v % 256)) (take-le_bytes k m (v / 256)))

pub from_le-le_bytes : (n v : ℕ) → v < 256 ^ n → from_le (le_bytes n v) ≡ v
from_le-le_bytes zero v h = omega arith
from_le-le_bytes (suc n) v h =
    omega (arith, pow-suc 256 n, from_le-le_bytes n (v / 256) (omega (arith, pow-suc 256 n)))

pub from_le-append_zeros : (bs : Bytes) (n : ℕ) → from_le (bs ++ replicate n 0) ≡ from_le bs
from_le-append_zeros [] zero = refl
from_le-append_zeros [] (suc n) = omega (arith, from_le-append_zeros [] n)
from_le-append_zeros (b ∷ bs) n = omega (arith, from_le-append_zeros bs n)
