-- ===== src/Common/Dict.antt =====
-- Python's `dict`, as an association list with each key once. `eq` is the equality of the keys.
use Prim.Native.Nat.{ℕ}
use mathlib.Core.Path.{◌≡◌, refl}
use mathlib.Core.List.{List, [], ◌∷◌}
use mathlib.Core.Option.{Option, none, some}
use native.Mathlib.Omega.{arith}
use mindsdb.Common.Tests.{◌==◌, if◌then◌else◌}

abbrev pub Dict {ℓ} : Type ℓ → Type ℓ
Dict V = List (ℕ × V)

module _ {ℓ} {V : Type ℓ} where
  unfoldable pub lookup : ℕ → Dict V → Option V
  lookup k [] = none
  lookup k ((j, v) ∷ d) = if j == k then some v else lookup k d

  -- `d[k] = v`: a new key comes last
  unfoldable pub insert : ℕ → V → Dict V → Dict V
  insert k v [] = (k, v) ∷ []
  insert k v ((j, w) ∷ d) = if j == k then (k, v) ∷ d else (j, w) ∷ insert k v d

  -- `del d[k]` of a key that is there
  unfoldable pub remove : ℕ → Dict V → Dict V
  remove k [] = []
  remove k ((j, w) ∷ d) = let rest = remove k d in if j == k then rest else (j, w) ∷ rest

  pub lookup-insert :
      (k j : ℕ) (v : V) (d : Dict V)
      → lookup j (insert k v d) ≡ (if k == j then some v else lookup j d)
  unfolding lookup insert
  lookup-insert k j v [] = refl
  lookup-insert k j v ((i, w) ∷ d) = ground (arith, lookup-insert k j v d)

  pub lookup-insert_self : (k : ℕ) (v : V) (d : Dict V) → lookup k (insert k v d) ≡ some v
  lookup-insert_self k v d = ground (arith, lookup-insert k k v d)

  pub lookup-remove :
      (k j : ℕ) (d : Dict V) → lookup j (remove k d) ≡ (if k == j then none else lookup j d)
  unfolding lookup remove
  lookup-remove k j [] = ground arith
  lookup-remove k j ((i, w) ∷ d) = ground (arith, lookup-remove k j d)
