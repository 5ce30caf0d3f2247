-- ===== src/Common/Method/Keeps.antt =====
-- What a method keeps, whether it returns or raises.
use mathlib.Core.Path.{◌≡◌, refl}
use mindsdb.Common.Results.{Result, ok, err}
use mindsdb.Common.Method.{M, continue, ◌>>=◌, ◌>>◌}

abbrev pub Keeps : {P A : Type 0} → (P → Type 0) → M P A → Type 0
Keeps {P} I m = (p : P) → I p → I (m p).1

module _ {P : Type 0} (I : P → Type 0) where
  pub continue-Keeps :
      {A B : Type 0} (f : A → M P B) (r : Result A × P)
      → ((a : A) → Keeps I (f a))
      → I r.1
      → I (continue f r).1
  continue-Keeps f (ok a, p) h i = h a p i
  continue-Keeps f (err e, p) h i = i

  pub >>=-Keeps :
      {A B : Type 0} (m : M P A) (f : A → M P B)
      → Keeps I m
      → ((a : A) → Keeps I (f a))
      → Keeps I (m >>= f)
  >>=-Keeps m f hm hf p i = continue-Keeps f (m p) hf (hm p i)

  pub >>-Keeps :
      {B : Type 0} (m : M P (Unit {0})) (k : M P B) → Keeps I m → Keeps I k → Keeps I (m >> k)
  >>-Keeps m k hm hk p i = continue-Keeps (λ _. k) (m p) (λ _. hk) (hm p i)

  -- What follows a method may be replaced where it agrees on what the method keeps.
  pub continue_agree :
      {A B : Type 0} (f g : A → M P B) (r : Result A × P)
      → I r.1
      → ((a : A) (p : P) → I p → f a p ≡ g a p)
      → continue f r ≡ continue g r
  continue_agree f g (ok a, p) i h = h a p i
  continue_agree f g (err e, p) i h = refl
