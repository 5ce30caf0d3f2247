-- ===== src/Common/Method.antt =====
-- Methods of an object: they return or raise, and leave the object as it is then.
pub mod Keeps
use mathlib.Core.Path.{◌≡◌, refl}
use mindsdb.Common.Results.{Result, ok, err}

-- `P` is the type of the object
abbrev pub M : Type 0 → Type 0 → Type 0
M P A = P → Result A × P

module _ {P : Type 0} where
  abbrev pub continue : {A B : Type 0} → (A → M P B) → Result A × P → Result B × P
  continue f (ok a, p) = f a p
  continue f (err e, p) = (err e, p)

  infixl 5 ◌>>=◌ ◌>>◌
  abbrev pub ◌>>=◌ : {A B : Type 0} → M P A → (A → M P B) → M P B
  ◌>>=◌ m f p = continue f (m p)

  abbrev pub ◌>>◌ : {B : Type 0} → M P (Unit {0}) → M P B → M P B
  ◌>>◌ m k p = continue (λ _. k) (m p)

  abbrev pub return : {A : Type 0} → A → M P A
  return a p = (ok a, p)

  abbrev pub lift : {A : Type 0} → Result A → M P A
  lift r p = (r, p)
