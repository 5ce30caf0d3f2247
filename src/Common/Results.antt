-- ===== src/Common/Results.antt =====
-- Python's exceptions as values: the built-in ones that the code meets, and those it raises itself.
use mathlib.Core.Path.{◌≡◌, refl}
use mathlib.Core.Logic.{◌⊎◌, inl, inr}
use native.Mathlib.Omega.{arith}

pub data Error : Type 0 where
  value_error type_error struct_error index_error key_error attribute_error : Error
  unicode_error overflow_error not_implemented : Error
  -- a function that falls off its end returns `None`, on which its callers' `+` raises
  returned_none : Error
  -- no exception: a loop of the model that has no fuel left
  out_of_fuel : Error
  -- raised by the code, named for their messages
  too_many_unclosed_queries unsupported_type : Error
  cannot_parse_repeat number_expected unknown_period period_too_short : Error
  job_exists job_not_exists wrong_end_date cannot_parse_sql integrity_error : Error
  empty_data unsupported_ssl_request unsupported_auth unsupported_message_type : Error
  bad_char no_identifier not_utf8_sql unbound_local : Error

pub data Result {ℓ} (A : Type ℓ) : Type ℓ where
  ok : A → Result A
  err : Error → Result A

-- An exception skips the rest of a `do` block.
infixl 5 ◌>>=◌
abbrev pub ◌>>=◌ {ℓ κ} : {A : Type ℓ} {B : Type κ} → Result A → (A → Result B) → Result B
err raised >>= rest = err raised
ok value >>= rest = rest value

pub Result-cases {ℓ} :
    {A : Type ℓ} (r : Result A) → ((a : A) × (r ≡ ok a)) ⊎ ((e : Error) × (r ≡ err e))
Result-cases (ok a) = inl (a, refl)
Result-cases (err e) = inr (e, refl)

-- A chain succeeds only through its first step.
pub ok_of_bind {ℓ κ} :
    {A : Type ℓ} {B : Type κ} (r : Result A) (f : A → Result B) (b : B)
    → (r >>= f) ≡ ok b
    → (a : A) × (r ≡ ok a) × (f a ≡ ok b)
ok_of_bind (ok a) f b h = (a, refl, h)
ok_of_bind (err e) f b h = ground arith
