-- ===== src/Jobs/Dates.antt =====
-- `_parse_date` of mindsdb/interfaces/jobs/jobs_controller.py, and `strptime` on its two formats. A field
-- has one or two digits, the year has four.
use mindsdb.Common.{
  ℕ, zero, suc, ◌+◌, ◌-◌, ◌*◌, ◌/◌, ◌%◌, Bool, not, ◌&&◌, ◌||◌, Option, none, some, List, [], ◌∷◌,
  map, leb, ◌==◌, if◌then◌else◌, length, codes, Result, ok, err, value_error,
}
use mindsdb.Jobs.Schedule.{DateTime, second, minute, hour, day, is_space, is_digit, same, int_from}

infixl 5 ◌>>=◌
abbrev ◌>>=◌ {ℓ κ} : {A : Type ℓ} {B : Type κ} → Option A → (A → Option B) → Option B
none >>= f = none
some a >>= f = f a

-- the digits that a text begins with, and the rest
digits : List ℕ → List ℕ × List ℕ
digits [] = ([], [])
digits (c ∷ s) = let (ds, rest) = digits s in if is_digit c then (c ∷ ds, rest) else ([], c ∷ s)

-- a number of `least` to `most` digits, between `low` and `high`
field : ℕ → ℕ → ℕ → ℕ → List ℕ → Option (ℕ × List ℕ)
unfolding digits
field least most low high s =
    let (ds, rest) = digits s in
    let n = int_from 0 ds in
    if leb least (length ds) && (leb (length ds) most && (leb low n && leb n high))
    then some (n, rest)
    else none

-- a day of the month, which may be a space and a digit
day_field : List ℕ → Option (ℕ × List ℕ)
unfolding field
day_field [] = none
day_field (c ∷ s) = if c == 32 then field 1 1 1 9 s else field 1 2 1 31 (c ∷ s)

literal : ℕ → List ℕ → Option (List ℕ)
literal c [] = none
literal c (x ∷ s) = if x == c then some s else none

-- what follows the white space, and white space that must be there
skip_spaces : List ℕ → List ℕ
unfolding is_space
skip_spaces [] = []
skip_spaces (c ∷ s) = let rest = skip_spaces s in if is_space c then rest else c ∷ s

spaces : List ℕ → Option (List ℕ)
unfolding is_space skip_spaces
spaces [] = none
spaces (c ∷ s) = if is_space c then some (skip_spaces s) else none

abbrev is_leap : ℕ → Bool
is_leap y = (y % 4 == 0) && (not (y % 100 == 0) || (y % 400 == 0))

days_in_month : ℕ → ℕ → ℕ
days_in_month y m =
    if m == 2
    then (if is_leap y then 29 else 28)
    else if (m == 4) || ((m == 6) || ((m == 9) || (m == 11)))
    then 30
    else 31

days_before_month : ℕ → ℕ → ℕ
unfolding days_in_month
days_before_month y zero = 0
days_before_month y (suc m) = (if m == 0 then 0 else days_in_month y m) + days_before_month y m

-- the days before the date, from the first day of year 1 on; there is no year 0
ordinal : ℕ → ℕ → ℕ → Option ℕ
unfolding days_in_month days_before_month
ordinal y m d =
    if leb 1 y && leb d (days_in_month y m)
    then some (
        365 * (y - 1)
        + (y - 1) / 4
        - (y - 1) / 100
        + (y - 1) / 400
        + days_before_month y m
        + (d - 1))
    else none

-- `%Y-%m-%d`
date_part : List ℕ → Option (ℕ × List ℕ)
unfolding field day_field literal ordinal
date_part s = do
  (y, s1) ← field 4 4 0 9999 s
  s2 ← literal 45 s1
  (m, s3) ← field 1 2 1 12 s2
  s4 ← literal 45 s3
  (d, s5) ← day_field s4
  days ← ordinal y m d
  some (days * day, s5)

-- ` %H:%M:%S`
time_part : List ℕ → Option (ℕ × List ℕ)
unfolding field literal spaces
time_part s = do
  s1 ← spaces s
  (h, s2) ← field 1 2 0 23 s1
  s3 ← literal 58 s2
  (m, s4) ← field 1 2 0 59 s3
  s5 ← literal 58 s4
  (x, s6) ← field 1 2 0 59 s5
  some (h * hour + m * minute + x * second, s6)

at_end : DateTime → List ℕ → Option DateTime
at_end t [] = some t
at_end t (c ∷ s) = none

datetime_of : List ℕ → Option DateTime
unfolding date_part time_part at_end
datetime_of s = do (t, s1) ← date_part s; (u, s2) ← time_part s1; at_end (t + u) s2

date_of : List ℕ → Option DateTime
unfolding date_part at_end
date_of s = do (t, s1) ← date_part s; at_end t s1

abbrev upper_char : ℕ → ℕ
upper_char c = if leb 97 c && leb c 122 then c - 32 else c

-- the last format that fits counts
either_date : Option DateTime → Option DateTime → Result DateTime
either_date t (some u) = ok u
either_date (some t) none = ok t
either_date none none = err value_error

unfoldable pub parse_date : DateTime → List ℕ → Result DateTime
unfolding datetime_of date_of either_date
parse_date now date_str =
    if same (map upper_char date_str) (codes "NOW")
    then ok now
    else either_date (datetime_of date_str) (date_of date_str)
