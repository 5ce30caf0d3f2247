-- ===== src/Jobs/Schedule.antt =====
-- `calc_next_date` of mindsdb/interfaces/jobs/jobs_controller.py. A text is a list of code points, of
-- ASCII; a `datetime` is the number of microseconds since the first day of year 1.
pub mod Periods
use mindsdb.Common.{
  ℕ, ◌+◌, ◌-◌, ◌*◌, Bool, true, false, ◌&&◌, ◌||◌, Option, none, some, List, [], ◌∷◌, map, ltb, leb,
  ◌==◌, if◌then◌else◌, codes, Result, ok, err, overflow_error, not_implemented, cannot_parse_repeat,
  number_expected, unknown_period, period_too_short, ◌>>=◌,
}

abbrev pub DateTime : Type 0
DateTime = ℕ

abbrev pub second : ℕ
second = 1000000

abbrev pub minute : ℕ
minute = 60 * second

abbrev pub hour : ℕ
hour = 60 * minute

abbrev pub day : ℕ
day = 24 * hour

-- the first instant after year 9999, and the first number of days that `timedelta` refuses
abbrev pub datetime_end : ℕ
datetime_end = 3652059 * day

abbrev pub timedelta_end : ℕ
timedelta_end = 1000000000 * day

-- `str.lower`, `str.isspace`, `str.isdigit` on ASCII
abbrev pub lower_char : ℕ → ℕ
lower_char c = if leb 65 c && leb c 90 then c + 32 else c

unfoldable pub is_space : ℕ → Bool
is_space c = (c == 32) || ((leb 9 c && leb c 13) || (leb 28 c && leb c 31))

abbrev pub is_digit : ℕ → Bool
is_digit c = leb 48 c && leb c 57

abbrev pub same : List ℕ → List ℕ → Bool
same [] [] = true
same [] (y ∷ t) = false
same (x ∷ s) [] = false
same (x ∷ s) (y ∷ t) = (x == y) && same s t

-- `str.strip`: at the start, and at the end
abbrev pub lstrip : List ℕ → List ℕ
lstrip [] = []
lstrip (c ∷ s) = let rest = lstrip s in if is_space c then rest else c ∷ s

abbrev pub put_back : ℕ → List ℕ → List ℕ
put_back c [] = if is_space c then [] else c ∷ []
put_back c (x ∷ s) = c ∷ (x ∷ s)

abbrev pub rstrip : List ℕ → List ℕ
rstrip [] = []
rstrip (c ∷ s) = put_back c (rstrip s)

abbrev pub strip : List ℕ → List ℕ
strip s = rstrip (lstrip s)

-- `str.startswith(prefix)`, with what follows the prefix
abbrev pub after : List ℕ → List ℕ → Option (List ℕ)
after [] s = some s
after (p ∷ ps) [] = none
after (p ∷ ps) (c ∷ s) = let rest = after ps s in if p == c then rest else none

-- `str.split()`: the word that begins here, and the words after it
abbrev pub all_words : List ℕ × List (List ℕ) → List (List ℕ)
all_words ([], ws) = ws
all_words (c ∷ s, ws) = (c ∷ s) ∷ ws

pub split_words : List ℕ → List ℕ × List (List ℕ)
split_words [] = ([], [])
split_words (c ∷ s) =
    let (w, ws) = split_words s in if is_space c then ([], all_words (w, ws)) else (c ∷ w, ws)

pub words : List ℕ → List (List ℕ)
unfolding split_words
words s = all_words (split_words s)

abbrev pub all_digits : List ℕ → Bool
all_digits [] = true
all_digits (c ∷ s) = is_digit c && all_digits s

abbrev pub isdigit : List ℕ → Bool
isdigit [] = false
isdigit (c ∷ s) = all_digits (c ∷ s)

-- `int(value)`, of digits
abbrev pub int_from : ℕ → List ℕ → ℕ
int_from acc [] = acc
int_from acc (c ∷ s) = int_from (10 * acc + (c - 48)) s

abbrev pub one_of : List ℕ → List (List ℕ) → Bool
one_of w [] = false
one_of w (x ∷ xs) = same w x || one_of w xs

-- What the code adds to the date: a `timedelta`, or a `relativedelta` of months.
pub data Delta : Type 0 where
  timedelta : ℕ → Delta
  months : ℕ → Delta

-- The names of each period with its length; months have none.
abbrev pub names_minute : List (List ℕ)
names_minute = codes "minute" ∷ codes "minutes" ∷ codes "min" ∷ []

abbrev pub names_hour : List (List ℕ)
names_hour = codes "hour" ∷ codes "hours" ∷ []

abbrev pub names_day : List (List ℕ)
names_day = codes "day" ∷ codes "days" ∷ []

abbrev pub names_week : List (List ℕ)
names_week = codes "week" ∷ codes "weeks" ∷ []

abbrev pub names_month : List (List ℕ)
names_month = codes "month" ∷ codes "months" ∷ []

-- `dt.timedelta(...)`
timedelta_of : ℕ → Result Delta
timedelta_of span = if ltb span timedelta_end then ok (timedelta span) else err overflow_error

period_delta : List ℕ → ℕ → Result Delta
period_delta period value =
    if one_of period names_minute
    then timedelta_of (value * minute)
    else if one_of period names_hour
    then timedelta_of (value * hour)
    else if one_of period names_day
    then timedelta_of (value * day)
    else if one_of period names_week
    then timedelta_of (value * 7 * day)
    else if one_of period names_month
    then ok (months value)
    else err unknown_period

-- The package dateutil: a date some months later, and the comparison of months with a `timedelta`.
pub record Dateutil : Type 0 where
  pub add_months : ℕ → DateTime → Result DateTime
  pub months_lt : ℕ → ℕ → Result Bool

delta_lt : Dateutil → Delta → ℕ → Result Bool
delta_lt du (timedelta span) limit = ok (ltb span limit)
delta_lt du (months n) limit = du.months_lt n limit

add_delta : Dateutil → DateTime → Delta → Result DateTime
add_delta du base_date (timedelta span) =
    if ltb (base_date + span) datetime_end then ok (base_date + span) else err overflow_error
add_delta du base_date (months n) = du.add_months n base_date

-- `items`, as the number and the period
value_period : List (List ℕ) → Result (List ℕ × List ℕ)
value_period (period ∷ []) = ok (codes "1", period)
value_period (value ∷ period ∷ []) = ok (value, period)
value_period _ = err cannot_parse_repeat

repeat_delta : List ℕ → Result Delta
unfolding value_period period_delta timedelta_of
repeat_delta repeat_str = do
  (value, period) ← value_period (words repeat_str)
  if isdigit value then period_delta period (int_from 0 value) else err number_expected

-- the limit of users of class 0 in the cloud
check_period : Dateutil → Bool → Delta → Result (Unit {0})
unfolding delta_lt
check_period du false delta = ok _
check_period du true delta = do
  short ← delta_lt du delta day
  if short then err period_too_short else ok _

repeat_prefix : List ℕ → Option (List ℕ)
repeat_prefix s = after (codes "every ") s

next_date : Dateutil → Bool → Option (List ℕ) → DateTime → Result DateTime
unfolding repeat_delta check_period add_delta
next_date du limited none base_date = err not_implemented
next_date du limited (some repeat_str) base_date = do
  delta ← repeat_delta repeat_str
  _ ← check_period du limited delta
  add_delta du base_date delta

-- `limited` is `is_cloud and ctx.user_class == 0`.
unfoldable pub calc_next_date : Dateutil → Bool → List ℕ → DateTime → Result DateTime
unfolding repeat_prefix next_date
calc_next_date du limited schedule_str base_date =
    next_date du limited (repeat_prefix (strip (map lower_char schedule_str))) base_date
