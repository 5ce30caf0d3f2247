-- ===== src/Jobs/Templates.antt =====
-- The template variables of a job's query, and how `execute_task_local` of
-- mindsdb/interfaces/jobs/jobs_controller.py fills them: `strftime`, `in` and `str.replace`.
use mindsdb.Common.{
  ℕ, zero, suc, ◌+◌, ◌-◌, ◌*◌, ◌/◌, ◌%◌, Bool, true, false, ◌&&◌, ◌||◌, List, [], ◌∷◌, ◌++◌, ltb,
  ◌==◌, if◌then◌else◌, length, codes, pos,
}
use mindsdb.Wire.Text.{decimal}
use mindsdb.Jobs.Schedule.{DateTime, second, minute, hour, day}

abbrev pub starts_with : List ℕ → List ℕ → Bool
starts_with [] s = true
starts_with (p ∷ ps) [] = false
starts_with (p ∷ ps) (c ∷ s) = (p == c) && starts_with ps s

-- `old in s`
pub is_in : List ℕ → List ℕ → Bool
is_in old [] = starts_with old []
is_in old (c ∷ s) = starts_with old (c ∷ s) || is_in old s

-- `s.replace(old, new)`, after `skip` characters that are already replaced
pub replace : List ℕ → List ℕ → ℕ → List ℕ → List ℕ
replace old new skip [] = []
replace old new (suc k) (c ∷ s) = replace old new k s
replace old new zero (c ∷ s) =
    let kept = c ∷ replace old new 0 s in
    let replaced = new ++ replace old new (length old - 1) s in
    if starts_with old (c ∷ s) then replaced else kept

-- The date of a day, counted from the first of March of year 0.
record Date : Type 0 where
  year : ℕ
  month : ℕ
  day_of_month : ℕ

date_of : ℕ → Date
date_of z =
    let era = z / 146097 in
    let doe = z % 146097 in
    let yoe = (doe + doe / 36524 - doe / 1460 - doe / 146096) / 365 in
    let doy = doe + yoe / 100 - (365 * yoe + yoe / 4) in
    let mp = (5 * doy + 2) / 153 in
    let early = ltb mp 10 in
    record {
      year = 400 * era + yoe + (if early then 0 else 1);
      month = if early then mp + 3 else mp - 9;
      day_of_month = doy + 1 - (153 * mp + 2) / 5;
    }

two_digits : ℕ → List ℕ
two_digits n = (48 + n / 10) ∷ (48 + n % 10) ∷ []

date_text : Date → List ℕ
unfolding two_digits
date_text d =
    decimal (pos d.year) ++ (45 ∷ (two_digits d.month ++ (45 ∷ two_digits d.day_of_month)))

-- `strftime("%Y-%m-%d")`; the first of January of year 1 is 306 days after that March
pub date_str : DateTime → List ℕ
unfolding date_of date_text
date_str t = date_text (date_of (t / day + 306))

-- `strftime("%Y-%m-%d %H:%M:%S")`
pub datetime_str : DateTime → List ℕ
unfolding date_str two_digits
datetime_str t =
    date_str t
    ++ (32
        ∷ (two_digits (t / hour % 24)
            ++ (58 ∷ (two_digits (t / minute % 60) ++ (58 ∷ two_digits (t / second % 60))))))

abbrev pub previous_start_datetime : List ℕ
previous_start_datetime = codes "{{PREVIOUS_START_DATETIME}}"

abbrev pub start_date : List ℕ
start_date = codes "{{START_DATE}}"

abbrev pub start_datetime : List ℕ
start_datetime = codes "{{START_DATETIME}}"

-- What a step of a task gives: a value, or the text of an exception, which the task catches.
pub data Attempt {ℓ} (A : Type ℓ) : Type ℓ where
  done : A → Attempt A
  failed : List ℕ → Attempt A

infixl 5 ◌>>=◌
abbrev pub ◌>>=◌ {ℓ κ} : {A : Type ℓ} {B : Type κ} → Attempt A → (A → Attempt B) → Attempt B
done a >>= f = f a
failed m >>= f = failed m

-- `if variable in sql: ... sql = sql.replace(variable, value)`; the value is computed if it is needed.
pub fill : List ℕ → Attempt (List ℕ) → List ℕ → Attempt (List ℕ)
unfolding is_in replace
fill variable value sql =
    if is_in variable sql then (do v ← value; done (replace variable v 0 sql)) else done sql

abbrev pub formatted : (DateTime → List ℕ) → Attempt DateTime → Attempt (List ℕ)
formatted format t = do d ← t; done (format d)

-- The text that is run: `previous` is the date of the previous run, and `started` that of this run.
pub fill_templates : Attempt DateTime → Attempt DateTime → List ℕ → Attempt (List ℕ)
unfolding fill date_str datetime_str
fill_templates previous started sql = do
  sql1 ← fill previous_start_datetime (formatted datetime_str previous) sql
  sql2 ← fill start_date (formatted date_str started) sql1
  fill start_datetime (formatted datetime_str started) sql2
