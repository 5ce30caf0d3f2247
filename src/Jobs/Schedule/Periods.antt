-- ===== src/Jobs/Schedule/Periods.antt =====
-- `calc_next_date` of jobs_controller.py: what each schedule adds to the date.
use mindsdb.Common.{
  ℕ, ◌+◌, ◌*◌, ◌≡◌, refl, sym, ap, ◌∙◌, Bool, true, false, not, ◌&&◌, List, [], ◌∷◌, ◌++◌, map,
  arith, ltb, if◌then◌else◌, Bool-cases, inl, inr, All, append-nil, append_assoc, codes, Result, ok,
  err, overflow_error, period_too_short, ◌>>=◌,
}
use mindsdb.Jobs.Schedule.{
  DateTime, minute, hour, day, datetime_end, timedelta_end, lower_char, is_space, same, lstrip,
  rstrip, strip, split_words, all_words, words, all_digits, isdigit, int_from, one_of, names_minute,
  names_hour, names_day, names_week, timedelta_of, period_delta, Dateutil, delta_lt, add_delta,
  value_period, repeat_delta, check_period, repeat_prefix, next_date, calc_next_date,
}

-- A word: it has characters, and none of them is a space.
no_space : List ℕ → Bool
no_space [] = true
no_space (c ∷ s) = not (is_space c) && no_space s

is_word : List ℕ → Bool
unfolding no_space
is_word [] = false
is_word (c ∷ s) = no_space (c ∷ s)

-- The periods that have a length.
pub data Period : Type 0 where
  minutes hours days weeks : Period

abbrev pub names : Period → List (List ℕ)
names minutes = names_minute
names hours = names_hour
names days = names_day
names weeks = names_week

abbrev pub span : Period → ℕ
span minutes = minute
span hours = hour
span days = day
span weeks = 7 * day

pub same_lem : (s t : List ℕ) → same s t ≡ true → s ≡ t
same_lem [] [] h = refl
same_lem [] (y ∷ t) h = ground arith
same_lem (x ∷ s) [] h = ground arith
same_lem (x ∷ s) (y ∷ t) h = let rest : same s t ≡ true → s ≡ t = same_lem s t in ground arith

one_of-All {ℓ} :
    (P : List ℕ → Type ℓ) (w : List ℕ) (xs : List (List ℕ)) → one_of w xs ≡ true → All P xs → P w
one_of-All P w [] h a = ground arith
one_of-All P w (x ∷ xs) h (p, a) = elim (Bool-cases (same w x)) [
  | inl e ↦ rw (same_lem w x e) p
  | inr e ↦ one_of-All P w xs (rw e at h) a
]

period_delta_lem :
    (p : Period) (name : List ℕ) (value : ℕ)
    → one_of name (names p) ≡ true
    → period_delta name value ≡ timedelta_of (value * span p)
unfolding period_delta
period_delta_lem minutes name value h =
    one_of-All (λ w. period_delta w value ≡ timedelta_of (value * minute)) name names_minute h
      (refl, (refl, (refl, _)))
period_delta_lem hours name value h =
    one_of-All (λ w. period_delta w value ≡ timedelta_of (value * hour)) name names_hour h
      (refl, (refl, _))
period_delta_lem days name value h =
    one_of-All (λ w. period_delta w value ≡ timedelta_of (value * day)) name names_day h
      (refl, (refl, _))
period_delta_lem weeks name value h =
    let e : value * (7 * day) ≡ value * 7 * day = omega arith in
    rw e (
      one_of-All (λ w. period_delta w value ≡ timedelta_of (value * 7 * day)) name names_week h
        (refl, (refl, _)))

names-is_word : (p : Period) (name : List ℕ) → one_of name (names p) ≡ true → is_word name ≡ true
unfolding is_word no_space is_space
names-is_word minutes name h =
    one_of-All (λ w. is_word w ≡ true) name names_minute h (refl, (refl, (refl, _)))
names-is_word hours name h = one_of-All (λ w. is_word w ≡ true) name names_hour h (refl, (refl, _))
names-is_word days name h = one_of-All (λ w. is_word w ≡ true) name names_day h (refl, (refl, _))
names-is_word weeks name h = one_of-All (λ w. is_word w ≡ true) name names_week h (refl, (refl, _))

all_digits-no_space : (v : List ℕ) → all_digits v ≡ true → no_space v ≡ true
unfolding no_space is_space
all_digits-no_space [] h = refl
all_digits-no_space (c ∷ v) h =
    let rest : all_digits v ≡ true → no_space v ≡ true = all_digits-no_space v in ground arith

isdigit-is_word : (v : List ℕ) → isdigit v ≡ true → is_word v ≡ true
unfolding is_word
isdigit-is_word [] h = h
isdigit-is_word (c ∷ v) h = all_digits-no_space (c ∷ v) h

split_words-append :
    (s t : List ℕ)
    → no_space s ≡ true
    → split_words (s ++ t) ≡ (s ++ (split_words t).0, (split_words t).1)
unfolding no_space split_words
split_words-append [] t h = refl
split_words-append (c ∷ s) t h =
    let rest : no_space s ≡ true
        → split_words (s ++ t) ≡ (s ++ (split_words t).0, (split_words t).1) =
      split_words-append s t in
    grind arith

split_words_word : (p : List ℕ) → no_space p ≡ true → split_words p ≡ (p, [])
split_words_word p h =
    let e : split_words (p ++ []) ≡ (p ++ [], []) =
      split_words-append p [] h ∙ unfold split_words in refl in
    rw (append-nil p) at e

split_words_space : (s : List ℕ) → split_words (32 ∷ s) ≡ ([], all_words (split_words s))
unfolding split_words is_space
split_words_space s = refl

words_pair :
    (v p : List ℕ) → is_word v ≡ true → is_word p ≡ true → words (v ++ (32 ∷ p)) ≡ v ∷ p ∷ []
unfolding is_word words
words_pair [] p hv hp = ground arith
words_pair (c ∷ v) [] hv hp = ground arith
words_pair (c ∷ v) (d ∷ p) hv hp =
    rw
      (
        split_words-append (c ∷ v) (32 ∷ d ∷ p) hv,
        split_words_space (d ∷ p),
        split_words_word (d ∷ p) hp,
        append-nil v,
      )
      refl

rstrip_word : (p : List ℕ) → no_space p ≡ true → rstrip p ≡ p
unfolding no_space
rstrip_word [] h = refl
rstrip_word (c ∷ []) h = ground arith
rstrip_word (c ∷ d ∷ p) h =
    let rest : no_space (d ∷ p) ≡ true → rstrip (d ∷ p) ≡ d ∷ p = rstrip_word (d ∷ p) in grind arith

is_word_cons : (p : List ℕ) → is_word p ≡ true → no_space p ≡ true
unfolding is_word
is_word_cons [] h = unfold no_space in refl
is_word_cons (c ∷ p) h = h

rstrip-append : (s p : List ℕ) → is_word p ≡ true → rstrip (s ++ p) ≡ s ++ p
unfolding is_word
rstrip-append [] p h = rstrip_word p (is_word_cons p h)
rstrip-append (c ∷ []) [] h = ground arith
rstrip-append (c ∷ []) (d ∷ p) h = rw (rstrip-append [] (d ∷ p) h) refl
rstrip-append (c ∷ d ∷ s) p h = rw (rstrip-append (d ∷ s) p h) refl

strip_every :
    (v p : List ℕ)
    → is_word p ≡ true
    → strip (codes "every " ++ (v ++ (32 ∷ p))) ≡ codes "every " ++ (v ++ (32 ∷ p))
strip_every v p h =
    let e : codes "every " ++ (v ++ (32 ∷ p)) ≡ (codes "every " ++ (v ++ (32 ∷ []))) ++ p =
      ap (λ s. codes "every " ++ s) (sym (append_assoc v (32 ∷ []) p)) in
    let l : lstrip (codes "every " ++ (v ++ (32 ∷ p))) ≡ codes "every " ++ (v ++ (32 ∷ p)) =
      unfold is_space in refl in
    ap rstrip l ∙ ap rstrip e ∙ rstrip-append (codes "every " ++ (v ++ (32 ∷ []))) p h ∙ sym e

-- What a schedule of a period that has a length adds, if anything.
abbrev pub add_span : Bool → ℕ → DateTime → Result DateTime
add_span limited n base_date =
    if ltb n timedelta_end
    then (if limited && ltb n day
        then err period_too_short
        else if ltb (base_date + n) datetime_end
        then ok (base_date + n)
        else err overflow_error)
    else err overflow_error

next_date_span :
    (du : Dateutil) (limited : Bool) (n : ℕ) (base_date : DateTime)
    → (do delta ← timedelta_of n; _ ← check_period du limited delta; add_delta du base_date delta)
      ≡ add_span limited n base_date
unfolding timedelta_of check_period delta_lt add_delta
next_date_span du true n base_date = ground arith
next_date_span du false n base_date = ground arith

-- A schedule `every <number> <period>`, of minutes, hours, days or weeks, in capitals or not, adds
-- the number times the length of the period. It raises where the user's shortest period is a day
-- and this one is shorter, and where the period or the next date is out of Python's range.
pub calc_next_date-every :
    (du : Dateutil) (limited : Bool) (p : Period) (value name text : List ℕ) (base_date : DateTime)
    → isdigit value ≡ true
    → one_of name (names p) ≡ true
    → map lower_char text ≡ codes "every " ++ (value ++ (32 ∷ name))
    → calc_next_date du limited text base_date
      ≡ add_span limited (int_from 0 value * span p) base_date
unfolding calc_next_date repeat_prefix next_date repeat_delta value_period
calc_next_date-every du limited p value name text base_date hv hn ht =
    rw
      (
        ht,
        strip_every value name (names-is_word p name hn),
        words_pair value name (isdigit-is_word value hv) (names-is_word p name hn),
        hv,
        period_delta_lem p name (int_from 0 value) hn,
      )
      (next_date_span du limited (int_from 0 value * span p) base_date)
