-- ===== src/Postgres/Text.antt =====
-- What postgres_proxy.py asks of Python's `str`, and `strip_null_byte` of utilities/__init__.py.
use mindsdb.Common.{ℕ, Bool, true, false, ◌&&◌, ◌||◌, List, [], ◌∷◌, leb, ◌==◌, if◌then◌else◌}

-- `\s` of a text's regular expression
is_space : ℕ → Bool
is_space c =
    leb 9 c && leb c 13
    || leb 28 c && leb c 32
    || c == 133
    || c == 160
    || c == 5760
    || leb 8192 c && leb c 8202
    || c == 8232
    || c == 8233
    || c == 8239
    || c == 8287
    || c == 12288

is_space_or_null : ℕ → Bool
unfolding is_space
is_space_or_null c = is_space c || c == 0

-- a character that a test picks falls off the end of a text
abbrev drop_last : Bool → ℕ → List ℕ → List ℕ
drop_last true c [] = []
drop_last true c (x ∷ rest) = c ∷ (x ∷ rest)
drop_last false c rest = c ∷ rest

rstrip : (ℕ → Bool) → List ℕ → List ℕ
rstrip p [] = []
rstrip p (c ∷ s) = drop_last (p c) c (rstrip p s)

lstrip : (ℕ → Bool) → List ℕ → List ℕ
lstrip p [] = []
lstrip p (c ∷ s) = let rest = lstrip p s in if p c then rest else c ∷ s

-- `re.sub(r'[\s\x00]+$', '', x)`
unfoldable pub strip_null_byte : List ℕ → List ℕ
unfolding is_space_or_null rstrip
strip_null_byte s = rstrip is_space_or_null s

-- `str.strip` of the characters of a test
unfoldable pub strip_of : (ℕ → Bool) → List ℕ → List ℕ
unfolding rstrip lstrip
strip_of p s = rstrip p (lstrip p s)

-- `s.split(" ", 1)[0]`
unfoldable pub first_word : List ℕ → List ℕ
first_word [] = []
first_word (c ∷ s) = let rest = first_word s in if c == b' ' then [] else c ∷ rest

-- `sub in s` for the text `()`
unfoldable pub has_parens : List ℕ → Bool
has_parens [] = false
has_parens (c ∷ []) = false
has_parens (c ∷ (d ∷ s)) = c == b'(' && d == b')' || has_parens (d ∷ s)

-- equality of texts
unfoldable pub text_eq : List ℕ → List ℕ → Bool
text_eq [] [] = true
text_eq (x ∷ xs) (y ∷ ys) = if x == y then text_eq xs ys else false
text_eq _ _ = false
