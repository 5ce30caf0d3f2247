-- ===== src/Jobs/Split.antt =====
-- `split_sql` of mindsdb/interfaces/jobs/jobs_controller.py. The regular expression takes as much as it
-- can of characters that are no `;` and no quote, and of quoted texts. A `;`, and a quote that is not
-- closed, match nothing: they separate.
pub mod Pieces
use mindsdb.Common.{
  ℕ, Bool, true, false, ◌||◌, Option, none, some, List, [], ◌∷◌, ◌==◌, if◌then◌else◌, filter,
}

abbrev pub semicolon : ℕ
semicolon = 59

abbrev pub is_quote : ℕ → Bool
is_quote c = (c == 34) || (c == 39)

unfoldable pub contains : ℕ → List ℕ → Bool
contains c [] = false
contains c (x ∷ s) = (c == x) || contains c s

-- the pieces from here on: the rest of the one that is being matched, and those after it.
-- `mark` is the quote that the matched text is in.
abbrev pub Pieces : Type 0
Pieces = List ℕ × List (List ℕ)

abbrev pub match : ℕ → Pieces → Pieces
match c (p, ps) = (c ∷ p, ps)

abbrev pub separate : Pieces → Pieces
separate (p, ps) = ([], p ∷ ps)

unfoldable pub pieces : Option ℕ → List ℕ → Pieces
unfolding contains
pieces mark [] = ([], [])
pieces none (c ∷ s) =
    let closed = match c (pieces (some c) s) in
    let plain = pieces none s in
    if is_quote c
    then (if contains c s then closed else separate plain)
    else if c == semicolon
    then separate plain
    else match c plain
pieces (some q) (c ∷ s) =
    let ended = match c (pieces none s) in
    let inside = match c (pieces (some q) s) in if c == q then ended else inside

abbrev pub is_matched : List ℕ → Bool
is_matched [] = false
is_matched (c ∷ s) = true

-- a piece has at least one character
abbrev pub all_pieces : Pieces → List (List ℕ)
all_pieces (p, ps) = filter is_matched (p ∷ ps)

unfoldable pub split_sql : List ℕ → List (List ℕ)
split_sql sql = all_pieces (pieces none sql)
