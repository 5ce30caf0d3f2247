-- ===== src/Jobs/Split/Pieces.antt =====
-- `split_sql` of jobs_controller.py: statements without quotes left open are split at the `;` between
-- them, and nowhere else.
use mindsdb.Common.{
  ℕ, ◌≡◌, refl, sym, ap, Bool, true, false, Option, none, some, List, [], ◌∷◌, ◌++◌, arith, ◌==◌,
  if◌then◌else◌, filter, All, append-nil, Bool-cases, inl, inr,
}
use mindsdb.Jobs.Split.{
  semicolon, is_quote, contains, Pieces, match, separate, pieces, is_matched, split_sql,
}

-- Whether a text has its quotes closed and no `;` outside them, from inside the quote `mark` on.
unfoldable pub balanced : Option ℕ → List ℕ → Bool
balanced none [] = true
balanced (some q) [] = false
balanced none (c ∷ s) =
    let opened = balanced (some c) s in
    let plain = balanced none s in
    if is_quote c then opened else if c == semicolon then false else plain
balanced (some q) (c ∷ s) =
    let ended = balanced none s in
    let inside = balanced (some q) s in if c == q then ended else inside

unfoldable pub IsStatement : List ℕ → Type 0
IsStatement s = (balanced none s ≡ true) × (is_matched s ≡ true)

-- the statements with `;` between them
pub join : List (List ℕ) → List ℕ
join [] = []
join (s ∷ []) = s
join (s ∷ t ∷ ss) = s ++ (semicolon ∷ join (t ∷ ss))

contains_append : (c : ℕ) (s t : List ℕ) → contains c s ≡ true → contains c (s ++ t) ≡ true
unfolding contains
contains_append c [] t h = ground arith
contains_append c (x ∷ s) t h =
    let later : contains c s ≡ true → contains c (s ++ t) ≡ true = contains_append c s t in
    ground arith

contains_of_balanced : (q : ℕ) (s : List ℕ) → balanced (some q) s ≡ true → contains q s ≡ true
unfolding balanced contains
contains_of_balanced q [] h = ground arith
contains_of_balanced q (c ∷ s) h =
    let later : balanced (some q) s ≡ true → contains q s ≡ true = contains_of_balanced q s in
    ground arith

-- what follows a piece
IsEnd : List ℕ → Pieces → Type 0
IsEnd t (p, ps) = pieces none t ≡ ([], ps)

append_piece : List ℕ → Pieces → Pieces
append_piece [] r = r
append_piece (c ∷ s) r = match c (append_piece s r)

pieces-append :
    (mark : Option ℕ) (s t : List ℕ)
    → balanced mark s ≡ true
    → pieces mark (s ++ t) ≡ append_piece s (pieces none t)
unfolding balanced pieces append_piece
pieces-append none [] t h = refl
pieces-append (some q) [] t h = ground arith
pieces-append none (c ∷ s) t h =
    let held : balanced (some c) s ≡ true → contains c (s ++ t) ≡ true =
      λ b. contains_append c s t (contains_of_balanced c s b) in
    let opened : balanced (some c) s ≡ true
        → pieces (some c) (s ++ t) ≡ append_piece s (pieces none t) =
      pieces-append (some c) s t in
    let plain : balanced none s ≡ true → pieces none (s ++ t) ≡ append_piece s (pieces none t) =
      pieces-append none s t in
    grind arith
pieces-append (some q) (c ∷ s) t h =
    let ended : balanced none s ≡ true → pieces none (s ++ t) ≡ append_piece s (pieces none t) =
      pieces-append none s t in
    let inside : balanced (some q) s ≡ true
        → pieces (some q) (s ++ t) ≡ append_piece s (pieces none t) =
      pieces-append (some q) s t in
    grind arith

append_piece-ended : (s : List ℕ) (ps : List (List ℕ)) → append_piece s ([], ps) ≡ (s, ps)
unfolding append_piece
append_piece-ended [] ps = refl
append_piece-ended (c ∷ s) ps = rw (append_piece-ended s ps) refl

pieces_of_balanced :
    (s t : List ℕ) (ps : List (List ℕ))
    → balanced none s ≡ true
    → pieces none t ≡ ([], ps)
    → pieces none (s ++ t) ≡ (s, ps)
pieces_of_balanced s t ps h e = rw (pieces-append none s t h, e) (append_piece-ended s ps)

pieces_of_semicolon : (t : List ℕ) → pieces none (semicolon ∷ t) ≡ separate (pieces none t)
unfolding pieces
pieces_of_semicolon t = refl

-- Statements, none of them empty, with their quotes closed and no `;` outside the quotes, are what
-- `split_sql` makes of the text that has a `;` between each two of them.
pub split_sql-join : (ss : List (List ℕ)) → All IsStatement ss → split_sql (join ss) ≡ ss
unfolding split_sql join IsStatement
split_sql-join [] h = unfold pieces in refl
split_sql-join (s ∷ []) ((b, m), h) =
    rw (sym (append-nil s), pieces_of_balanced s [] [] b (unfold pieces in refl), m)
      (ap (λ x. x ∷ []) (sym (append-nil s)))
split_sql-join (s ∷ t ∷ ss) ((b, m), h) =
    rw
      (
        pieces_of_balanced s (semicolon ∷ join (t ∷ ss)) _ b (pieces_of_semicolon (join (t ∷ ss))),
        m,
      )
      (ap (λ rest. s ∷ rest) (split_sql-join (t ∷ ss) h))

Whole : Option ℕ → List ℕ → Pieces → Type 0
Whole none s (p, ps) = (balanced none p ≡ true) × All (λ x. balanced none x ≡ true) ps
Whole (some q) s (p, ps) =
    (contains q s ≡ true → balanced (some q) p ≡ true) × All (λ x. balanced none x ≡ true) ps

opened_Whole :
    (c : ℕ) (s p : List ℕ)
    → is_quote c ≡ true
    → balanced (some c) p ≡ true
    → balanced none (c ∷ p) ≡ true
unfolding balanced
opened_Whole c s p q h = rw (q, h) refl

plain_Whole :
    (c : ℕ) (p : List ℕ)
    → is_quote c ≡ false
    → (c == semicolon) ≡ false
    → balanced none p ≡ true
    → balanced none (c ∷ p) ≡ true
unfolding balanced
plain_Whole c p q e h = rw (q, e, h) refl

quoted_Whole :
    (q c : ℕ) (s : List ℕ) (ended inside : Pieces)
    → Whole none s ended
    → Whole (some q) s inside
    → Whole (some q) (c ∷ s) (if c == q then match c ended else match c inside)
unfolding Whole balanced contains
quoted_Whole q c s (p, ps) (p', ps') (h, hs) (h', hs') = elim (Bool-cases (c == q)) [
  | inl e ↦ rw (e, h) (grind arith, hs)
  | inr e ↦ rw e (grind arith, hs')
]

unquoted_Whole :
    (c : ℕ) (s : List ℕ) (opened plain : Pieces)
    → Whole (some c) s opened
    → Whole none s plain
    → Whole none (c ∷ s) (
        if is_quote c
        then (if contains c s then match c opened else separate plain)
        else if c == semicolon
        then separate plain
        else match c plain)
unfolding Whole
unquoted_Whole c s (p', ps') (p, ps) (h', hs') (h, hs) = elim (Bool-cases (is_quote c)) [
  | inl e ↦ elim (Bool-cases (contains c s)) [
    | inl k ↦ rw (e, k) (opened_Whole c s p' e (h' k), hs')
    | inr k ↦ rw (e, k) (unfold balanced in refl, (h, hs))
  ]
  | inr e ↦ elim (Bool-cases (c == semicolon)) [
    | inl k ↦ rw (e, k) (unfold balanced in refl, (h, hs))
    | inr k ↦ rw (e, k) (plain_Whole c p e k h, hs)
  ]
]

pieces-Whole : (mark : Option ℕ) (s : List ℕ) → Whole mark s (pieces mark s)
unfolding Whole pieces balanced contains
pieces-Whole none [] = (refl, _)
pieces-Whole (some q) [] = (λ h. h, _)
pieces-Whole none (c ∷ s) = unquoted_Whole c s _ _ (pieces-Whole (some c) s) (pieces-Whole none s)
pieces-Whole (some q) (c ∷ s) =
    quoted_Whole q c s _ _ (pieces-Whole none s) (pieces-Whole (some q) s)

filter-IsStatement :
    (ps : List (List ℕ))
    → All (λ x. balanced none x ≡ true) ps
    → All IsStatement (filter is_matched ps)
unfolding IsStatement
filter-IsStatement [] h = _
filter-IsStatement ([] ∷ ps) (b, h) = filter-IsStatement ps h
filter-IsStatement ((c ∷ s) ∷ ps) (b, h) = ((b, refl), filter-IsStatement ps h)

-- Whatever the text, each statement that `split_sql` returns has a character, has its quotes
-- closed, and has no `;` outside them.
pub split_sql-IsStatement : (sql : List ℕ) → All IsStatement (split_sql sql)
unfolding split_sql Whole
split_sql-IsStatement sql =
    let whole : Whole none sql (pieces none sql) = pieces-Whole none sql in
    filter-IsStatement ((pieces none sql).0 ∷ (pieces none sql).1) whole
