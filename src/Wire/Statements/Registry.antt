-- ===== src/Wire/Statements/Registry.antt =====
-- session_controller.py: which identifier a prepared statement gets.
use native.Mathlib.Decide.{dec_lt}
use mindsdb.Common.{
  ℕ, zero, suc, ◌+◌, ◌≤◌, ◌<◌, ◌≡◌, ◌≢◌, ◌↔◌, inl, inr, refl, true, false, none, some, arith,
  lt→ltb, ◌==◌, if◌then◌else◌, Bool-cases, ok, err, too_many_unclosed_queries,
}
use mindsdb.Common.Dict.{Dict, lookup, lookup-insert}
use mindsdb.Wire.Statements.{contains, free_id, register_stmt}

module _ {V : Type 0} (d : Dict V) where
  lookup_of_free : (i : ℕ) → contains i d ≡ false → lookup i d ≡ none
  unfolding contains
  lookup_of_free i h = ground arith

  lookup_of_taken : (i : ℕ) → contains i d ≡ true → lookup i d ≢ none
  unfolding contains
  lookup_of_taken i h = ground arith

  record Scan (i r : ℕ) : Type 0 where
    from : i ≤ r
    upto : r ≤ 100
    free : r < 100 → contains r d ≡ false
    taken : (j : ℕ) → i ≤ j → j < r → contains j d ≡ true

  step : {r : ℕ} (i : ℕ) → contains i d ≡ true → Scan (i + 1) r → Scan i r
  step i c s = record {
    from = omega arith;
    upto = s.upto;
    free = s.free;
    taken = λ j a b. elim (dec_lt i j) [
      | yes p ↦ s.taken j (omega arith) b
      | no p ↦ let e : j ≡ i = omega arith in rw e c
    ];
  }

  free_id-Scan : (rounds i : ℕ) → i + rounds ≡ 100 → Scan i (free_id rounds i d)
  unfolding free_id
  free_id-Scan zero i e = record {
    from = omega arith;
    upto = omega arith;
    free = λ h. absurd (omega arith);
    taken = λ j a b. absurd (omega arith);
  }
  free_id-Scan (suc rounds) i e = elim (Bool-cases (contains i d)) [
    | inl c ↦
        rw (c, lt→ltb i 100 (omega arith)) (step i c (free_id-Scan rounds (i + 1) (omega arith)))
    | inr c ↦ rw c (record {
      from = omega arith;
      upto = omega arith;
      free = λ h. c;
      taken = λ j a b. absurd (omega arith);
    })
  ]

module _ {V : Type 0} (v : V) (d : Dict V) where
  -- A statement is registered under an identifier from 1 to 99 that was not in use, and the entries
  -- of all other identifiers stay as they were.
  pub register_stmt-fresh :
      {i : ℕ} {d' : Dict V}
      → register_stmt v d ≡ ok (i, d')
      → (1 ≤ i)
        × (i < 100)
        × (lookup i d ≡ none)
        × ((j : ℕ) → lookup j d' ≡ (if i == j then some v else lookup j d))
  unfolding register_stmt
  register_stmt-fresh h = grind (arith, free_id-Scan d 99 1 refl, lookup_of_free d, lookup-insert)

  -- Registering fails exactly when all identifiers from 1 to 99 are in use.
  register_stmt_full :
      (register_stmt v d ≡ err too_many_unclosed_queries)
      ↔ ((i : ℕ) → 1 ≤ i → i < 100 → lookup i d ≢ none)
  unfolding register_stmt
  register_stmt_full =
      let scan = free_id-Scan d 99 1 refl in
      (
        λ h i a b.
            let e : free_id 99 1 d ≡ 100 = ground arith in
            lookup_of_taken d i (scan.taken i a (omega arith)),
        λ h. elim (dec_lt (free_id 99 1 d) 100) [
          | yes p ↦ absurd (h (free_id 99 1 d) scan.from p (lookup_of_free d _ (scan.free p)))
          | no p ↦ let e : free_id 99 1 d ≡ 100 = omega (arith, scan.upto) in rw e
        ],
      )
