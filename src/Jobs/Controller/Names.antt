-- ===== src/Jobs/Controller/Names.antt =====
-- `JobsController` of jobs_controller.py: a name stands for one live job of a project.
use mindsdb.Common.{
  ℕ, suc, ◌+◌, ◌≤◌, ◌<◌, ◌≡◌, refl, sym, ap, ◌∙◌, Bool, true, false, ◌&&◌, Option, none, some, List,
  [], ◌∷◌, ◌++◌, arith, ◌==◌, ==_refl, if◌then◌else◌, Bool-cases, Option-cases, inl, inr, find?,
  codes, Result, ok, ok_of_bind,
}
use mindsdb.Jobs.Schedule.{DateTime, same}
use mindsdb.Jobs.Schedule.Periods.{same_lem}
use mindsdb.Jobs.Store.{equals_refl, Job, Db, equals, set_row, set_job}
use mindsdb.Jobs.Planning.{Config, delete_record}
use mindsdb.Jobs.Controller.Added.{new_job-IsMade}
use mindsdb.Jobs.Controller.{
  Context, is_live, find_project, new_job, greatest_job, Request, add_to, add, delete_found, delete,
}

-- how many rows a test holds of
abbrev pub count {ℓ} : {A : Type ℓ} → (A → Bool) → List A → ℕ
count p [] = 0
count p (x ∷ xs) = let rest = count p xs in if p x then suc rest else rest

-- In each project of a company, a name stands for one live job at most.
abbrev pub HasUniqueNames : List Job → Type 0
HasUniqueNames js =
    (company_id : Option ℕ) (name : List ℕ) (project_id : ℕ)
    → count (is_live company_id name project_id) js ≤ 1

module _ {ℓ} {A : Type ℓ} (p : A → Bool) where
  count_none : (xs : List A) → find? p xs ≡ none → count p xs ≡ 0
  count_none [] h = refl
  count_none (x ∷ xs) h = elim (Bool-cases (p x)) [
    | inl e ↦ (let h' = rw e at h in ground arith)
    | inr e ↦ rw e (count_none xs (rw e at h))
  ]

  find?-of_count : (xs : List A) → count p xs ≡ 0 → find? p xs ≡ none
  find?-of_count [] h = refl
  find?-of_count (x ∷ xs) h = elim (Bool-cases (p x)) [
    | inl e ↦ (let h' = rw e at h in ground arith)
    | inr e ↦ rw e (find?-of_count xs (rw e at h))
  ]

  count-append : (xs ys : List A) → count p (xs ++ ys) ≡ count p xs + count p ys
  count-append [] ys = omega arith
  count-append (x ∷ xs) ys =
      let rest = count-append xs ys in
      elim (Bool-cases (p x)) [ inl e ↦ rw e (omega arith) | inr e ↦ rw e rest ]

  -- A row is changed to one of which the test does not hold.
  module _ (id : A → ℕ) (new : A) (off : p new ≡ false) where
    count-set_row : (xs : List A) → count p (set_row id new xs) ≤ count p xs
    count-set_row [] = omega arith
    count-set_row (x ∷ xs) =
        let rest = count-set_row xs in
        elim (Bool-cases (id x == id new)) [
          | inl e ↦ elim (Bool-cases (p x)) [
            | inl k ↦ rw (e, off, k) (omega arith)
            | inr k ↦ rw (e, off, k) rest
          ]
          | inr e ↦ elim (Bool-cases (p x)) [
            | inl k ↦ rw (e, k) (omega arith)
            | inr k ↦ rw (e, k) rest
          ]
        ]

    count-set_row_found :
        (xs : List A) (a : A)
        → find? p xs ≡ some a
        → id new ≡ id a
        → count p (set_row id new xs) < count p xs
    count-set_row_found [] a h e = ground arith
    count-set_row_found (x ∷ xs) a h e =
        let rest = count-set_row xs in
        elim (Bool-cases (p x)) [
          | inl k ↦
              (let x_a : x ≡ a = (let h' = rw k at h in cc) in
                let here : (id x == id new) ≡ true = rw (e, ap id x_a) (==_refl (id a)) in
                rw (here, off, k) (omega arith))
          | inr k ↦
              (let later = count-set_row_found xs a (rw k at h) e in
                elim (Bool-cases (id x == id new)) [
                  | inl m ↦ rw (m, off, k) later
                  | inr m ↦ rw (m, k) later
                ])
        ]

equals_lem : (a b c : Option ℕ) → equals a b ≡ true → equals a c ≡ true → b ≡ c
equals_lem none none none h k = refl
equals_lem none none (some z) h k = ground arith
equals_lem none (some y) c h k = ground arith
equals_lem (some x) none c h k = ground arith
equals_lem (some x) (some y) none h k = ground arith
equals_lem (some x) (some y) (some z) h k = ground arith

and_both : (a b : Bool) → (a && b) ≡ true → (a ≡ true) × (b ≡ true)
and_both a b h = ground arith

-- The job is found under one name.
is_live-one :
    (c c' : Option ℕ) (n n' : List ℕ) (i i' : ℕ) (j : Job)
    → is_live c n i j ≡ true
    → is_live c' n' i' j ≡ true
    → (c ≡ c') × (n ≡ n') × (i ≡ i')
is_live-one c c' n n' i i' j h h' =
    let (a, r) = and_both (equals j.company_id c) _ h in
    let (b, s) = and_both (same j.name n) _ r in
    let (d, _) = and_both (j.project_id == i) _ s in
    let (a', r') = and_both (equals j.company_id c') _ h' in
    let (b', s') = and_both (same j.name n') _ r' in
    let (d', _) = and_both (j.project_id == i') _ s' in
    (
      equals_lem j.company_id c c' a a',
      sym (same_lem j.name n b) ∙ same_lem j.name n' b',
      ground arith,
    )

append-HasUniqueNames :
    (c : Option ℕ) (n : List ℕ) (i : ℕ) (j : Job) (js : List Job)
    → is_live c n i j ≡ true
    → find? (is_live c n i) js ≡ none
    → HasUniqueNames js
    → HasUniqueNames (js ++ (j ∷ []))
append-HasUniqueNames c n i j js l f u c' n' i' =
    let both = count-append (is_live c' n' i') js (j ∷ []) in
    elim (Bool-cases (is_live c' n' i' j)) [
      | inl e ↦
          (let (ec, en, ei) = is_live-one c c' n n' i i' j l e in
            let none_before : count (is_live c' n' i') js ≡ 0 =
              rw (sym ec, sym en, sym ei) (count_none (is_live c n i) js f) in
            let one : count (is_live c' n' i') (j ∷ []) ≡ 1 = rw e refl in omega arith)
      | inr e ↦
          (let none_here : count (is_live c' n' i') (j ∷ []) ≡ 0 = rw e refl in
            let before = u c' n' i' in omega arith)
    ]

same_refl : (s : List ℕ) → same s s ≡ true
same_refl [] = refl
same_refl (x ∷ s) = rw (==_refl x) (same_refl s)

not_live :
    (c : Option ℕ) (n : List ℕ) (i : ℕ) (t : DateTime) (j : Job)
    → is_live c n i (delete_record t j) ≡ false
not_live c n i t j = ground arith

module _ (cfg : Config) (parse_sql : List ℕ → Result (Unit {0})) (ctx : Context)
    (now : ℕ → DateTime) where
  new_job-is_live :
      (r : Request) (id project_id : ℕ) (j : Job)
      → new_job cfg parse_sql ctx now r id project_id ≡ ok j
      → is_live ctx.company_id r.name project_id j ≡ true
  new_job-is_live r id project_id j h =
      let w = new_job-IsMade cfg parse_sql ctx now r id project_id j h in
      rw (sym w.made, equals_refl ctx.company_id, same_refl r.name, ==_refl project_id) refl

  add_to-HasUniqueNames :
      (r : Request) (project_id : ℕ) (db db' : Db)
      → add_to cfg parse_sql ctx now r project_id db ≡ ok db'
      → HasUniqueNames db.jobs
      → HasUniqueNames db'.jobs
  unfolding add_to
  add_to-HasUniqueNames r project_id db db' h u =
      elim (Option-cases (find? (is_live ctx.company_id r.name project_id) db.jobs)) [
        | inl f ↦
            (let h' = rw (f, add_to) at h in
              let (j, n, e) =
                ok_of_bind (new_job cfg parse_sql ctx now r (suc (greatest_job db.jobs)) project_id)
                  _ db' h' in
              let k : db.jobs ++ (j ∷ []) ≡ db'.jobs = cc in
              rw (sym k) (
                append-HasUniqueNames ctx.company_id r.name project_id j db.jobs
                  (new_job-is_live r (suc (greatest_job db.jobs)) project_id j n) f u))
        | inr (j, f) ↦ (let h' = rw (f, add_to) at h in ground arith)
      ]

  -- Adding a job keeps the names unique: in each project of a company, a name stands for one live
  -- job at most.
  pub add-HasUniqueNames :
      (r : Request) (project_name : Option (List ℕ)) (db db' : Db)
      → add cfg parse_sql ctx now r project_name db ≡ ok db'
      → HasUniqueNames db.jobs
      → HasUniqueNames db'.jobs
  unfolding add
  add-HasUniqueNames r project_name db db' h u =
      let (project_id, _, k) =
        ok_of_bind
          (find_project ctx (some (elim project_name [ none ↦ codes "mindsdb" | some n ↦ n ])) db) _
          db' h in
      add_to-HasUniqueNames r project_id db db' k u

module _ (ctx : Context) (now : ℕ → DateTime) where
  delete_found_lem :
      (name : List ℕ) (project_id : ℕ) (db db' : Db)
      → delete_found ctx now (find? (is_live ctx.company_id name project_id) db.jobs) db ≡ ok db'
      → HasUniqueNames db.jobs
      → HasUniqueNames db'.jobs × (find? (is_live ctx.company_id name project_id) db'.jobs ≡ none)
  unfolding delete_found
  delete_found_lem name project_id db db' h u =
      elim (Option-cases (find? (is_live ctx.company_id name project_id) db.jobs)) [
        | inl f ↦ (let h' = rw (f, delete_found) at h in ground arith)
        | inr (j, f) ↦
            (let h' = rw (f, delete_found) at h in
              let gone = delete_record (now 0) j in
              let k : set_job gone db.jobs ≡ db'.jobs = cc in
              let fewer =
                count-set_row_found (is_live ctx.company_id name project_id) (λ x. x.id) gone
                  (not_live ctx.company_id name project_id (now 0) j) db.jobs j f refl in
              let one = u ctx.company_id name project_id in
              let zero_left : count (is_live ctx.company_id name project_id) (set_job gone db.jobs)
                  ≡ 0 =
                omega arith in
              rw (sym k) (
                λ c n i.
                    (let less =
                        count-set_row (is_live c n i) (λ x. x.id) gone (not_live c n i (now 0) j)
                          db.jobs in
                      let before = u c n i in omega arith),
                find?-of_count (is_live ctx.company_id name project_id) (set_job gone db.jobs)
                    zero_left,
              ))
      ]

  -- Where names are unique and a job was deleted by its name, the names stay unique, and no live
  -- job of that name is left in the project.
  pub delete_lem :
      (name : List ℕ) (project_name : Option (List ℕ)) (db db' : Db) (project_id : ℕ)
      → find_project ctx project_name db ≡ ok project_id
      → delete ctx now name project_name db ≡ ok db'
      → HasUniqueNames db.jobs
      → HasUniqueNames db'.jobs × (find? (is_live ctx.company_id name project_id) db'.jobs ≡ none)
  unfolding delete
  delete_lem name project_name db db' project_id p h u =
      delete_found_lem name project_id db db' (rw p at h) u
