-- ===== src/Jobs/Locks/Exclusion.antt =====
-- `lock_record` of jobs_controller.py: a run that is locked.
use mindsdb.Common.{
  Result, ℕ, suc, ◌+◌, ◌*◌, ◌≡◌, ◌≢◌, refl, sym, ap, Bool, true, false, ◌&&◌, Option, none, some,
  List, [], ◌∷◌, ◌++◌, arith, ltb, ◌==◌, ==_refl, if◌then◌else◌, Bool-cases, Option-cases, inl, inr,
  find?, ok,
}
use mindsdb.Jobs.Schedule.{DateTime, second}
use mindsdb.Jobs.Store.{
  equals_refl, Job, JobsHistory, Db, get_job, delete_history, greatest, same_run, is_run,
  sql_equals, equals, with_history,
}
use mindsdb.Jobs.Locks.{
  new_history, insert_history, is_old, drop_old, lock_run, lock_found, lock_record,
}

find?_append {ℓ} :
    {A : Type ℓ} (p : A → Bool) (xs ys : List A)
    → find? p xs ≡ none
    → find? p (xs ++ ys) ≡ find? p ys
find?_append p [] ys h = refl
find?_append p (x ∷ xs) ys h = elim (Bool-cases (p x)) [
  | inl e ↦ (let h' = rw e at h in ground arith)
  | inr e ↦ rw e (find?_append p xs ys (rw e at h))
]

is_run_false :
    (b : Bool) (o : Option DateTime) (t : DateTime) (c : Bool)
    → (b && sql_equals o (some t)) ≡ false
    → (b && (equals o (some t) && c)) ≡ false
is_run_false true none t c h = refl
is_run_false true (some u) t c h = rw h refl
is_run_false false o t c h = refl

is_run-none :
    (i : ℕ) (t : DateTime) (company : Option ℕ) (hs : List JobsHistory)
    → find? (same_run i (some t)) hs ≡ none
    → find? (is_run i (some t) company) hs ≡ none
is_run-none i t company [] h = refl
is_run-none i t company (x ∷ xs) h =
    let rest : find? (same_run i (some t)) xs ≡ none → find? (is_run i (some t) company) xs ≡ none =
      is_run-none i t company xs in
    elim (Bool-cases (same_run i (some t) x)) [
      | inl e ↦ (let h' = rw e at h in ground arith)
      | inr e ↦
          rw (is_run_false (x.job_id == i) x.start_at t (equals x.company_id company) e)
            (rest (rw e at h))
    ]

module _ (now : DateTime) (j : Job) (t : DateTime) (run : Option DateTime) (r : run ≡ some t)
    (hs : List JobsHistory) where
  abbrev lock : JobsHistory
  lock = new_history now j run hs

  lock_run_free :
      find? (same_run j.id run) hs ≡ none
      → lock_run now j run hs ≡ (ok (some (suc (greatest hs))), hs ++ (lock ∷ []))
  unfolding lock_run insert_history
  lock_run_free n = rw (n, lock_run) refl

  lock_run_taken :
      (i : ℕ) (h : JobsHistory)
      → find? (same_run j.id run) hs ≡ some h
      → (lock_run now j run hs).0 ≢ ok (some i)
  unfolding lock_run insert_history drop_old
  lock_run_taken i h n =
      rw (n, lock_run)
        (elim (Option-cases (find? (is_run j.id run j.company_id) hs)) [
          | inl e ↦ rw e (λ q. ground arith)
          | inr (k, e) ↦ rw e (λ q. ground arith)
        ])

  same_run-lock : find? (same_run j.id run) (lock ∷ []) ≡ some lock
  same_run-lock = rw (r, ==_refl j.id, ==_refl t) refl

  is_run-lock : find? (is_run j.id run j.company_id) (lock ∷ []) ≡ some lock
  is_run-lock = rw (r, ==_refl j.id, ==_refl t, equals_refl j.company_id) refl

  no_run : find? (same_run j.id run) hs ≡ none → find? (is_run j.id run j.company_id) hs ≡ none
  no_run n = rw r (is_run-none j.id t j.company_id hs (rw r at n))

  lock_run_again :
      (now' : DateTime)
      → find? (same_run j.id run) hs ≡ none
      → lock_run now' j run (hs ++ (lock ∷ [])) ≡ (
        ok none,
        (if is_old now' lock
            then delete_history lock.id (hs ++ (lock ∷ []))
            else hs ++ (lock ∷ [])),
      )
  unfolding lock_run insert_history drop_old
  lock_run_again now' n =
      rw
        (
          find?_append (same_run j.id run) hs (lock ∷ []) n,
          lock_run,
          same_run-lock,
          find?_append (is_run j.id run j.company_id) hs (lock ∷ []) (no_run n),
          is_run-lock,
        )
        refl

module _ (now now' : DateTime) (record_id i : ℕ) (db db' : Db) (j : Job) (t : DateTime) where
  -- When a run of a job is locked, whoever locks it next gets nothing. The lock stays if it is not
  -- older than 30 seconds, and is deleted else.
  pub lock_record_again :
      get_job record_id db ≡ some j
      → j.next_run_at ≡ some t
      → lock_record now record_id db ≡ (ok (some i), db')
      → lock_record now' record_id db' ≡ (
        ok none,
        with_history
            (if ltb (now + 30 * second) now' then delete_history i db'.history else db'.history)
            db',
      )
  unfolding lock_record lock_found
  lock_record_again g r e =
      let run = j.next_run_at in
      let hs = db.history in
      elim (Option-cases (find? (same_run j.id run) hs)) [
        | inl n ↦
            (let locked : Result (Option ℕ) × Db = (
              ok (some (suc (greatest hs))),
              with_history (hs ++ (lock now j t run r hs ∷ [])) db,
            ) in
              let done : locked ≡ (ok (some i), db') =
                rw (g, lock_run_free now j t run r hs n) at e in
              let k : with_history (hs ++ (lock now j t run r hs ∷ [])) db ≡ db' = cc in
              let m : suc (greatest hs) ≡ i = cc in
              rw (sym k, sym m, g, lock_run_again now j t run r hs now' n) refl)
        | inr (h, n) ↦
            (let failed = lock_run_taken now j t run r hs i h n in
              let e' : ((lock_run now j run hs).0, with_history (lock_run now j run hs).1 db)
                  ≡ (ok (some i), db') =
                rw g at e in
              elim (failed (ap (λ x. x.0) e')) [ ])
      ]
