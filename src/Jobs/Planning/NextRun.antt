-- ===== src/Jobs/Planning/NextRun.antt =====
-- `update_task_schedule` of jobs_controller.py: a job is not due again at once.
use mindsdb.Common.{
  ℕ, ◌+◌, ◌≤◌, ◌<◌, ◌≡◌, refl, sym, true, false, ◌&&◌, Option, none, some, List, arith, ltb,
  Bool-cases, inl, inr, ok, ok_of_bind, ◌==◌,
}
use mindsdb.Jobs.Schedule.{DateTime, calc_next_date}
use mindsdb.Jobs.Store.{Job, with_next_run_at}
use mindsdb.Jobs.Planning.{
  Config, is_due, past_end, plan, after_run, due_run, delete_record, update_task_schedule,
}

-- A clock does not go back.
abbrev pub IsClock : (ℕ → DateTime) → Type 0
IsClock now = (i : ℕ) → now i ≤ now (i + 1)

pub IsClock-later : (now : ℕ → DateTime) → IsClock now → IsClock (λ k. now (k + 1))
IsClock-later now c i = c (i + 1)

module _ (cfg : Config) (user_class : ℕ) (now : ℕ → DateTime) where
  plan_not_due :
      (c : IsClock now) (next_run_at : DateTime) (j : Job)
      → is_due (now 0) (plan now next_run_at j) ≡ false
  unfolding plan
  plan_not_due c next_run_at j =
      let m = c 0 in
      elim (Bool-cases (past_end next_run_at j.end_at)) [
        | inl e ↦ rw e (grind arith)
        | inr e ↦ rw e (grind arith)
      ]

  after_run_not_due :
      (c : IsClock now) (run_at : DateTime) (j j' : Job) (s : Option (List ℕ))
      → after_run cfg user_class now run_at j s ≡ ok j'
      → is_due (now 0) j' ≡ false
  unfolding after_run
  after_run_not_due c run_at j j' none h =
      let e : delete_record (now 1) j ≡ j' = cc in rw (sym e) (grind arith)
  after_run_not_due c run_at j j' (some s) h =
      let (next_run_at, _, h') =
        ok_of_bind (calc_next_date cfg.dateutil (cfg.cloud && (user_class == 0)) s run_at) _ j' h in
      let e : plan now next_run_at j ≡ j' = cc in rw (sym e) (plan_not_due c next_run_at j)

  due_run_not_due :
      (c : IsClock now) (j j' : Job) (run : Option DateTime)
      → j.next_run_at ≡ run
      → due_run cfg user_class now j run ≡ ok j'
      → is_due (now 0) j' ≡ false
  unfolding due_run
  due_run_not_due c j j' none e h = ground arith
  due_run_not_due c j j' (some t) e h = elim (Bool-cases (ltb (now 0) t)) [
    | inl l ↦ let k : j ≡ j' = (let h' = rw l at h in cc) in rw (sym k, e) (grind arith)
    | inr l ↦ after_run_not_due c t j j' j.schedule_str (rw l at h)
  ]

  -- After its schedule is updated, by a clock that does not go back, a job is not due at the time
  -- when the update began: it is deleted, or its next run is not before that time.
  pub update_task_schedule_not_due :
      (j j' : Job)
      → IsClock now
      → update_task_schedule cfg user_class now j ≡ ok j'
      → is_due (now 0) j' ≡ false
  unfolding update_task_schedule
  update_task_schedule_not_due j j' c h = due_run_not_due c j j' j.next_run_at refl h

  -- A job that is due, by a clock that does not go back, with an end date that the next run of its
  -- schedule does not pass, and that has passed when the update looks, is not deleted: its next run
  -- is now, after its end date.
  pub update_task_schedule_late :
      (j : Job) (run_at next_run_at end_at : DateTime) (s : List ℕ)
      → IsClock now
      → j.next_run_at ≡ some run_at
      → j.schedule_str ≡ some s
      → j.end_at ≡ some end_at
      → run_at ≤ now 0
      → calc_next_date cfg.dateutil (cfg.cloud && (user_class == 0)) s run_at ≡ ok next_run_at
      → next_run_at ≤ end_at
      → end_at < now 1
      → (update_task_schedule cfg user_class now j ≡ ok (with_next_run_at (some (now 2)) j))
        × (end_at < now 2)
  unfolding update_task_schedule due_run after_run plan past_end
  update_task_schedule_late j run_at next_run_at end_at s c r e n l d a b =
      let m : now 1 ≤ now 2 = c 1 in
      let due : ltb (now 0) run_at ≡ false = ground arith in
      let inside : ltb end_at next_run_at ≡ false = ground arith in
      let missed : ltb next_run_at (now 1) ≡ true = ground arith in
      (rw (r, due, e, d, n, inside, missed) refl, omega arith)

  -- A job keeps its identifier.
  pub update_task_schedule_id :
      (j j' : Job) → update_task_schedule cfg user_class now j ≡ ok j' → j'.id ≡ j.id
  unfolding update_task_schedule due_run after_run plan
  update_task_schedule_id j j' h = ground arith
