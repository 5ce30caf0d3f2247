-- ===== src/Jobs/Controller/Added.antt =====
-- `JobsController.add` of jobs_controller.py: what is stored of a job that was added.
use mindsdb.Common.{
  ℕ, suc, ◌≤◌, ◌≡◌, refl, sym, ◌&&◌, Option, none, some, List, [], ◌∷◌, ◌++◌, arith, ◌==◌,
  Option-cases, find?, inl, inr, codes, Result, ok, ok_of_bind,
}
use mindsdb.Jobs.Split.{split_sql}
use mindsdb.Jobs.Schedule.{DateTime, calc_next_date}
use mindsdb.Jobs.Dates.{parse_date}
use mindsdb.Jobs.Store.{Job, Db}
use mindsdb.Jobs.Planning.{Config}
use mindsdb.Jobs.Planning.NextRun.{IsClock}
use mindsdb.Jobs.Controller.{
  Context, start_date, end_date, schedule_of, check_sql, row, new_job, Request, add_to, add,
  is_live, find_project, greatest_job,
}

start_date-le :
    (now : ℕ → DateTime) (text : Option (List ℕ)) (t : DateTime)
    → IsClock now
    → start_date now text ≡ ok t
    → now 0 ≤ t
unfolding start_date
start_date-le now none t c h = ground arith
start_date-le now (some text) t c h =
    let (u, _, e) = ok_of_bind (parse_date (now 0) text) _ t h in
    let a : now 0 ≤ now 1 = c 0 in let b : now 1 ≤ now 2 = c 1 in ground arith

-- an end, if there is one, is not before the start
abbrev pub IsAfter : DateTime → Option DateTime → Type 0
IsAfter start_at none = Unit {0}
IsAfter start_at (some t) = start_at ≤ t

end_date-IsAfter :
    (now : ℕ → DateTime) (start_at : DateTime) (text : Option (List ℕ)) (end_at : Option DateTime)
    → end_date now start_at text ≡ ok end_at
    → IsAfter start_at end_at
unfolding end_date
end_date-IsAfter now start_at none none h = _
end_date-IsAfter now start_at none (some t) h = ground arith
end_date-IsAfter now start_at (some text) none h = _
end_date-IsAfter now start_at (some text) (some t) h =
    let (u, _, e) = ok_of_bind (parse_date (now 3) text) _ (some t) h in ground arith

-- What `schedule_of` leaves of a schedule and an end.
record IsScheduled (cfg : Config) (ctx : Context) (start_at : DateTime) (end_at : Option DateTime)
    (s : Option (List ℕ)) : Type 0 where
  ends : IsAfter start_at end_at
  readable :
      (x : List ℕ)
      → s ≡ some x
      → (t : DateTime) × (calc_next_date cfg.dateutil
            (cfg.cloud && (ctx.user_class == 0))
            x
            start_at
          ≡ ok t)
  once : s ≡ none → end_at ≡ none

schedule_of-IsScheduled :
    (cfg : Config) (ctx : Context) (start_at : DateTime) (end_at end_at' : Option DateTime)
    (repeat s : Option (List ℕ))
    → IsAfter start_at end_at
    → schedule_of cfg ctx start_at end_at repeat ≡ ok (s, end_at')
    → IsScheduled cfg ctx start_at end_at' s
unfolding schedule_of
schedule_of-IsScheduled cfg ctx start_at end_at end_at' none s a h =
    let e : none ≡ end_at' = cc in
    let k : none ≡ s = cc in
    rw (sym e, sym k) (record { ends = _; readable = λ x q. ground arith; once = λ q. refl })
schedule_of-IsScheduled cfg ctx start_at end_at end_at' (some text) s a h =
    let (t, c, q) =
      ok_of_bind
        (calc_next_date cfg.dateutil (cfg.cloud && (ctx.user_class == 0)) (codes "every " ++ text)
          start_at)
        _ (s, end_at') h in
    let e : end_at ≡ end_at' = cc in
    let k : some (codes "every " ++ text) ≡ s = cc in
    rw (sym e, sym k)
      (record {
        ends = a;
        readable = λ x q. (t, (let m : codes "every " ++ text ≡ x = cc in rw (sym m) c));
        once = λ q. ground arith;
      })

-- A job that can run: it is due at its start, ends after it if at all, and its schedule, if it has one,
-- has a next run. A job without a schedule has no end.
pub record IsRunnable (cfg : Config) (ctx : Context) (j : Job) : Type 0 where
  pub first_run : j.next_run_at ≡ some j.start_at
  pub ends : IsAfter j.start_at j.end_at
  pub not_deleted : j.deleted_at ≡ none
  pub readable :
      (s : List ℕ)
      → j.schedule_str ≡ some s
      → (t : DateTime) × (calc_next_date cfg.dateutil
            (cfg.cloud && (ctx.user_class == 0))
            s
            j.start_at
          ≡ ok t)
  pub once : j.schedule_str ≡ none → j.end_at ≡ none

module _ (cfg : Config) (parse_sql : List ℕ → Result (Unit {0})) (ctx : Context)
    (now : ℕ → DateTime) where
  -- What a new job was made from.
  pub record IsMade (r : Request) (id project_id : ℕ) (j : Job) : Type 0 where
    pub start_at : DateTime
    pub end_at : Option DateTime
    pub planned_end : Option DateTime
    pub schedule_str : Option (List ℕ)
    pub starts : start_date now r.start_at ≡ ok start_at
    pub ends : end_date now start_at r.end_at ≡ ok end_at
    pub parsed : check_sql parse_sql (split_sql r.query_str) ≡ ok tt
    pub scheduled :
        schedule_of cfg ctx start_at end_at r.repeat_str ≡ ok (schedule_str, planned_end)
    pub made : row cfg parse_sql ctx now r id project_id start_at planned_end schedule_str ≡ j

  pub new_job-IsMade :
      (r : Request) (id project_id : ℕ) (j : Job)
      → new_job cfg parse_sql ctx now r id project_id ≡ ok j
      → IsMade r id project_id j
  unfolding new_job
  new_job-IsMade r id project_id j h =
      let (start_at, s, h1) = ok_of_bind (start_date now r.start_at) _ j h in
      let (end_at, e, h2) = ok_of_bind (end_date now start_at r.end_at) _ j h1 in
      let (_, p, h3) = ok_of_bind (check_sql parse_sql (split_sql r.query_str)) _ j h2 in
      let (pair, q, h4) = ok_of_bind (schedule_of cfg ctx start_at end_at r.repeat_str) _ j h3 in
      record {
        start_at = start_at;
        end_at = end_at;
        planned_end = pair.1;
        schedule_str = pair.0;
        starts = s;
        ends = e;
        parsed = p;
        scheduled = q;
        made = cc;
      }

  new_job-IsRunnable :
      (r : Request) (id project_id : ℕ) (j : Job)
      → IsClock now
      → new_job cfg parse_sql ctx now r id project_id ≡ ok j
      → IsRunnable cfg ctx j × (now 0 ≤ j.start_at)
  new_job-IsRunnable r id project_id j c h =
      let w = new_job-IsMade r id project_id j h in
      let ends = end_date-IsAfter now w.start_at r.end_at w.end_at w.ends in
      let planned =
        schedule_of-IsScheduled cfg ctx w.start_at w.end_at w.planned_end r.repeat_str
          w.schedule_str ends w.scheduled in
      rw (sym w.made) (
        record {
          first_run = refl;
          ends = planned.ends;
          not_deleted = refl;
          readable = planned.readable;
          once = planned.once;
        },
        start_date-le now r.start_at w.start_at c w.starts,
      )

  add_to_lem :
      (r : Request) (project_id : ℕ) (db db' : Db)
      → IsClock now
      → add_to cfg parse_sql ctx now r project_id db ≡ ok db'
      → (j : Job) × (db'.jobs ≡ db.jobs ++ (j ∷ [])) × IsRunnable cfg ctx j × (now 0 ≤ j.start_at)
  unfolding add_to
  add_to_lem r project_id db db' c h =
      elim (Option-cases (find? (is_live ctx.company_id r.name project_id) db.jobs)) [
        | inl f ↦
            (let h' = rw (f, add_to) at h in
              let id = suc (greatest_job db.jobs) in
              let (j, n, e) = ok_of_bind (new_job cfg parse_sql ctx now r id project_id) _ db' h' in
              let k : db'.jobs ≡ db.jobs ++ (j ∷ []) = cc in
              let (runnable, late) = new_job-IsRunnable r id project_id j c n in
              (j, k, runnable, late))
        | inr (j, f) ↦ (let h' = rw (f, add_to) at h in ground arith)
      ]

  -- Adding a job, by a clock that does not go back, adds one row to the table, and its job can run:
  -- it is due at its start, which is no earlier than the call, does not end before that, and
  -- `calc_next_date` finds a next run for it if it has a schedule.
  pub add_lem :
      (r : Request) (project_name : Option (List ℕ)) (db db' : Db)
      → IsClock now
      → add cfg parse_sql ctx now r project_name db ≡ ok db'
      → (j : Job) × (db'.jobs ≡ db.jobs ++ (j ∷ [])) × IsRunnable cfg ctx j × (now 0 ≤ j.start_at)
  unfolding add
  add_lem r project_name db db' c h =
      let (project_id, _, k) =
        ok_of_bind
          (find_project ctx (some (elim project_name [ none ↦ codes "mindsdb" | some n ↦ n ])) db) _
          db' h in
      add_to_lem r project_id db db' c k
