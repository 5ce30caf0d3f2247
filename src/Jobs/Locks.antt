-- ===== src/Jobs/Locks.antt =====
-- `lock_record` of mindsdb/interfaces/jobs/jobs_controller.py, and the heartbeat of `execute_task` of
-- mindsdb/interfaces/jobs/scheduler.py: a row of the history is the lock on one run of a job. The proofs
-- are in the modules below.
pub mod Exclusion
use mindsdb.Common.{
  ℕ, suc, ◌+◌, ◌*◌, Bool, true, false, Option, none, some, List, [], ◌∷◌, ◌++◌, ltb, if◌then◌else◌,
  filter, find?, Result, ok, err, attribute_error, integrity_error, ◌>>=◌,
}
use mindsdb.Jobs.Schedule.{DateTime, second}
use mindsdb.Jobs.Store.{
  Job, JobsHistory, Db, get_job, get_history, set_history, delete_history, greatest, same_run,
  is_run, with_history, with_updated_at, is_null,
}

abbrev pub new_history : DateTime → Job → Option DateTime → List JobsHistory → JobsHistory
new_history now j start_at hs = record {
  id = suc (greatest hs);
  company_id = j.company_id;
  job_id = j.id;
  query_str = none;
  start_at = start_at;
  end_at = none;
  error = none;
  updated_at = now;
}

-- `session.add(record); session.commit()`, with the row's identifier
pub insert_history :
    DateTime → Job → Option DateTime → List JobsHistory → Result (ℕ × List JobsHistory)
insert_history now j start_at hs = elim (find? (same_run j.id start_at) hs) [
  | none ↦ ok (suc (greatest hs), hs ++ (new_history now j start_at hs ∷ []))
  | some h ↦ err integrity_error
]

abbrev pub Locking : Type 0
Locking = Result (Option ℕ) × List JobsHistory

-- a lock that was not updated for 30 seconds is old
abbrev pub is_old : DateTime → JobsHistory → Bool
is_old now h = ltb (h.updated_at + 30 * second) now

drop_old : DateTime → Option JobsHistory → List JobsHistory → Locking
drop_old now none hs = (err attribute_error, hs)
drop_old now (some h) hs = (ok none, if is_old now h then delete_history h.id hs else hs)

-- `start_at` is the job's `next_run_at`.
lock_run : DateTime → Job → Option DateTime → List JobsHistory → Locking
unfolding insert_history drop_old
lock_run now j start_at hs = elim (insert_history now j start_at hs) [
  | ok (i, hs') ↦ (ok (some i), hs')
  | err e ↦ drop_old now (find? (is_run j.id start_at j.company_id) hs) hs
]

lock_found : DateTime → Option Job → List JobsHistory → Locking
unfolding lock_run
lock_found now none hs = (err attribute_error, hs)
lock_found now (some j) hs = lock_run now j j.next_run_at hs

unfoldable pub lock_record : DateTime → ℕ → Db → Result (Option ℕ) × Db
unfolding lock_found
lock_record now record_id db =
    let (r, hs) = lock_found now (get_job record_id db) db.history in (r, with_history hs db)

-- what `execute_task` does each 3 seconds while the task runs
unfoldable pub heartbeat : DateTime → ℕ → Db → Result Db
heartbeat now history_id db = elim (get_history history_id db) [
  | none ↦ err attribute_error
  | some h ↦ ok (with_history (set_history (with_updated_at now h) db.history) db)
]
