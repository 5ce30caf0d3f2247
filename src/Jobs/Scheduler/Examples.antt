-- ===== src/Jobs/Scheduler/Examples.antt =====
-- The theorems on schedulers at concrete values.
use mindsdb.Common.{◌+◌, ◌*◌, ◌≡◌, refl, true, some, [], ◌∷◌, arith}
use mindsdb.Jobs.Schedule.{day, second}
use mindsdb.Jobs.Store.{Db, get_history, with_updated_at}
use mindsdb.Jobs.Locks.{lock_record}
use mindsdb.Jobs.Scheduler.{Times, done, running, thread, timeout, execute_task}
use mindsdb.Jobs.Scheduler.Workers.{execute_task_locked, execute_task_orphan}
use mindsdb.Jobs.Examples.{config, engine, now, job, lock_row, before_lock, after_lock}

abbrev times : Times
times = record { locked_at = 100 * day + second; events = [] }

execute_task_locked_example : execute_task config engine true times 4 after_lock ≡ done after_lock
unfolding lock_record
execute_task_locked_example =
    execute_task_locked config engine times (100 * day) 4 10 before_lock after_lock job (98 * day)
      refl refl refl (omega arith)

-- The project of the job is gone: the worker thread dies before the second update of the lock.
abbrev orphan : Db
orphan = record before_lock { projects = [] }

abbrev locked : Db
locked = record after_lock { projects = [] }

abbrev at_lock : Times
at_lock = record {
  locked_at = 100 * day;
  events =
      timeout (100 * day + 3 * second)
      ∷ thread now
      ∷ timeout (100 * day + 6 * second)
      ∷ timeout (100 * day + 9 * second)
      ∷ [];
}

execute_task_orphan_example :
    (db : Db) × (execute_task config engine true at_lock 4 orphan ≡ running db)
    × (get_history 10 db ≡ some (with_updated_at (100 * day + 9 * second) lock_row))
unfolding lock_record
execute_task_orphan_example =
    execute_task_orphan config engine at_lock 4 10 orphan locked job lock_row refl refl refl refl
