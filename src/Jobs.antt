-- ===== src/Jobs.antt =====
-- Scheduled queries, of mindsdb/interfaces/jobs: splitting, schedules, planning, locks, schedulers.
pub mod Split
pub mod Schedule
pub mod Templates
pub mod Store
pub mod Planning
pub mod Locks
pub mod Execution
pub mod Scheduler
pub mod Dates
mod Examples
pub mod Controller
pub mod Listing
