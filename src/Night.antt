-- ===== src/Night.antt =====
-- The decisions of the night shift: apps/server/src/domain/effort.ts, eligibility.ts and
-- night-scheduler.ts.
pub mod Effort
pub mod Scheduler
pub mod Eligibility
pub mod Examples
