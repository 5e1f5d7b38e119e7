-- ===== src/Runs.antt =====
-- The control loop of runs: apps/server/src/domain and apps/server/src/services/runs.ts.
pub mod Lifecycle
pub mod Confidence
pub mod Guardrails
pub mod Db
pub mod Service
pub mod Moves
pub mod Refine
pub mod Invariant
pub mod Behaviour
pub mod Examples
