-- ===== src/Worker.antt =====
-- The worker agent, apps/worker/src: its log buffer.
pub mod LogBuffer
mod Examples
