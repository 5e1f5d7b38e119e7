-- ===== src/Approvals/Examples.antt =====
-- A chat about the run of the small office: replies, and decisions on requests for its approval.
mod Messages
mod Decisions
