-- ===== src/Runs/Behaviour.antt =====
-- What single operations return, on which conditions.
pub mod Transition
pub mod Assessed
pub mod Finish
pub mod Stop
pub mod Offer
pub mod Blocked
pub mod Clears
pub mod Cutoff
pub mod Approve
pub mod Lease
