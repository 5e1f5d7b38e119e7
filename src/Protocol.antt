-- ===== src/Protocol.antt =====
-- packages/protocol: the vocabulary that the server, the desktop client and the workers share.
pub mod Enums
pub mod Status
pub mod Jobs
