-- ===== src/Approvals.antt =====
-- Approval requests that a person can answer from a chat window:
-- packages/protocol/src/approval-requests.ts and apps/server/src/services/approval-requests.ts.
pub mod Codes
pub mod Binding
pub mod Store
pub mod Service
pub mod Rows
pub mod Invariant
pub mod Decided
pub mod Examples
use mac_bennet.Prelude.{Bool, true, false, List, [], ◌∷◌}

-- APPROVAL_SUBJECT_KINDS
pub data SubjectKind : Type 0 where
  run brief action : SubjectKind

-- APPROVAL_REQUEST_STATES
pub data RequestState : Type 0 where
  pending approved rejected expired superseded cancelled : RequestState

-- AUTHORITY_CLASSES
pub data AuthorityClass : Type 0 where
  execute_run accept_brief expand_scope proceed_on_assumption open_pull_request : AuthorityClass
  merge_protected_branch deploy_live_system spend_money external_commitment : AuthorityClass
  destructive_action change_access_control release_pac_ip : AuthorityClass

pub data Decision : Type 0 where
  approve reject : Decision

unfoldable pub is_open_approval_state : RequestState → Bool
is_open_approval_state RequestState.pending = true
is_open_approval_state _ = false

-- CONVERSATIONALLY_APPROVABLE, as a test.
unfoldable pub is_conversationally_approvable : AuthorityClass → Bool
is_conversationally_approvable AuthorityClass.execute_run = true
is_conversationally_approvable AuthorityClass.accept_brief = true
is_conversationally_approvable AuthorityClass.expand_scope = true
is_conversationally_approvable AuthorityClass.proceed_on_assumption = true
is_conversationally_approvable AuthorityClass.open_pull_request = true
is_conversationally_approvable _ = false
