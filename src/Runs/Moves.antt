-- ===== src/Runs/Moves.antt =====
-- The abstract machine of runs: what may happen to the rows of the runs table, one move for each
-- kind of change, with the facts on which the change depends.
pub mod Fields
pub mod Evolve
pub mod Targets
use mac_bennet.Prelude.{ℕ, ◌≡◌, ◌⊎◌, Bool, true, false, Option, none, some}
use mac_bennet.Protocol.Enums.{
  RunStatus, ApprovalState, AcceptanceState, StopReason, includes_status, is_terminal_run_status,
}
use mac_bennet.Runs.Lifecycle.{can_transition, immediately_cancellable, requires_worker_cancel}
use mac_bennet.Runs.Confidence.{
  ConfidencePolicy, ConfidenceBand, ApprovalCheck, parse_confidence, check_approval_confidence,
}
use mac_bennet.Runs.Guardrails.{is_past_deadline}
use mac_bennet.Runs.Db.{Run, Actor}
use mac_bennet.Runs.Service.{moved}
use mac_bennet.Runs.Service.Approval.{submit_patch, approve_patch, queue_patch, reject_patch}
use mac_bennet.Runs.Service.Dispatch.{dispatch_patch, refuse_patch}
use mac_bennet.Runs.Service.Acceptance.{assess_patch}
use mac_bennet.Runs.Service.Progress.{
  ProgressInput, CompleteInput, progress_patch, complete_patch, completion_target,
}
use mac_bennet.Runs.Service.Cancel.{cancel_now_patch, cancel_flag_patch, cancel_target, force_patch}

-- A row as it is first written: nothing has happened to it yet.
pub record IsNew (r : Run) : Type 0 where
  pub drafted : r.status ≡ RunStatus.draft
  pub not_completed : r.completed_at ≡ none
  pub not_leased : r.lease_expires_at ≡ none
  pub not_stopped : r.stop_reason ≡ none
  pub not_assigned : r.worker_id ≡ none
  pub not_cancelled : r.cancel_requested_at ≡ none
  pub not_started : r.started_at ≡ none
  pub first_attempt : r.attempt ≡ 0

-- What a worker is handed must be queued, approved, not stopped and before its deadline.
pub record IsDispatchable (now : ℕ) (r : Run) : Type 0 where
  pub queued : r.status ≡ RunStatus.queued
  pub approved : r.approval_state ≡ ApprovalState.approved
  pub not_cancelled : r.cancel_requested_at ≡ none
  pub in_time : is_past_deadline now r.overnight_deadline_at ≡ false

pub data Move (r : Run) : Run → Type 0 where
  submit :
      (t : ℕ)
      → can_transition r.status RunStatus.ready_for_approval ≡ true
      → Move r (moved submit_patch RunStatus.ready_for_approval t r)
  approve :
      (t : ℕ) (p : ConfidencePolicy) (acknowledge has_notes : Bool) (band : ConfidenceBand)
      (overridden : Bool)
      → check_approval_confidence (parse_confidence r.confidence) p acknowledge has_notes
        ≡ ApprovalCheck.ok band overridden
      → can_transition r.status RunStatus.approved ≡ true
      → Move r (moved approve_patch RunStatus.approved t r)
  queue :
      (t : ℕ) (deadline : Option ℕ)
      → can_transition r.status RunStatus.queued ≡ true
      → Move r (moved (queue_patch deadline) RunStatus.queued t r)
  reject :
      (t : ℕ)
      → can_transition r.status RunStatus.draft ≡ true
      → Move r (moved reject_patch RunStatus.draft t r)
  dispatch :
      (t worker_id : ℕ)
      → IsDispatchable t r
      → can_transition r.status RunStatus.running ≡ true
      → Move r (moved (dispatch_patch worker_id t r) RunStatus.running t r)
  refuse :
      (t : ℕ) (reason : StopReason) (to : RunStatus)
      → (to ≡ RunStatus.stopped_by_guardrail) ⊎ (to ≡ RunStatus.failed)
      → r.status ≡ RunStatus.queued
      → can_transition r.status to ≡ true
      → Move r (moved (refuse_patch reason t) to t r)
  progress :
      (t : ℕ) (input : ProgressInput)
      → r.status ≡ RunStatus.running
      → Move r (progress_patch input t r)
  -- The acceptance review, also of a run that has ended.
  assess : (t : ℕ) (state : AcceptanceState) → Move r (assess_patch state t r)
  complete :
      (t : ℕ) (s : AcceptanceState) (input : CompleteInput)
      → can_transition r.status (completion_target s r input.outcome) ≡ true
      → Move r (moved (complete_patch s r input t) (completion_target s r input.outcome) t r)
  review :
      (t : ℕ)
      → can_transition r.status RunStatus.self_review ≡ true
      → Move r (moved (λ x. x) RunStatus.self_review t r)
  cancel :
      (t : ℕ) (actor : Actor) (reason : StopReason)
      → can_transition r.status (cancel_target reason) ≡ true
      → includes_status immediately_cancellable r.status ≡ true
      → Move r (moved (cancel_now_patch actor reason t) (cancel_target reason) t r)
  flag :
      (t : ℕ) (actor : Actor) (reason : StopReason)
      → includes_status requires_worker_cancel r.status ≡ true
      → r.cancel_requested_at ≡ none
      → Move r (cancel_flag_patch actor reason t r)
  force :
      (t : ℕ) (actor : Actor)
      → can_transition r.status RunStatus.cancelled ≡ true
      → Move r (moved (force_patch actor t) RunStatus.cancelled t r)
  -- The night shift's own run, which policy has approved.
  submit_by_policy :
      (t : ℕ)
      → can_transition r.status RunStatus.ready_for_approval ≡ true
      → Move r (moved (λ x. x) RunStatus.ready_for_approval t r)
  approve_by_policy :
      (t : ℕ)
      → r.approval_state ≡ ApprovalState.approved
      → can_transition r.status RunStatus.approved ≡ true
      → Move r (moved (λ x. x) RunStatus.approved t r)
  queue_by_policy :
      (t : ℕ)
      → can_transition r.status RunStatus.queued ≡ true
      → Move r (moved (λ x. x) RunStatus.queued t r)
