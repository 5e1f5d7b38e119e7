-- ===== src/Protocol/Enums.antt =====
-- packages/protocol/src/enums.ts: the enumerations that runs, approvals and workers are made of.
-- A TypeScript string union is a data type with one constructor for each of its values.
use mac_bennet.Prelude.{ℕ, Bool, List, [], ◌∷◌, any, ◌==◌}

pub data RunStatus : Type 0 where
  draft discovery ready_for_approval approved queued running blocked self_review : RunStatus
  ready_for_human_review completed completed_with_gaps stopped_by_guardrail : RunStatus
  cancelled failed : RunStatus

-- The position in `RUN_STATUSES`. `===` on statuses compares it.
abbrev pub status_index : RunStatus → ℕ
status_index RunStatus.draft = 0
status_index RunStatus.discovery = 1
status_index RunStatus.ready_for_approval = 2
status_index RunStatus.approved = 3
status_index RunStatus.queued = 4
status_index RunStatus.running = 5
status_index RunStatus.blocked = 6
status_index RunStatus.self_review = 7
status_index RunStatus.ready_for_human_review = 8
status_index RunStatus.completed = 9
status_index RunStatus.completed_with_gaps = 10
status_index RunStatus.stopped_by_guardrail = 11
status_index RunStatus.cancelled = 12
status_index RunStatus.failed = 13

abbrev pub same_status : RunStatus → RunStatus → Bool
same_status a b = status_index a == status_index b

-- `list.includes(status)`
abbrev pub includes_status : List RunStatus → RunStatus → Bool
includes_status l s = any (λ t. same_status t s) l

abbrev pub terminal_run_statuses : List RunStatus
terminal_run_statuses =
    RunStatus.completed ∷ RunStatus.completed_with_gaps ∷ RunStatus.stopped_by_guardrail
    ∷ RunStatus.cancelled ∷ RunStatus.failed ∷ []

unfoldable pub is_terminal_run_status : RunStatus → Bool
is_terminal_run_status s = includes_status terminal_run_statuses s

unfoldable pub is_delivering_run_status : RunStatus → Bool
is_delivering_run_status s =
    includes_status (RunStatus.completed ∷ RunStatus.completed_with_gaps ∷ []) s

pub data ApprovalState : Type 0 where
  not_required pending approved rejected revoked : ApprovalState

-- packages/protocol/src/acceptance.ts
pub data AcceptanceState : Type 0 where
  not_assessed satisfied gaps failed : AcceptanceState

pub data ApprovalAction : Type 0 where
  approve reject revoke : ApprovalAction

pub data ExecutionMode : Type 0 where
  interactive overnight : ExecutionMode

pub data WorkerStatus : Type 0 where
  registered idle busy offline disabled : WorkerStatus

pub data TaskStatus : Type 0 where
  draft ready in_progress blocked done cancelled : TaskStatus

pub data TaskPriority : Type 0 where
  low normal high urgent : TaskPriority

-- `PRIORITY_RANK`: lower is dispatched sooner.
abbrev pub priority_rank : TaskPriority → ℕ
priority_rank TaskPriority.urgent = 0
priority_rank TaskPriority.high = 1
priority_rank TaskPriority.normal = 2
priority_rank TaskPriority.low = 3

pub data ActorType : Type 0 where
  user worker system : ActorType

pub data RunOutcome : Type 0 where
  succeeded failed cancelled : RunOutcome

pub data DecisionRisk : Type 0 where
  low medium high : DecisionRisk

pub data StopReason : Type 0 where
  completed failed cancelled_by_user force_cancelled_worker_unreachable : StopReason
  overnight_cutoff budget_exhausted confidence_below_threshold unsupported_job_kind : StopReason
  worker_error prohibited_git_operation coding_agent_error blocked_unsafe_decision : StopReason
  repository_not_approved agent_time_limit completed_with_blockers sandbox_unavailable : StopReason
  usage_threshold_reached night_shift_ended model_provider_required no_capable_worker : StopReason
  research_limit_reached task_kind_not_permitted acceptance_gaps : StopReason
