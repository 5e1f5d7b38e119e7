-- ===== src/Runs/Examples.antt =====
-- A small office: one task, one worker, one approver, and a night of calls.
pub mod Histories
pub mod Operations
use mac_bennet.Prelude.{ℕ, ◌+◌, String, Bool, true, false, List, [], ◌∷◌, Option, none, some}
use mac_bennet.Protocol.Enums.{
  RunStatus, ApprovalState, AcceptanceState, ExecutionMode, TaskStatus, TaskPriority, WorkerStatus,
  ActorType, StopReason, RunOutcome, is_terminal_run_status,
}
use mac_bennet.Protocol.Jobs.{
  Json, SafeParse, parse_job_spec, includes, is_allowed_job_kind, requires_approved_repository,
  is_general_job_kind,
}
use mac_bennet.Runs.Guardrails.{
  check_dispatch, check_run_approved, check_run_dispatchable, check_no_cancel_pending,
  check_overnight_cutoff, check_budget, check_worker_capability, first_refusal, then_job,
  job_result, check_job_allowed, stop_at_cents, is_past_deadline,
}
use mac_bennet.Runs.Lifecycle.{can_transition, run_transitions}
use mac_bennet.Runs.Db.Text.{trim}
use mac_bennet.Runs.Confidence.{check_approval_confidence, parse_confidence, to_scaled, to_fixed3}
use mac_bennet.Runs.Service.Cancel.{is_past_cutoff}
use mac_bennet.Runs.Db.{
  Run, Task, Worker, Actor, Db, commit, record_event, get_run, update_run, get_task, update_task,
  update_worker, repository_approved, require_run, return, ◌>>=◌,
}
use mac_bennet.Runs.Service.{
  Services, Settings, GeneralBuild, transition, assert_transition, set_runs,
}
use mac_bennet.Runs.Service.Approval.{
  CreateRunRequest, create_run, submit_for_approval, approve_run, insert_run, insert_approval,
  require_task, require_that, or_throw, new_run, confidence_gate, has_text, trimmed_or_null,
  approve_patch, queue_patch, submit_patch, deadline_for,
}
use mac_bennet.Runs.Service.Dispatch.{
  LeasingWorker, lease_next_run, dispatch_next, offer_run, dispatch_candidate, dispatch_general,
  dispatch_job, dispatch_checked, dispatch_check, lease_candidate, mark_started, dispatch_patch,
  select_candidate, first_in_order, sorts_before, run_rank, rank_of_task, selectable,
  repository_allows, effective_capabilities, budget_stops, after_event, system_event,
}
use mac_bennet.Runs.Service.Acceptance.{
  assess_completion, review_acceptance, review_found, persist_review, unmet_events, review_events,
  answered_state, assess_patch, acceptance_event,
}
use mac_bennet.Runs.Service.Progress.{
  CompleteInput, complete_run, close_run, finish_run, complete_patch, completion_target,
  completion_reason, completion_event, is_guardrail_stop, is_gapped, outcome_to_status,
  outcome_to_event, is_owned_by, finished_task_status, mark_finished, default_reason, cut_summary,
  new_confidence,
}
use mac_bennet.Runs.Service.Calls.{Call, step, history}

-- All operations, to be unfolded together on concrete data.
unfoldable pub opened : Unit {0}
unfolding step history commit create_run submit_for_approval approve_run lease_next_run
    dispatch_next offer_run dispatch_candidate dispatch_general dispatch_job dispatch_checked
    dispatch_check lease_candidate mark_started dispatch_patch select_candidate first_in_order
    sorts_before run_rank rank_of_task selectable repository_allows effective_capabilities
    budget_stops check_dispatch check_run_approved check_run_dispatchable check_no_cancel_pending
    check_overnight_cutoff check_budget check_worker_capability first_refusal then_job job_result
    check_job_allowed stop_at_cents is_past_deadline parse_job_spec includes is_allowed_job_kind
    requires_approved_repository is_general_job_kind transition assert_transition can_transition
    run_transitions set_runs record_event get_run update_run get_task update_task update_worker
    repository_approved require_run return ◌>>=◌ insert_run insert_approval require_task
    require_that or_throw new_run confidence_gate has_text trimmed_or_null trim
    check_approval_confidence parse_confidence to_scaled to_fixed3 approve_patch queue_patch
    submit_patch deadline_for complete_run close_run assess_completion review_acceptance
    review_found persist_review unmet_events review_events answered_state assess_patch
    acceptance_event finish_run complete_patch completion_target completion_reason completion_event
    is_guardrail_stop is_gapped outcome_to_status outcome_to_event is_terminal_run_status
    is_owned_by finished_task_status mark_finished default_reason cut_summary new_confidence
    is_past_cutoff after_event system_event
opened = tt

abbrev pub services : Services
services = record {
  safe_parse = λ kind params. some params;
  settings = record {
    policy = record {
      min_execution_confidence = 600000000;
      default_confidence_threshold = 800000000;
    };
    nightly_budget_cents = 5000;
    budget_stop_pct = 90;
    require_sandbox = true;
  };
  recorded_spend_cents = 1200;
  next_cutoff_after = λ now. now + 500;
  active_revision = some none;
  builds_coding = λ r. true;
  builds_general = λ r. GeneralBuild.built;
  review = λ id. some (record { state = AcceptanceState.satisfied; unmet = 0; logged = true });
  is_locked = λ id. false;
}

-- The same with the budget spent.
abbrev pub spent : Services
spent = record services { recorded_spend_cents = 4500 }

-- The same after a job kind's parameters were tightened.
abbrev pub tightened : Services
tightened = record services { safe_parse = λ kind params. none }

abbrev pub approver : Actor
approver = record { kind = ActorType.user; id = some 7 }

abbrev pub worker : LeasingWorker
worker = record { id = 3; capabilities = "noop" ∷ "echo" ∷ []; sandbox_ready = some true }

abbrev pub start_db : Db
start_db = record {
  runs = [];
  tasks =
      record {
        id = 1;
        status = TaskStatus.ready;
        priority = TaskPriority.high;
        project_active = true;
      }
      ∷ [];
  workers = record { id = 3; status = WorkerStatus.idle; current_run_id = none } ∷ [];
  repositories = [];
  approvals = [];
  audit = [];
  next_run_id = 0;
}

abbrev pub request : CreateRunRequest
request = record {
  task_id = 1;
  job_kind = "echo";
  job_params = Json.null;
  confidence = 850000000;
  execution_mode = ExecutionMode.overnight;
}

abbrev pub succeeded : CompleteInput
succeeded = record {
  outcome = RunOutcome.succeeded;
  stop_reason = none;
  summary = none;
  confidence = none;
}

abbrev pub stopped : CompleteInput
stopped = record {
  outcome = RunOutcome.cancelled;
  stop_reason = none;
  summary = none;
  confidence = none;
}

-- A run is created, submitted, approved, handed to the worker and completed.
abbrev pub night : List (Services × ℕ × Call)
night =
    (services, 1000, Call.creates request approver)
    ∷ (services, 1001, Call.submits 0 approver)
    ∷ (services, 1002, Call.approves 0 none false approver)
    ∷ (services, 1003, Call.leases worker)
    ∷ (services, 1004, Call.completes 0 3 succeeded)
    ∷ []

-- The row of that run while it is queued, and in its other states.
abbrev pub queued_run : Run
queued_run = record {
  id = 0;
  task_id = 1;
  status = RunStatus.queued;
  approval_state = ApprovalState.approved;
  acceptance_state = AcceptanceState.not_assessed;
  confidence = some 850;
  job_kind = "echo";
  job_params = Json.null;
  execution_mode = ExecutionMode.overnight;
  overnight_deadline_at = some 1502;
  repository_id = none;
  worker_id = none;
  progress_percent = 0;
  progress_stage = none;
  summary = none;
  cancel_requested_at = none;
  cancel_requested_by = none;
  stop_reason = none;
  started_at = none;
  completed_at = none;
  lease_expires_at = none;
  attempt = 0;
  company_context_revision_id = none;
  created_by = some 7;
  created_at = 1000;
  updated_at = 1002;
}

abbrev pub submitted_run : Run
submitted_run = record queued_run {
  status = RunStatus.ready_for_approval;
  approval_state = ApprovalState.pending;
  acceptance_state = AcceptanceState.not_assessed;
  overnight_deadline_at = none;
  updated_at = 1001;
}

abbrev pub running_run : Run
running_run = record queued_run {
  status = RunStatus.running;
  worker_id = some 3;
  progress_stage = some "dispatched";
  started_at = some 1003;
  lease_expires_at = some 121003;
  attempt = 1;
  updated_at = 1003;
}

abbrev pub flagged_run : Run
flagged_run = record running_run {
  cancel_requested_at = some 1600;
  stop_reason = some StopReason.overnight_cutoff;
}

abbrev pub reviewed_run : Run
reviewed_run = record flagged_run { status = RunStatus.self_review }

-- The office with one run.
abbrev pub with_run : Run → Db
with_run r = record start_db { runs = r ∷ []; next_run_id = 1 }
