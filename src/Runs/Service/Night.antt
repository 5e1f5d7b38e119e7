-- ===== src/Runs/Service/Night.antt =====
-- `startSelectedTask` of services/night-shift.ts: a run that the night shift approves by policy.
-- The brief, the repository and the job are read from tables that are arguments here; the
-- monday.com writes and the shift's counter are left out.
use mac_bennet.Prelude.{
  ℕ, String, Bool, false, ◌&&◌, ◌||◌, not, Option, none, some, or_else, is_some, codes, str_eq,
  if◌then◌else◌,
}
use mac_bennet.Protocol.Enums.{
  RunStatus, ApprovalState, AcceptanceState, ApprovalAction, ExecutionMode,
}
use mac_bennet.Protocol.Jobs.{Json}
use mac_bennet.Runs.Confidence.{to_fixed3}
use mac_bennet.Runs.Db.{
  Run, AuditEvent, Error, Outcome, Tx, ◌>>=◌, ◌>>◌, return, system_actor, get_task, record_event,
}
use mac_bennet.Runs.Service.{Services, transition}
use mac_bennet.Runs.Service.Approval.{insert_run, insert_approval, or_throw}

pub record NightSelection : Type 0 where
  pub task_id : ℕ
  pub job_kind : String  -- resolveJobKind of the task's kind
  pub job_params : Json
  pub repository : Option ℕ  -- an approved repository of the project
  pub brief_confidence : Option (Option ℕ)  -- of the newest brief, if there is one
  pub cutoff_at : ℕ

abbrev pub needs_repository : NightSelection → Bool
needs_repository s = str_eq s.job_kind "claude_code"

unfoldable pub night_run : NightSelection → Option ℕ → Option ℕ → ℕ → ℕ → Run
night_run s context confidence now id = record {
  id = id;
  task_id = s.task_id;
  status = RunStatus.draft;
  approval_state = ApprovalState.approved;
  acceptance_state = AcceptanceState.not_assessed;
  confidence = some (or_else confidence 0);
  job_kind = s.job_kind;
  job_params = s.job_params;
  execution_mode = ExecutionMode.overnight;
  overnight_deadline_at = some s.cutoff_at;
  repository_id = if needs_repository s then s.repository else none;
  worker_id = none;
  progress_percent = 0;
  progress_stage = none;
  summary = none;
  cancel_requested_at = none;
  cancel_requested_by = none;
  stop_reason = none;
  started_at = none;
  completed_at = none;
  lease_expires_at = none;
  attempt = 0;
  company_context_revision_id = context;
  created_by = none;
  created_at = now;
  updated_at = now;
}

unfoldable pub night_event : String → ℕ → AuditEvent
night_event type id = record {
  actor = system_actor;
  event_type = type;
  run_id = some id;
  from_status = none;
  to_status = none;
}

unfoldable pub start_with_brief :
    Services → NightSelection → Option ℕ → Option ℕ → ℕ → Tx (Option ℕ)
start_with_brief services s context confidence now = do
  run ← insert_run (night_run s context confidence now)
  insert_approval (record {
    run_id = run.id;
    action = ApprovalAction.approve;
    approver_user_id = none;
    notes = some (codes "Approved by night-shift policy.");
    confidence_at_decision = run.confidence;
    threshold_at_decision = some (to_fixed3 services.settings.policy.default_confidence_threshold);
    threshold_overridden = false;
  })
  submitted ←
      transition run.id RunStatus.ready_for_approval system_actor "run.submitted_for_approval"
        (λ r. r) now
  approved ← transition run.id RunStatus.approved system_actor "run.auto_approved" (λ r. r) now
  record_event (night_event "night_shift.task_selected" run.id)
  queued ← transition run.id RunStatus.queued system_actor "run.queued" (λ r. r) now
  return (some run.id)

unfoldable pub start_in_context : Services → NightSelection → ℕ → Option ℕ → Tx (Option ℕ)
start_in_context services s now context db =
    if not (is_some (get_task s.task_id db.tasks))
      || (needs_repository s && not (is_some s.repository))
    then Outcome.ok none db
    else elim s.brief_confidence [
      | none ↦ Outcome.ok none db
      | some confidence ↦ start_with_brief services s context confidence now db
    ]

unfoldable pub start_selected_task : Services → NightSelection → ℕ → Tx (Option ℕ)
start_selected_task services s now = do
  context ← or_throw Error.context_unavailable services.active_revision
  start_in_context services s now context
