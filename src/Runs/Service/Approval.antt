-- ===== src/Runs/Service/Approval.antt =====
-- Creation, submission, approval and rejection of a run, in services/runs.ts, and the automatic
-- approval of services/night-shift.ts.
use mac_bennet.Prelude.{
  ℕ, ◌+◌, ◌++◌, String, Bool, true, false, not, [], ◌∷◌, Option, none, some, if◌then◌else◌, length,
  ◌==◌,
}
use mac_bennet.Protocol.Enums.{
  RunStatus, ApprovalState, AcceptanceState, ApprovalAction, ExecutionMode,
}
use mac_bennet.Protocol.Jobs.{Json, JobSpec}
use mac_bennet.Runs.Confidence.{
  Confidence, ApprovalCheck, to_fixed3, parse_confidence, check_approval_confidence,
}
use mac_bennet.Runs.Guardrails.{GuardrailCode, check_job_allowed}
use mac_bennet.Runs.Db.{
  Run, Task, Approval, Actor, Error, Outcome, Tx, ◌>>=◌, ◌>>◌, return, Text, get_task, require_run,
  record_event,
}
use mac_bennet.Runs.Db.Text.{trim}
use mac_bennet.Runs.Service.{Services, transition}

pub record CreateRunRequest : Type 0 where
  pub task_id : ℕ
  pub job_kind : String
  pub job_params : Json
  pub confidence : Confidence
  pub execution_mode : ExecutionMode

-- `insert(runs).values(row).returning()`: the key is the next one.
unfoldable pub insert_run : (ℕ → Run) → Tx Run
insert_run row db =
    Outcome.ok (row db.next_run_id)
      (record db { runs = db.runs ++ (row db.next_run_id ∷ []); next_run_id = db.next_run_id + 1 })

unfoldable pub insert_approval : Approval → Tx (Unit {0})
insert_approval a db = Outcome.ok tt (record db { approvals = db.approvals ++ (a ∷ []) })

-- `requireTaskWithProject`
unfoldable pub require_task : ℕ → Tx Task
require_task id db = elim (get_task id db.tasks) [
  | none ↦ Outcome.err Error.not_found []
  | some t ↦ Outcome.ok t db
]

-- A throw of a value that may be missing.
unfoldable pub or_throw : {A : Type 0} → Error → Option A → Tx A
or_throw e none db = Outcome.err e []
or_throw e (some a) db = Outcome.ok a db

unfoldable pub require_that : Bool → Error → Tx (Unit {0})
require_that true e db = Outcome.ok tt db
require_that false e db = Outcome.err e []

-- The row that `createRun` inserts.
unfoldable pub new_run : CreateRunRequest → JobSpec → Option ℕ → Actor → ℕ → ℕ → Run
new_run input job context actor now id = record {
  id = id;
  task_id = input.task_id;
  status = RunStatus.draft;
  approval_state = ApprovalState.pending;
  acceptance_state = AcceptanceState.not_assessed;
  confidence = some (to_fixed3 input.confidence);
  job_kind = job.kind;
  job_params = job.params;
  execution_mode = input.execution_mode;
  overnight_deadline_at = none;
  repository_id = none;
  worker_id = none;
  progress_percent = 0;
  progress_stage = none;
  summary = none;
  cancel_requested_at = none;
  cancel_requested_by = none;
  stop_reason = none;
  started_at = none;
  completed_at = none;
  lease_expires_at = none;
  attempt = 0;
  company_context_revision_id = context;
  created_by = actor.id;
  created_at = now;
  updated_at = now;
}

unfoldable pub create_run : Services → CreateRunRequest → Actor → ℕ → Tx Run
create_run services input actor now = do
  job ←
      or_throw (Error.guardrail GuardrailCode.job_not_allowed)
        (check_job_allowed services.safe_parse input.job_kind input.job_params)
  context ← or_throw Error.context_unavailable services.active_revision
  task ← require_task input.task_id
  require_that task.project_active Error.project_inactive
  row ← insert_run (new_run input job context actor now)
  record_event (record {
    actor = actor;
    event_type = "run.created";
    run_id = some row.id;
    from_status = none;
    to_status = none;
  })
  return row

unfoldable pub submit_patch : Run → Run
submit_patch r = record r { approval_state = ApprovalState.pending }

unfoldable pub submit_for_approval : ℕ → Actor → ℕ → Tx Run
submit_for_approval id actor now =
    transition id RunStatus.ready_for_approval actor "run.submitted_for_approval" submit_patch now

-- `Boolean(notes?.trim())`
unfoldable pub has_text : Option Text → Bool
has_text none = false
has_text (some t) = not (length (trim t) == 0)

-- `notes?.trim() || null`
unfoldable pub trimmed_or_null : Option Text → Option Text
trimmed_or_null none = none
trimmed_or_null (some t) = if length (trim t) == 0 then none else some (trim t)

-- The confidence gate of an approval: a refusal leaves `guardrail.blocked` in the trail.
unfoldable pub confidence_gate : Services → Run → Option Text → Bool → Actor → Tx Bool
confidence_gate services run notes acknowledge actor db =
    elim (check_approval_confidence (parse_confidence run.confidence) services.settings.policy
      acknowledge (has_text notes)) [
        | ApprovalCheck.ok band overridden ↦ Outcome.ok overridden db
        | ApprovalCheck.refused code band ↦ Outcome.err (Error.confidence_refused code) (
            record {
              actor = actor;
              event_type = "guardrail.blocked";
              run_id = some run.id;
              from_status = none;
              to_status = none;
            }
            ∷ [])
      ]

unfoldable pub approve_patch : Run → Run
approve_patch r = record r { approval_state = ApprovalState.approved }

unfoldable pub queue_patch : Option ℕ → Run → Run
queue_patch deadline r = record r { overnight_deadline_at = deadline }

-- An overnight run stops at the next cutoff; an interactive one has no deadline.
unfoldable pub deadline_for : Services → ExecutionMode → ℕ → Option ℕ
deadline_for services ExecutionMode.overnight now = some (services.next_cutoff_after now)
deadline_for services ExecutionMode.interactive now = none

unfoldable pub approve_run : Services → ℕ → Option Text → Bool → Actor → ℕ → Tx Run
approve_run services id notes acknowledge actor now = do
  existing ← require_run id
  overridden ← confidence_gate services existing notes acknowledge actor
  job ←
      or_throw (Error.guardrail GuardrailCode.job_not_allowed)
        (check_job_allowed services.safe_parse existing.job_kind existing.job_params)
  approved ← transition id RunStatus.approved actor "run.approved" approve_patch now
  insert_approval (record {
    run_id = id;
    action = ApprovalAction.approve;
    approver_user_id = actor.id;
    notes = trimmed_or_null notes;
    confidence_at_decision = existing.confidence;
    threshold_at_decision = some (to_fixed3 services.settings.policy.default_confidence_threshold);
    threshold_overridden = overridden;
  })
  transition id RunStatus.queued actor "run.queued"
      (queue_patch (deadline_for services existing.execution_mode now)) now

unfoldable pub reject_patch : Run → Run
reject_patch r = record r { approval_state = ApprovalState.rejected }

unfoldable pub reject_run : ℕ → Text → Actor → ℕ → Tx Run
reject_run id notes actor now = do
  existing ← require_run id
  row ← transition id RunStatus.draft actor "run.rejected" reject_patch now
  insert_approval (record {
    run_id = id;
    action = ApprovalAction.reject;
    approver_user_id = actor.id;
    notes = some (trim notes);
    confidence_at_decision = existing.confidence;
    threshold_at_decision = none;
    threshold_overridden = false;
  })
  return row
