-- ===== src/Runs/Service/Progress.antt =====
-- `recordProgress` and `completeRun` of services/runs.ts, and the change of status with which
-- `submitReview` of services/reviews.ts begins.
use mac_bennet.Prelude.{
  ℕ, ◌+◌, String, Bool, true, false, ◌&&◌, Option, none, some, or_else, first_some, take, ◌==◌,
  str_eq, if◌then◌else◌,
}
use mac_bennet.Protocol.Enums.{
  RunStatus, RunOutcome, AcceptanceState, StopReason, TaskStatus, WorkerStatus, same_status,
  is_terminal_run_status,
}
use mac_bennet.Runs.Confidence.{Confidence, to_fixed3}
use mac_bennet.Runs.Db.{
  Run, Actor, Db, Error, Outcome, Tx, Text, ◌>>=◌, ◌>>◌, return, worker_actor, update_run,
  update_task, update_worker, require_run, record_event,
}
use mac_bennet.Runs.Service.{Services, lease_ms, set_runs, transition}
use mac_bennet.Runs.Service.Acceptance.{assess_completion}
use mac_bennet.Runs.Service.Approval.{require_that}

-- `run.workerId === workerId`
unfoldable pub is_owned_by : Run → ℕ → Bool
is_owned_by r worker_id = elim r.worker_id [ none ↦ false | some w ↦ w == worker_id ]

pub record ProgressInput : Type 0 where
  pub stage : String
  pub percent : Option ℕ

unfoldable pub progress_patch : ProgressInput → ℕ → Run → Run
progress_patch input now r = record r {
  progress_stage = some input.stage;
  progress_percent = or_else input.percent r.progress_percent;
  lease_expires_at = some (now + lease_ms);
  updated_at = now;
}

abbrev pub same_stage : Option String → String → Bool
same_stage none s = false
same_stage (some t) s = str_eq t s

unfoldable pub record_progress : ℕ → ℕ → ProgressInput → ℕ → Tx (Unit {0})
record_progress id worker_id input now = do
  run ← require_run id
  require_that (is_owned_by run worker_id) Error.forbidden
  require_that (same_status run.status RunStatus.running) Error.run_not_running
  set_runs (update_run id (progress_patch input now))
  if same_stage run.progress_stage input.stage
      then return tt
      else record_event (record {
        actor = worker_actor worker_id;
        event_type = "run.progress_stage_changed";
        run_id = some id;
        from_status = none;
        to_status = none;
      })

unfoldable pub outcome_to_status : RunOutcome → RunStatus
outcome_to_status RunOutcome.succeeded = RunStatus.completed
outcome_to_status RunOutcome.failed = RunStatus.failed
outcome_to_status RunOutcome.cancelled = RunStatus.cancelled

unfoldable pub outcome_to_event : RunOutcome → String
outcome_to_event RunOutcome.succeeded = "run.completed"
outcome_to_event RunOutcome.failed = "run.failed"
outcome_to_event RunOutcome.cancelled = "run.cancelled"

pub record CompleteInput : Type 0 where
  pub outcome : RunOutcome
  pub stop_reason : Option StopReason
  pub summary : Option Text
  pub confidence : Option Confidence

abbrev pub is_succeeded : RunOutcome → Bool
is_succeeded RunOutcome.succeeded = true
is_succeeded o = false

abbrev pub is_cancelled : RunOutcome → Bool
is_cancelled RunOutcome.cancelled = true
is_cancelled o = false

abbrev pub is_gaps : AcceptanceState → Bool
is_gaps AcceptanceState.gaps = true
is_gaps s = false

abbrev pub is_guardrail_reason : Option StopReason → Bool
is_guardrail_reason (some StopReason.overnight_cutoff) = true
is_guardrail_reason (some StopReason.budget_exhausted) = true
is_guardrail_reason r = false

unfoldable pub is_gapped : AcceptanceState → RunOutcome → Bool
is_gapped state outcome = is_succeeded outcome && is_gaps state

unfoldable pub is_guardrail_stop : Run → RunOutcome → Bool
is_guardrail_stop run outcome = is_cancelled outcome && is_guardrail_reason run.stop_reason

unfoldable pub completion_target : AcceptanceState → Run → RunOutcome → RunStatus
completion_target state run outcome =
    if is_guardrail_stop run outcome
    then RunStatus.stopped_by_guardrail
    else if is_gapped state outcome
    then RunStatus.completed_with_gaps
    else outcome_to_status outcome

unfoldable pub default_reason : Bool → RunOutcome → StopReason
default_reason true outcome = StopReason.acceptance_gaps
default_reason false RunOutcome.succeeded = StopReason.completed
default_reason false RunOutcome.failed = StopReason.failed
default_reason false RunOutcome.cancelled = StopReason.cancelled_by_user

unfoldable pub completion_reason : AcceptanceState → Run → CompleteInput → StopReason
completion_reason state run input =
    or_else (first_some run.stop_reason input.stop_reason)
      (default_reason (is_gapped state input.outcome) input.outcome)

unfoldable pub cut_summary : Option Text → Option Text
cut_summary none = none
cut_summary (some t) = some (take 2000 t)

unfoldable pub new_confidence : Option Confidence → Option ℕ → Option ℕ
new_confidence none old = old
new_confidence (some c) old = some (to_fixed3 c)

unfoldable pub complete_patch : AcceptanceState → Run → CompleteInput → ℕ → Run → Run
complete_patch state run input now r = record r {
  completed_at = some now;
  stop_reason = some (completion_reason state run input);
  summary = cut_summary input.summary;
  progress_percent = if is_succeeded input.outcome then 100 else run.progress_percent;
  progress_stage =
      if is_succeeded input.outcome
      then some "completed"
      else some (or_else run.progress_stage "stopped");
  confidence = new_confidence input.confidence r.confidence;
  lease_expires_at = none;
}

unfoldable pub finished_task_status : Bool → RunOutcome → TaskStatus
finished_task_status gapped outcome =
    if gapped
    then TaskStatus.ready
    else if is_succeeded outcome
    then TaskStatus.done
    else TaskStatus.blocked

unfoldable pub mark_finished : ℕ → ℕ → TaskStatus → Tx (Unit {0})
mark_finished worker_id task_id status db = Outcome.ok tt (record db {
  workers =
      update_worker worker_id (λ w. record w { status = WorkerStatus.idle; current_run_id = none })
        db.workers;
  tasks = update_task task_id (λ t. record t { status = status }) db.tasks;
})

unfoldable pub completion_event : AcceptanceState → Run → RunOutcome → String
completion_event state run outcome =
    if is_guardrail_stop run outcome then "run.stopped_by_guardrail" else outcome_to_event outcome

unfoldable pub finish_run : AcceptanceState → Run → ℕ → ℕ → CompleteInput → ℕ → Tx RunStatus
finish_run state run id worker_id input now = do
  row ←
      transition id (completion_target state run input.outcome) (worker_actor worker_id)
        (completion_event state run input.outcome) (complete_patch state run input now) now
  mark_finished worker_id run.task_id
      (finished_task_status (is_gapped state input.outcome) input.outcome)
  return (completion_target state run input.outcome)

-- The transaction of `completeRun`. A run that is already terminal answers with its status, and
-- the transaction writes nothing.
unfoldable pub close_run : AcceptanceState → ℕ → ℕ → CompleteInput → ℕ → Tx RunStatus
close_run state id worker_id input now = do
  run ← require_run id
  require_that (is_owned_by run worker_id) Error.forbidden
  if is_terminal_run_status run.status
      then return run.status
      else finish_run state run id worker_id input now

-- The review before it, for a success only, and then the transaction: its answer, and the database
-- with which it began.
unfoldable pub complete_run : Services → ℕ → ℕ → CompleteInput → ℕ → Db → Outcome RunStatus × Db
complete_run services id worker_id input now db =
    let reviewed = assess_completion services id input.outcome now db in
    (close_run reviewed.0 id worker_id input now reviewed.1, reviewed.1)

unfoldable pub enter_self_review : ℕ → Actor → ℕ → Tx Run
enter_self_review id actor now =
    transition id RunStatus.self_review actor "run.self_review" (λ r. r) now
