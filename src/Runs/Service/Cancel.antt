-- ===== src/Runs/Service/Cancel.antt =====
-- `requestCancel`, `forceCancel` and `stopRunsPastOvernightCutoff` of services/runs.ts.
use mac_bennet.Prelude.{
  ℕ, String, Bool, true, false, ◌&&◌, not, List, [], ◌∷◌, Option, none, some, is_some, first_some,
  keep, if◌then◌else◌,
}
use mac_bennet.Protocol.Enums.{
  RunStatus, ExecutionMode, StopReason, includes_status, is_terminal_run_status,
}
use mac_bennet.Runs.Lifecycle.{immediately_cancellable, requires_worker_cancel}
use mac_bennet.Runs.Guardrails.{is_past_deadline}
use mac_bennet.Runs.Db.{
  Run, Actor, Db, Error, Outcome, Tx, ◌>>=◌, ◌>>◌, return, system_actor, commit, update_run,
  update_worker, require_run, record_event,
}
use mac_bennet.Runs.Service.{set_runs, transition}
use mac_bennet.Runs.Service.Approval.{require_that}

abbrev pub is_user_reason : StopReason → Bool
is_user_reason StopReason.cancelled_by_user = true
is_user_reason r = false

unfoldable pub cancel_now_patch : Actor → StopReason → ℕ → Run → Run
cancel_now_patch actor reason now r = record r {
  cancel_requested_at = some now;
  cancel_requested_by = actor.id;
  stop_reason = some reason;
  completed_at = some now;
}

-- The row of a run that is in flight: only the request is noted.
unfoldable pub cancel_flag_patch : Actor → StopReason → ℕ → Run → Run
cancel_flag_patch actor reason now r = record r {
  cancel_requested_at = some now;
  cancel_requested_by = actor.id;
  stop_reason = some reason;
  updated_at = now;
}

unfoldable pub cancel_target : StopReason → RunStatus
cancel_target reason =
    if is_user_reason reason then RunStatus.cancelled else RunStatus.stopped_by_guardrail

unfoldable pub cancel_event : StopReason → String
cancel_event reason = if is_user_reason reason then "run.cancelled" else "run.stopped_by_guardrail"

unfoldable pub cancel_now : ℕ → Actor → StopReason → ℕ → Tx (Unit {0})
cancel_now id actor reason now = do
  row ←
      transition id (cancel_target reason) actor (cancel_event reason)
        (cancel_now_patch actor reason now) now
  return tt

unfoldable pub flag_cancel : ℕ → Actor → StopReason → ℕ → Tx (Unit {0})
flag_cancel id actor reason now = do
  set_runs (update_run id (cancel_flag_patch actor reason now))
  record_event (record {
    actor = actor;
    event_type = "run.cancel_requested";
    run_id = some id;
    from_status = none;
    to_status = none;
  })

-- A second request changes nothing.
unfoldable pub cancel_in_flight : Run → ℕ → Actor → StopReason → ℕ → Tx (Unit {0})
cancel_in_flight run id actor reason now = do
  require_that (includes_status requires_worker_cancel run.status) Error.run_not_cancellable
  if is_some run.cancel_requested_at then return tt else flag_cancel id actor reason now

unfoldable pub cancel_any : Run → ℕ → Actor → StopReason → ℕ → Tx (Unit {0})
cancel_any run id actor reason now =
    if includes_status immediately_cancellable run.status
    then cancel_now id actor reason now
    else cancel_in_flight run id actor reason now

-- `reason` is `opts.stopReason ?? 'cancelled_by_user'`.
unfoldable pub request_cancel : ℕ → Actor → StopReason → ℕ → Tx (Unit {0})
request_cancel id actor reason now = do
  run ← require_run id
  require_that (not (is_terminal_run_status run.status)) Error.run_already_finished
  cancel_any run id actor reason now

unfoldable pub force_patch : Actor → ℕ → Run → Run
force_patch actor now r = record r {
  cancel_requested_at = first_some r.cancel_requested_at (some now);
  cancel_requested_by = actor.id;
  stop_reason = some StopReason.force_cancelled_worker_unreachable;
  completed_at = some now;
  lease_expires_at = none;
}

-- `currentRunId: null` on the worker that held the run.
unfoldable pub free_worker : Option ℕ → Tx (Unit {0})
free_worker none db = Outcome.ok tt db
free_worker (some w) db =
    Outcome.ok tt
      (record db { workers = update_worker w (λ x. record x { current_run_id = none }) db.workers })

unfoldable pub force_cancel : ℕ → Actor → ℕ → Tx Run
force_cancel id actor now = do
  run ← require_run id
  require_that (not (is_terminal_run_status run.status)) Error.run_already_finished
  row ← transition id RunStatus.cancelled actor "run.force_cancelled" (force_patch actor now) now
  free_worker run.worker_id
  return row

abbrev pub is_overnight : ExecutionMode → Bool
is_overnight ExecutionMode.overnight = true
is_overnight ExecutionMode.interactive = false

-- The WHERE clause of the cutoff sweep.
unfoldable pub is_past_cutoff : ℕ → Run → Bool
is_past_cutoff now r =
    includes_status (RunStatus.queued ∷ RunStatus.running ∷ RunStatus.blocked ∷ []) r.status
    && is_overnight r.execution_mode
    && is_past_deadline now r.overnight_deadline_at
    && not (is_some r.cancel_requested_at)

-- One transaction for each run; one that throws is passed over.
unfoldable pub stop_each : List Run → ℕ → Db → Db
stop_each [] now db = db
stop_each (r ∷ rs) now db =
    stop_each rs now
      (commit (request_cancel r.id system_actor StopReason.overnight_cutoff now db) db)

unfoldable pub stop_runs_past_overnight_cutoff : ℕ → Db → Db
stop_runs_past_overnight_cutoff now db = stop_each (keep (is_past_cutoff now) db.runs) now db
