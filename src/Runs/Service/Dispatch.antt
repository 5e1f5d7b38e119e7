-- ===== src/Runs/Service/Dispatch.antt =====
-- `leaseNextRun` of services/runs.ts. A refusal (`return null`) is none.
use mac_bennet.Prelude.{
  ℕ, ◌+◌, ◌++◌, String, Bool, true, false, ◌&&◌, ◌||◌, not, List, [], ◌∷◌, Option, none, some, keep,
  ltb, leb, length, ◌==◌, is_some, first_some, str_eq, if◌then◌else◌,
}
use mac_bennet.Protocol.Enums.{
  RunStatus, StopReason, TaskStatus, WorkerStatus, TaskPriority, priority_rank, same_status,
}
use mac_bennet.Protocol.Jobs.{JobSpec, includes, requires_approved_repository, is_general_job_kind}
use mac_bennet.Runs.Guardrails.{
  GuardrailResult, is_approved, is_past_deadline, stop_at_cents, check_job_allowed, check_dispatch,
}
use mac_bennet.Runs.Db.{
  Run, Task, Repository, AuditEvent, Db, Outcome, Tx, ◌>>=◌, ◌>>◌, return, system_actor,
  worker_actor, get_task, update_task, update_worker, repository_approved, record_event,
}
use mac_bennet.Runs.Service.{Services, GeneralBuild, lease_ms, transition}

pub record LeasingWorker : Type 0 where
  pub id : ℕ
  pub capabilities : List String
  pub sandbox_ready : Option Bool

pub record Assignment : Type 0 where
  pub run_id : ℕ
  pub task_id : ℕ
  pub job : JobSpec
  pub deadline_at : Option ℕ
  pub lease_expires_at : ℕ
  pub attempt : ℕ

unfoldable pub repository_allows : Option ℕ → List Repository → Bool
repository_allows none rs = true
repository_allows (some id) rs = repository_approved id rs

-- The WHERE clause of the dispatch statement, its joins and its SKIP LOCKED.
unfoldable pub selectable : Services → List String → ℕ → Db → Run → Bool
selectable services capabilities now db r =
    same_status r.status RunStatus.queued
    && is_approved r.approval_state
    && not (is_some r.cancel_requested_at)
    && not (is_past_deadline now r.overnight_deadline_at)
    && includes capabilities r.job_kind
    && repository_allows r.repository_id db.repositories
    && is_some (get_task r.task_id db.tasks)
    && not (services.is_locked r.id)

unfoldable pub rank_of_task : Option Task → ℕ
rank_of_task none = priority_rank TaskPriority.low
rank_of_task (some t) = priority_rank t.priority

unfoldable pub run_rank : Db → Run → ℕ
run_rank db r = rank_of_task (get_task r.task_id db.tasks)

-- ORDER BY priority, created_at: `a` strictly before `b`.
unfoldable pub sorts_before : Db → Run → Run → Bool
sorts_before db a b =
    ltb (run_rank db a) (run_rank db b)
    || (run_rank db a == run_rank db b && ltb a.created_at b.created_at)

-- The first row of the order; of rows that tie, the first of the table.
unfoldable pub first_in_order : Db → List Run → Option Run
first_in_order db [] = none
first_in_order db (r ∷ rs) = elim (first_in_order db rs) [
  | none ↦ some r
  | some s ↦ some (if sorts_before db s r then s else r)
]

unfoldable pub select_candidate : Services → List String → ℕ → Db → Option Run
select_candidate services capabilities now db =
    first_in_order db (keep (selectable services capabilities now db) db.runs)

-- A worker that has not attested a sandbox is not offered coding work.
abbrev pub withholds_coding : Services → LeasingWorker → Bool
withholds_coding services worker =
    services.settings.require_sandbox
    && elim worker.sandbox_ready [ none ↦ false | some b ↦ not b ]
    && includes worker.capabilities "claude_code"

unfoldable pub effective_capabilities : Services → LeasingWorker → List String
effective_capabilities services worker =
    if withholds_coding services worker
    then keep (λ c. not (str_eq c "claude_code")) worker.capabilities
    else worker.capabilities

unfoldable pub system_event : String → Option ℕ → AuditEvent
system_event type run_id = record {
  actor = system_actor;
  event_type = type;
  run_id = run_id;
  from_status = none;
  to_status = none;
}

unfoldable pub refuse_patch : StopReason → ℕ → Run → Run
refuse_patch reason now r = record r { stop_reason = some reason; completed_at = some now }

-- A run that cannot be handed out is moved to `to`, and nothing is leased.
unfoldable pub refuse_run : Run → RunStatus → String → StopReason → ℕ → Tx (Option Assignment)
refuse_run candidate to event_type reason now = do
  row ← transition candidate.id to system_actor event_type (refuse_patch reason now) now
  return none

unfoldable pub dispatch_patch : ℕ → ℕ → Run → Run → Run
dispatch_patch worker_id now candidate r = record r {
  worker_id = some worker_id;
  started_at = first_some candidate.started_at (some now);
  lease_expires_at = some (now + lease_ms);
  attempt = candidate.attempt + 1;
  progress_stage = some "dispatched";
  progress_percent = 0;
}

abbrev pub is_startable_task : TaskStatus → Bool
is_startable_task TaskStatus.draft = true
is_startable_task TaskStatus.ready = true
is_startable_task s = false

abbrev pub start_task : Task → Task
start_task t =
    if is_startable_task t.status then record t { status = TaskStatus.in_progress } else t

-- The writes beside the run's own row.
unfoldable pub mark_started : ℕ → Run → Tx (Unit {0})
mark_started worker_id r db = Outcome.ok tt (record db {
  workers =
      update_worker worker_id
        (λ w. record w { status = WorkerStatus.busy; current_run_id = some r.id }) db.workers;
  tasks = update_task r.task_id start_task db.tasks;
})

unfoldable pub lease_candidate : LeasingWorker → Run → JobSpec → ℕ → Tx (Option Assignment)
lease_candidate worker candidate job now = do
  updated ←
      transition candidate.id RunStatus.running (worker_actor worker.id) "run.dispatched"
        (dispatch_patch worker.id now candidate) now
  mark_started worker.id updated
  return (
      some (record {
        run_id = updated.id;
        task_id = updated.task_id;
        job = job;
        deadline_at = updated.overnight_deadline_at;
        lease_expires_at = now + lease_ms;
        attempt = updated.attempt;
      }))

-- The last check, `checkDispatch` on the selected row.
unfoldable pub dispatch_check : Services → List String → Run → ℕ → GuardrailResult
dispatch_check services capabilities candidate now =
    check_dispatch services.safe_parse
      (record {
        status = candidate.status;
        approval_state = candidate.approval_state;
        cancel_requested_at = candidate.cancel_requested_at;
        overnight_deadline_at = candidate.overnight_deadline_at;
        job_kind = candidate.job_kind;
        job_params = candidate.job_params;
      })
      capabilities
      (record {
        recorded_spend_cents = services.recorded_spend_cents;
        nightly_budget_cents = services.settings.nightly_budget_cents;
        budget_stop_pct = services.settings.budget_stop_pct;
      })
      now

unfoldable pub dispatch_checked :
    Services → LeasingWorker → List String → Run → JobSpec → ℕ → Tx (Option Assignment)
dispatch_checked services worker capabilities candidate job now =
    elim (dispatch_check services capabilities candidate now) [
      | GuardrailResult.ok ↦ lease_candidate worker candidate job now
      | GuardrailResult.refused code ↦ do
        record_event (system_event "guardrail.blocked" (some candidate.id))
        return none
    ]

unfoldable pub dispatch_job :
    Services → LeasingWorker → List String → Run → ℕ → Tx (Option Assignment)
dispatch_job services worker capabilities candidate now =
    elim (check_job_allowed services.safe_parse candidate.job_kind candidate.job_params) [
      | none ↦
          refuse_run candidate RunStatus.failed "run.failed" StopReason.unsupported_job_kind now
      | some job ↦ dispatch_checked services worker capabilities candidate job now
    ]

unfoldable pub dispatch_built :
    Services → LeasingWorker → List String → Run → ℕ → GeneralBuild → Tx (Option Assignment)
dispatch_built services worker capabilities candidate now GeneralBuild.built =
    dispatch_job services worker capabilities candidate now
dispatch_built services worker capabilities candidate now GeneralBuild.provider_required =
    refuse_run candidate RunStatus.stopped_by_guardrail "run.stopped_by_guardrail"
      StopReason.model_provider_required now
dispatch_built services worker capabilities candidate now GeneralBuild.build_failed =
    refuse_run candidate RunStatus.failed "run.failed" StopReason.worker_error now

unfoldable pub dispatch_general :
    Services → LeasingWorker → List String → Run → ℕ → Tx (Option Assignment)
dispatch_general services worker capabilities candidate now =
    if is_general_job_kind candidate.job_kind
    then dispatch_built services worker capabilities candidate now
        (services.builds_general candidate)
    else dispatch_job services worker capabilities candidate now

unfoldable pub dispatch_candidate :
    Services → LeasingWorker → List String → ℕ → Option Run → Tx (Option Assignment)
dispatch_candidate services worker capabilities now none = return none
dispatch_candidate services worker capabilities now (some candidate) =
    if requires_approved_repository candidate.job_kind && not (services.builds_coding candidate)
    then refuse_run candidate RunStatus.stopped_by_guardrail "run.stopped_by_guardrail"
        StopReason.repository_not_approved now
    else dispatch_general services worker capabilities candidate now

-- An event committed on its own before `m` stays, also if `m` throws.
unfoldable pub after_event : {A : Type 0} → AuditEvent → Tx A → Tx A
after_event e m db = elim (m (record db { audit = db.audit ++ (e ∷ []) })) [
  | Outcome.ok a db' ↦ Outcome.ok a db'
  | Outcome.err x l ↦ Outcome.err x (e ∷ l)
]

unfoldable pub offer_run : Services → LeasingWorker → List String → ℕ → Tx (Option Assignment)
offer_run services worker capabilities now db =
    if length capabilities == 0
    then Outcome.ok none db
    else dispatch_candidate services worker capabilities now
        (select_candidate services capabilities now db) db

unfoldable pub dispatch_next : Services → LeasingWorker → ℕ → Tx (Option Assignment)
dispatch_next services worker now =
    if withholds_coding services worker
    then after_event (system_event "sandbox.refused" none)
        (offer_run services worker (effective_capabilities services worker) now)
    else offer_run services worker (effective_capabilities services worker) now

unfoldable pub budget_stops : Services → Bool
budget_stops services =
    ltb 0 services.settings.nightly_budget_cents
    && leb (stop_at_cents services.settings.nightly_budget_cents services.settings.budget_stop_pct)
        services.recorded_spend_cents

unfoldable pub lease_next_run : Services → LeasingWorker → ℕ → Tx (Option Assignment)
lease_next_run services worker now =
    if budget_stops services
    then after_event (system_event "guardrail.blocked" none) (return none)
    else if length worker.capabilities == 0
    then return none
    else dispatch_next services worker now
