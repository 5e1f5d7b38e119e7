-- ===== src/Runs/Db.antt =====
-- The rows of apps/server/src/db/schema.ts that the run service reads and writes, the database
-- transaction as a monad, and the writes of services/audit.ts. Identifiers are numbers, instants
-- are milliseconds, free text is its UTF-16 code units.
pub mod Rows
pub mod Text
use mac_bennet.Prelude.{
  ℕ, String, Bool, false, List, [], ◌∷◌, ◌++◌, Option, none, some, ◌==◌, if◌then◌else◌,
}
use mac_bennet.Protocol.Enums.{
  RunStatus, ApprovalState, AcceptanceState, ApprovalAction, ExecutionMode, WorkerStatus,
  TaskStatus, TaskPriority, ActorType, StopReason,
}
use mac_bennet.Protocol.Jobs.{Json}
use mac_bennet.Runs.Guardrails.{GuardrailCode}
use mac_bennet.Runs.Confidence.{ApprovalCode}

abbrev pub Text : Type 0
Text = List ℕ

-- `confidence` is the number of thousandths in its `numeric(4,3)` column.
pub record Run : Type 0 where
  pub id : ℕ
  pub task_id : ℕ
  pub status : RunStatus
  pub approval_state : ApprovalState
  pub acceptance_state : AcceptanceState
  pub confidence : Option ℕ
  pub job_kind : String
  pub job_params : Json
  pub execution_mode : ExecutionMode
  pub overnight_deadline_at : Option ℕ
  pub repository_id : Option ℕ
  pub worker_id : Option ℕ
  pub progress_percent : ℕ
  pub progress_stage : Option String
  pub summary : Option Text
  pub cancel_requested_at : Option ℕ
  pub cancel_requested_by : Option ℕ
  pub stop_reason : Option StopReason
  pub started_at : Option ℕ
  pub completed_at : Option ℕ
  pub lease_expires_at : Option ℕ
  pub attempt : ℕ
  pub company_context_revision_id : Option ℕ
  pub created_by : Option ℕ
  pub created_at : ℕ
  pub updated_at : ℕ

-- A task with its project's `isActive`.
pub record Task : Type 0 where
  pub id : ℕ
  pub status : TaskStatus
  pub priority : TaskPriority
  pub project_active : Bool

pub record Worker : Type 0 where
  pub id : ℕ
  pub status : WorkerStatus
  pub current_run_id : Option ℕ

pub record Repository : Type 0 where
  pub id : ℕ
  pub is_approved : Bool

pub record Approval : Type 0 where
  pub run_id : ℕ
  pub action : ApprovalAction
  pub approver_user_id : Option ℕ
  pub notes : Option Text
  pub confidence_at_decision : Option ℕ
  pub threshold_at_decision : Option ℕ
  pub threshold_overridden : Bool

pub record Actor : Type 0 where
  pub kind : ActorType
  pub id : Option ℕ

pub record AuditEvent : Type 0 where
  pub actor : Actor
  pub event_type : String
  pub run_id : Option ℕ
  pub from_status : Option RunStatus
  pub to_status : Option RunStatus

pub record Db : Type 0 where
  pub runs : List Run
  pub tasks : List Task
  pub workers : List Worker
  pub repositories : List Repository
  pub approvals : List Approval
  pub audit : List AuditEvent
  pub next_run_id : ℕ

pub data Error : Type 0 where
  not_found forbidden project_inactive run_not_running run_already_finished : Error
  run_not_cancellable context_unavailable : Error
  invalid_transition : RunStatus → RunStatus → Error
  confidence_refused : ApprovalCode → Error
  guardrail : GuardrailCode → Error

abbrev pub system_actor : Actor
system_actor = record { kind = ActorType.system; id = none }

abbrev pub worker_actor : ℕ → Actor
worker_actor w = record { kind = ActorType.worker; id = some w }

-- A transaction returns a value and the new state, or throws. The events beside an error are those
-- of `recordRejection`, written on another connection: they survive the rollback.
pub data Outcome (A : Type 0) : Type 0 where
  ok : A → Db → Outcome A
  err : Error → List AuditEvent → Outcome A

abbrev pub Tx : Type 0 → Type 0
Tx A = Db → Outcome A

infixl 5 ◌>>=◌ ◌>>◌
unfoldable pub ◌>>=◌ : {A B : Type 0} → Tx A → (A → Tx B) → Tx B
◌>>=◌ m f db = elim (m db) [ Outcome.ok a db' ↦ f a db' | Outcome.err e l ↦ Outcome.err e l ]

abbrev pub ◌>>◌ : {B : Type 0} → Tx (Unit {0}) → Tx B → Tx B
m >> k = m >>= λ _. k

unfoldable pub return : {A : Type 0} → A → Tx A
return a db = Outcome.ok a db

unfoldable pub throw : {A : Type 0} → Error → Tx A
throw e db = Outcome.err e []

-- `db.transaction(...)`: the state after it. A throw rolls back all but the rejection events.
unfoldable pub commit : {A : Type 0} → Outcome A → Db → Db
commit (Outcome.ok a db') db = db'
commit (Outcome.err e l) db = record db { audit = db.audit ++ l }

-- `record(tx, ...)`: the audit trail only grows.
unfoldable pub record_event : AuditEvent → Tx (Unit {0})
record_event e db = Outcome.ok tt (record db { audit = db.audit ++ (e ∷ []) })

-- The row with this primary key.
unfoldable pub get_run : ℕ → List Run → Option Run
get_run id [] = none
get_run id (r ∷ rs) = if r.id == id then some r else get_run id rs

-- `update(runs).set(...).where(eq(runs.id, id))`
unfoldable pub update_run : ℕ → (Run → Run) → List Run → List Run
update_run id f [] = []
update_run id f (r ∷ rs) = if r.id == id then f r ∷ rs else r ∷ update_run id f rs

unfoldable pub get_task : ℕ → List Task → Option Task
get_task id [] = none
get_task id (t ∷ ts) = if t.id == id then some t else get_task id ts

unfoldable pub update_task : ℕ → (Task → Task) → List Task → List Task
update_task id f [] = []
update_task id f (t ∷ ts) = if t.id == id then f t ∷ ts else t ∷ update_task id f ts

unfoldable pub update_worker : ℕ → (Worker → Worker) → List Worker → List Worker
update_worker id f [] = []
update_worker id f (w ∷ ws) = if w.id == id then f w ∷ ws else w ∷ update_worker id f ws

-- The approval flag of a joined repository row; a missing row joins as none.
unfoldable pub repository_approved : ℕ → List Repository → Bool
repository_approved id [] = false
repository_approved id (r ∷ rs) = if r.id == id then r.is_approved else repository_approved id rs

-- `select().from(runs).where(eq(runs.id, id)).for('update')`, and the throw if there is none.
unfoldable pub require_run : ℕ → Tx Run
require_run id db = elim (get_run id db.runs) [
  | none ↦ Outcome.err Error.not_found []
  | some r ↦ Outcome.ok r db
]
