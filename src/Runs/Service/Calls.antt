-- ===== src/Runs/Service/Calls.antt =====
-- The operations as calls on the database, each in its transaction, and a history of calls. Every
-- call has the state of the other services and the time at which it is made. A completion is one
-- call, or a review (which the worker's routes also ask for) and, after other calls, the transaction
-- with whatever state the review answered.
use mac_bennet.Prelude.{ℕ, Bool, List, [], ◌∷◌, Option}
use mac_bennet.Protocol.Enums.{AcceptanceState, StopReason}
use mac_bennet.Runs.Db.{Actor, Db, Text, commit}
use mac_bennet.Runs.Service.{Services}
use mac_bennet.Runs.Service.Approval.{
  CreateRunRequest, create_run, submit_for_approval, approve_run, reject_run,
}
use mac_bennet.Runs.Service.Night.{NightSelection, start_selected_task}
use mac_bennet.Runs.Service.Dispatch.{LeasingWorker, lease_next_run}
use mac_bennet.Runs.Service.Acceptance.{review_acceptance}
use mac_bennet.Runs.Service.Progress.{
  ProgressInput, CompleteInput, record_progress, close_run, complete_run, enter_self_review,
}
use mac_bennet.Runs.Service.Cancel.{request_cancel, force_cancel, stop_runs_past_overnight_cutoff}

pub data Call : Type 0 where
  creates : CreateRunRequest → Actor → Call
  submits : ℕ → Actor → Call
  approves : ℕ → Option Text → Bool → Actor → Call
  rejects : ℕ → Text → Actor → Call
  starts : NightSelection → Call
  leases : LeasingWorker → Call
  progresses : ℕ → ℕ → ProgressInput → Call
  completes : ℕ → ℕ → CompleteInput → Call
  assesses : ℕ → Actor → Call
  closes : AcceptanceState → ℕ → ℕ → CompleteInput → Call
  reviews : ℕ → Actor → Call
  cancels : ℕ → Actor → StopReason → Call
  force_cancels : ℕ → Actor → Call
  sweeps : Call

unfoldable pub step : Services → ℕ → Call → Db → Db
step s now (Call.creates input actor) db = commit (create_run s input actor now db) db
step s now (Call.submits id actor) db = commit (submit_for_approval id actor now db) db
step s now (Call.approves id notes ack actor) db =
    commit (approve_run s id notes ack actor now db) db
step s now (Call.rejects id notes actor) db = commit (reject_run id notes actor now db) db
step s now (Call.starts selection) db = commit (start_selected_task s selection now db) db
step s now (Call.leases worker) db = commit (lease_next_run s worker now db) db
step s now (Call.progresses id w input) db = commit (record_progress id w input now db) db
step s now (Call.completes id w input) db =
    let c = complete_run s id w input now db in commit c.0 c.1
step s now (Call.assesses id actor) db = (review_acceptance s actor id now db).1
step s now (Call.closes state id w input) db = commit (close_run state id w input now db) db
step s now (Call.reviews id actor) db = commit (enter_self_review id actor now db) db
step s now (Call.cancels id actor reason) db = commit (request_cancel id actor reason now db) db
step s now (Call.force_cancels id actor) db = commit (force_cancel id actor now db) db
step s now Call.sweeps db = stop_runs_past_overnight_cutoff now db

unfoldable pub history : List (Services × ℕ × Call) → Db → Db
history [] db = db
history ((s, now, call) ∷ rest) db = history rest (step s now call db)
