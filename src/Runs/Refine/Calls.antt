-- ===== src/Runs/Refine/Calls.antt =====
-- Every call, and so every history of calls, is a sequence of moves.
use mac_bennet.Prelude.{ℕ, List, [], ◌∷◌}
use mac_bennet.Runs.Db.{Db}
use mac_bennet.Runs.Moves.Evolve.{Evolves-trans}
use mac_bennet.Runs.Service.{Services}
use mac_bennet.Runs.Service.Calls.{Call, step, history}
use mac_bennet.Runs.Refine.{From, HasKeys, from_start, commit_rule}
use mac_bennet.Runs.Refine.Approval.{
  create_run-moves, submit_for_approval-moves, approve_run-moves, reject_run-moves,
  start_selected_task-moves,
}
use mac_bennet.Runs.Refine.Dispatch.{lease_next_run-moves}
use mac_bennet.Runs.Refine.Progress.{
  record_progress-moves, close_run-moves, complete_run-moves, review_acceptance-moves,
  enter_self_review-moves,
}
use mac_bennet.Runs.Refine.Cancel.{
  request_cancel-moves, force_cancel-moves, stop_runs_past_overnight_cutoff-moves,
}

-- Whatever the call, the time and the state of the other services, a call turns the runs table
-- into another by moves of the abstract machine, and keeps the keys in order.
pub step-moves :
    (s : Services) (now : ℕ) (call : Call) (db : Db)
    → HasKeys db
    → From db.runs (step s now call db)
unfolding step
step-moves s now (Call.creates input actor) db k =
    commit_rule _ db k (create_run-moves s input actor now db k)
step-moves s now (Call.submits id actor) db k =
    commit_rule _ db k (submit_for_approval-moves id actor now db k)
step-moves s now (Call.approves id notes ack actor) db k =
    commit_rule _ db k (approve_run-moves s id notes ack actor now db k)
step-moves s now (Call.rejects id notes actor) db k =
    commit_rule _ db k (reject_run-moves id notes actor now db k)
step-moves s now (Call.starts selection) db k =
    commit_rule _ db k (start_selected_task-moves s selection now db k)
step-moves s now (Call.leases worker) db k =
    commit_rule _ db k (lease_next_run-moves s worker now db k)
step-moves s now (Call.progresses id w input) db k =
    commit_rule _ db k (record_progress-moves id w input now db k)
step-moves s now (Call.completes id w input) db k = complete_run-moves s id w input now db k
step-moves s now (Call.assesses id actor) db k = review_acceptance-moves s actor id now db k
step-moves s now (Call.closes state id w input) db k =
    commit_rule _ db k (close_run-moves state id w input now db k)
step-moves s now (Call.reviews id actor) db k =
    commit_rule _ db k (enter_self_review-moves id actor now db k)
step-moves s now (Call.cancels id actor reason) db k =
    commit_rule _ db k (request_cancel-moves id actor reason now db k)
step-moves s now (Call.force_cancels id actor) db k =
    commit_rule _ db k (force_cancel-moves id actor now db k)
step-moves s now Call.sweeps db k = stop_runs_past_overnight_cutoff-moves now db k

-- From a database whose run keys are in order, every history of calls, whatever the times and
-- the state of the other services, turns the runs table into another by moves of the abstract
-- machine only, each under the facts that permit it, and keeps the keys in order.
pub history-moves :
    (calls : List (Services × ℕ × Call)) (db : Db) → HasKeys db → From db.runs (history calls db)
unfolding history
history-moves [] db k = from_start k
history-moves ((s, now, call) ∷ rest) db k =
    let first = step-moves s now call db k in
    let later = history-moves rest (step s now call db) first.keyed in
    record { evolved = Evolves-trans first.evolved later.evolved; keyed = later.keyed }
