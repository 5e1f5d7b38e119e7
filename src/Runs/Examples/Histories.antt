-- ===== src/Runs/Examples/Histories.antt =====
-- The invariants on the history of one night.
use mac_bennet.Prelude.{◌≡◌, refl, All, arith, none, some}
use mac_bennet.Protocol.Enums.{RunStatus}
use mac_bennet.Runs.Db.{Run, get_run}
use mac_bennet.Runs.Service.Calls.{history}
use mac_bennet.Runs.Refine.{From}
use mac_bennet.Runs.Refine.Calls.{history-moves}
use mac_bennet.Runs.Invariant.Records.{Continues, history-Continues}
use mac_bennet.Runs.Invariant.Approval.{IsAuthorised, history-IsAuthorised}
use mac_bennet.Runs.Invariant.Lease.{IsLeased, history-IsLeased}
use mac_bennet.Runs.Invariant.Closing.{IsClosed, history-IsClosed}
use mac_bennet.Runs.Examples.{opened, night, start_db, with_run, queued_run}

history-moves_example : From start_db.runs (history night start_db)
history-moves_example = history-moves night start_db (omega arith)

history-Continues_example :
    (s : Run) × (get_run 0 (history night (with_run queued_run)).runs ≡ some s)
    × Continues queued_run s
unfolding get_run
history-Continues_example =
    history-Continues night (with_run queued_run) 0 queued_run (omega arith, omega arith) refl

history-IsAuthorised_example : All IsAuthorised (history night start_db).runs
history-IsAuthorised_example = history-IsAuthorised night start_db (omega arith) tt

history-IsLeased_example : All IsLeased (history night start_db).runs
history-IsLeased_example = history-IsLeased night start_db (omega arith) tt

history-IsClosed_example : All IsClosed (history night start_db).runs
history-IsClosed_example = history-IsClosed night start_db (omega arith) tt

-- The night ends with the run completed.
night_status : RunStatus
unfolding opened
night_status = elim (get_run 0 (history night start_db).runs) [
  | none ↦ RunStatus.draft
  | some r ↦ r.status
]

night_status_test : night_status ≡ RunStatus.completed
unfolding opened night_status
night_status_test = refl
