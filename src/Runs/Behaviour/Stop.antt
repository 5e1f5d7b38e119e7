-- ===== src/Runs/Behaviour/Stop.antt =====
-- Cancellation on request, and the cutoff sweep.
use mac_bennet.Prelude.{ℕ, ◌≡◌, refl, true, false, [], ◌∷◌, none, some, is_some, ◌++◌, arith}
use mac_bennet.Protocol.Enums.{RunStatus, StopReason, includes_status, is_terminal_run_status}
use mac_bennet.Runs.Lifecycle.{immediately_cancellable, requires_worker_cancel}
use mac_bennet.Runs.Db.{Run, Actor, Db, Outcome, ◌>>=◌, get_run, update_run, return}
use mac_bennet.Runs.Db.{record_event}
use mac_bennet.Runs.Service.{set_runs}
use mac_bennet.Runs.Service.Approval.{require_that}
use mac_bennet.Runs.Service.Cancel.{
  request_cancel, cancel_any, cancel_in_flight, flag_cancel, cancel_flag_patch,
}
use mac_bennet.Runs.Behaviour.Transition.{bind-ok, require_run-found}

in_flight_late :
    (s : RunStatus)
    → includes_status requires_worker_cancel s ≡ true
    → (includes_status immediately_cancellable s ≡ false) × (is_terminal_run_status s ≡ false)
unfolding is_terminal_run_status
in_flight_late RunStatus.draft e = cc
in_flight_late s e = ground arith

-- A request to cancel a run that a worker holds and that is already asked to stop succeeds and
-- writes nothing: who asked first, when and why stay.
pub request_cancel-again :
    (id : ℕ) (actor : Actor) (reason : StopReason) (now : ℕ) (db : Db) (r : Run)
    → get_run id db.runs ≡ some r
    → includes_status requires_worker_cancel r.status ≡ true
    → is_some r.cancel_requested_at ≡ true
    → request_cancel id actor reason now db ≡ Outcome.ok tt db
unfolding request_cancel cancel_any cancel_in_flight require_that ◌>>=◌ return
request_cancel-again id actor reason now db r e held asked =
    let k = in_flight_late r.status held in
    rw (bind-ok _ _ db (require_run-found id db r e), k.1, k.0, held, asked) refl

-- The first such request leaves the run with its worker and marks it.
pub request_cancel-first :
    (id : ℕ) (actor : Actor) (reason : StopReason) (now : ℕ) (db : Db) (r : Run)
    → get_run id db.runs ≡ some r
    → includes_status requires_worker_cancel r.status ≡ true
    → is_some r.cancel_requested_at ≡ false
    → (d : Db) × (request_cancel id actor reason now db ≡ Outcome.ok tt d)
      × (d.runs ≡ update_run id (cancel_flag_patch actor reason now) db.runs)
unfolding request_cancel cancel_any cancel_in_flight flag_cancel require_that ◌>>=◌ return set_runs
    record_event
request_cancel-first id actor reason now db r e held asked =
    let k = in_flight_late r.status held in
    (
      record db {
        runs = update_run id (cancel_flag_patch actor reason now) db.runs;
        audit =
            db.audit
            ++ (record {
              actor = actor;
              event_type = "run.cancel_requested";
              run_id = some id;
              from_status = none;
              to_status = none;
            }
                ∷ []);
      },
      rw (bind-ok _ _ db (require_run-found id db r e), k.1, k.0, held, asked) refl,
      refl,
    )
