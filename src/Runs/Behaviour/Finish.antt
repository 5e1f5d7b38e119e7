-- ===== src/Runs/Behaviour/Finish.antt =====
-- Completion and forced cancellation.
use mac_bennet.Prelude.{
  ℕ, ◌≡◌, ◌⊎◌, ◌∙◌, refl, ap, true, false, inl, inr, List, [], ◌∷◌, Option, none, some,
}
use mac_bennet.Protocol.Enums.{
  RunStatus, RunOutcome, AcceptanceState, StopReason, is_terminal_run_status,
}
use mac_bennet.Runs.Lifecycle.{can_transition}
use mac_bennet.Runs.Lifecycle.Paths.{can_transition-cancelled}
use mac_bennet.Runs.Db.{
  Run, Actor, AuditEvent, Db, Error, Outcome, ◌>>=◌, get_run, return, worker_actor,
}
use mac_bennet.Runs.Db.Rows.{get_run-id, get_run-update_run}
use mac_bennet.Runs.Service.{Services, moved}
use mac_bennet.Runs.Service.Approval.{require_that}
use mac_bennet.Runs.Service.Acceptance.{assess_completion}
use mac_bennet.Runs.Service.Progress.{
  CompleteInput, is_owned_by, close_run, complete_run, finish_run, complete_patch,
  completion_target, completion_event, is_guardrail_stop,
}
use mac_bennet.Runs.Service.Cancel.{force_cancel, force_patch, free_worker}
use mac_bennet.Runs.Behaviour.Transition.{
  bind-ok, bind-err, require_run-found, transition_event, transition-permitted, transition-refused,
  after_transition,
}

-- The run of this key has ended with this status, and is this worker's.
record IsFinished (id worker_id : ℕ) (status : RunStatus) (db : Db) : Type 0 where
  row : Run
  found : get_run id db.runs ≡ some row
  same : row.status ≡ status
  ended : is_terminal_run_status row.status ≡ true
  owned : is_owned_by row worker_id ≡ true

free_worker-runs :
    (w : Option ℕ) (db : Db) → (d : Db) × (free_worker w db ≡ Outcome.ok tt d) × (d.runs ≡ db.runs)
unfolding free_worker
free_worker-runs none db = (_, refl, refl)
free_worker-runs (some w) db = (_, refl, refl)

-- A run that has not ended can always be cancelled by force: the call returns its row, which is
-- then cancelled, has no lease, and is the row found under the key.
pub force_cancel-total :
    (id : ℕ) (actor : Actor) (now : ℕ) (db : Db) (r : Run)
    → get_run id db.runs ≡ some r
    → is_terminal_run_status r.status ≡ false
    → (row : Run) × (d : Db) × (force_cancel id actor now db ≡ Outcome.ok row d)
      × (get_run id d.runs ≡ some row)
      × (row.status ≡ RunStatus.cancelled)
      × (row.lease_expires_at ≡ none)
unfolding force_cancel require_that ◌>>=◌ return force_patch
force_cancel-total id actor now db r e is_open =
    let c = can_transition-cancelled r.status is_open in
    let mid =
      after_transition id RunStatus.cancelled actor "run.force_cancelled" (force_patch actor now)
        now db r in
    let freed = free_worker-runs r.worker_id mid in
    (
      moved (force_patch actor now) RunStatus.cancelled now r,
      freed.0,
      rw (bind-ok _ _ db (require_run-found id db r e), is_open)
          (rw
            (bind-ok _ _ db (
              transition-permitted id RunStatus.cancelled actor "run.force_cancelled"
                (force_patch actor now) now db r e c))
            (rw (bind-ok _ _ mid (freed.1)) refl)),
      rw (freed.2) (
          get_run-update_run id (moved (force_patch actor now) RunStatus.cancelled now) db.runs r e
            (get_run-id id db.runs r e)),
      refl,
      refl,
    )

stopped_target :
    (s : AcceptanceState) (r : Run) (input : CompleteInput)
    → (r.stop_reason ≡ some StopReason.overnight_cutoff)
      ⊎ (r.stop_reason ≡ some StopReason.budget_exhausted)
    → input.outcome ≡ RunOutcome.cancelled
    → completion_target s r input.outcome ≡ RunStatus.stopped_by_guardrail
unfolding completion_target is_guardrail_stop
stopped_target s r input (inl e) o = rw (o, e, completion_target, is_guardrail_stop) refl
stopped_target s r input (inr e) o = rw (o, e, completion_target, is_guardrail_stop) refl

finish_run-refused :
    (s : AcceptanceState) (r : Run) (id worker_id : ℕ) (input : CompleteInput) (now : ℕ) (db : Db)
    → get_run id db.runs ≡ some r
    → (from to : RunStatus) → r.status ≡ from
    → completion_target s r input.outcome ≡ to
    → can_transition from to ≡ false
    → finish_run s r id worker_id input now db
      ≡ Outcome.err (Error.invalid_transition from to) (
          transition_event r
            (completion_target s r input.outcome)
            (worker_actor worker_id)
            "run.transition_rejected"
          ∷ [])
unfolding finish_run
finish_run-refused s r id worker_id input now db e from to is_from is_to c =
    let target = completion_target s r input.outcome in
    bind-err _ _ db (
      transition-refused id target (worker_actor worker_id) (completion_event s r input.outcome)
        (complete_patch s r input now) now db r e (rw (is_to, is_from) c))
    ∙ ap
        (λ x.
          Outcome.err x
            (transition_event r target (worker_actor worker_id) "run.transition_rejected" ∷ []))
        (rw (is_to, is_from) refl)

-- A worker that acknowledges a stop at the cutoff or the budget while its run is in self-review
-- gets `INVALID_TRANSITION`: the table has no change from `self_review` to
-- `stopped_by_guardrail`.
pub complete_run-self_review_stuck :
    (s : Services) (id worker_id now : ℕ) (input : CompleteInput) (db : Db) (r : Run)
    → get_run id db.runs ≡ some r
    → is_owned_by r worker_id ≡ true
    → r.status ≡ RunStatus.self_review
    → (r.stop_reason ≡ some StopReason.overnight_cutoff)
      ⊎ (r.stop_reason ≡ some StopReason.budget_exhausted)
    → input.outcome ≡ RunOutcome.cancelled
    → (l : List AuditEvent) × (complete_run s id worker_id input now db ≡ (
      Outcome.err (Error.invalid_transition RunStatus.self_review RunStatus.stopped_by_guardrail) l,
      db,
    ))
unfolding complete_run assess_completion close_run require_that is_terminal_run_status
    can_transition ◌>>=◌ finish_run
complete_run-self_review_stuck s id worker_id now input db r e owned at_review reason o =
    let no_review : AcceptanceState = AcceptanceState.not_assessed in
    let target = stopped_target no_review r input reason o in
    let is_open : is_terminal_run_status r.status ≡ false = ap is_terminal_run_status at_review in
    let l =
      transition_event r (completion_target no_review r input.outcome) (worker_actor worker_id)
        "run.transition_rejected"
      ∷ [] in
    let closed : close_run no_review id worker_id input now db
        ≡ Outcome.err
            (Error.invalid_transition RunStatus.self_review RunStatus.stopped_by_guardrail) l =
      rw (bind-ok _ _ db (require_run-found id db r e), owned, is_open)
        (finish_run-refused no_review r id worker_id input now db e RunStatus.self_review
          RunStatus.stopped_by_guardrail at_review target refl) in
    let silent : assess_completion s id input.outcome now db ≡ (no_review, db) =
      ap (λ x. assess_completion s id x now db) o in
    (l, ap (λ v. (close_run v.0 id worker_id input now v.1, v.1)) silent ∙ ap (λ x. (x, db)) closed)
