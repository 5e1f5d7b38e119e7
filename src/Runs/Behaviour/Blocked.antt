-- ===== src/Runs/Behaviour/Blocked.antt =====
-- A queued run whose job is not allowed cannot be refused.
use mac_bennet.Prelude.{ℕ, ◌≡◌, ◌∙◌, ◌&&◌, not, refl, ap, false, [], ◌∷◌, none, some, length, ◌==◌}
use mac_bennet.Protocol.Enums.{RunStatus, StopReason}
use mac_bennet.Protocol.Jobs.{is_general_job_kind, requires_approved_repository}
use mac_bennet.Runs.Lifecycle.{can_transition}
use mac_bennet.Runs.Guardrails.{check_job_allowed}
use mac_bennet.Runs.Db.{Run, Db, Error, Outcome, get_run, commit, system_actor}
use mac_bennet.Runs.Service.{Services}
use mac_bennet.Runs.Service.Calls.{Call, step}
use mac_bennet.Runs.Service.Dispatch.{
  LeasingWorker, select_candidate, budget_stops, refuse_run, refuse_patch, dispatch_job,
  dispatch_general, dispatch_candidate, offer_run, dispatch_next, lease_next_run, withholds_coding,
  effective_capabilities,
}
use mac_bennet.Runs.Refine.{HasKeys}
use mac_bennet.Runs.Refine.Selection.{select_candidate-found, selectable-IsDispatchable}
use mac_bennet.Runs.Behaviour.Transition.{bind-err, transition-refused, transition_event}

refuse_run-failed :
    (r : Run) (reason : StopReason) (now : ℕ) (db : Db)
    → get_run r.id db.runs ≡ some r
    → r.status ≡ RunStatus.queued
    → refuse_run r RunStatus.failed "run.failed" reason now db
      ≡ Outcome.err
          (Error.invalid_transition RunStatus.queued RunStatus.failed)
          (transition_event r RunStatus.failed system_actor "run.transition_rejected" ∷ [])
unfolding refuse_run can_transition
refuse_run-failed r reason now db e q =
    bind-err _ _ db (
      transition-refused r.id RunStatus.failed system_actor "run.failed" (refuse_patch reason now)
        now db r e (ap (λ x. can_transition x RunStatus.failed) q))
    ∙ ap
        (λ x.
          Outcome.err (Error.invalid_transition x RunStatus.failed)
            (transition_event r RunStatus.failed system_actor "run.transition_rejected" ∷ []))
        q

-- Let the run keys be in order, the budget not stop dispatch, and the worker have capabilities
-- of which none is withheld. When the selected run needs no general assignment, its coding
-- assignment can be built if it needs one, and its job is not allowed, leasing throws
-- `INVALID_TRANSITION`: the table has no change from `queued` to `failed`. The runs stay as they
-- were, so that run is in the way of the next call too.
pub lease_next_run-blocked :
    (s : Services) (worker : LeasingWorker) (now : ℕ) (db : Db) (r : Run)
    → HasKeys db
    → budget_stops s ≡ false
    → (length worker.capabilities == 0) ≡ false
    → withholds_coding s worker ≡ false
    → select_candidate s worker.capabilities now db ≡ some r
    → (requires_approved_repository r.job_kind && not (s.builds_coding r)) ≡ false
    → is_general_job_kind r.job_kind ≡ false
    → check_job_allowed s.safe_parse r.job_kind r.job_params ≡ none
    → (lease_next_run s worker now db
        ≡ Outcome.err
            (Error.invalid_transition RunStatus.queued RunStatus.failed)
            (transition_event r RunStatus.failed system_actor "run.transition_rejected" ∷ []))
      × ((step s now (Call.leases worker) db).runs ≡ db.runs)
unfolding lease_next_run dispatch_next offer_run dispatch_candidate dispatch_general dispatch_job
    step commit effective_capabilities
lease_next_run-blocked s worker now db r keys in_budget able trusted sel repo kind job =
    let f = select_candidate-found s worker.capabilities now db r keys sel in
    let ready = selectable-IsDispatchable s worker.capabilities now db r f.1 in
    let thrown : lease_next_run s worker now db
        ≡ Outcome.err (Error.invalid_transition RunStatus.queued RunStatus.failed)
            (transition_event r RunStatus.failed system_actor "run.transition_rejected" ∷ []) =
      rw (in_budget, able, trusted, able, sel, repo, kind)
        (rw (job, dispatch_job)
          (refuse_run-failed r StopReason.unsupported_job_kind now db f.0 ready.queued)) in
    (thrown, rw thrown refl)
