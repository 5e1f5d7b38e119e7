-- ===== src/Runs/Behaviour/Assessed.antt =====
-- What the acceptance review before a completion leaves.
use mac_bennet.Prelude.{ℕ, ◌≡◌, ◌⊎◌, refl, inl, inr, Option, none, some}
use mac_bennet.Protocol.Enums.{RunOutcome, AcceptanceState}
use mac_bennet.Runs.Db.{Run, Actor, Db, update_run}
use mac_bennet.Runs.Service.{Services, Review}
use mac_bennet.Runs.Service.Acceptance.{
  assess_patch, persist_review, review_found, review_acceptance, assess_completion,
}

-- What the review before a completion writes: to the runs at most the state of the review of this
-- one, and to no other table but the audit trail.
pub record IsAssessed (id now : ℕ) (outcome : RunOutcome) (d e : Db) : Type 0 where
  pub silent : (outcome ≡ RunOutcome.succeeded) ⊎ (e ≡ d)
  pub runs :
      (e.runs ≡ d.runs)
      ⊎ ((state : AcceptanceState) × (e.runs ≡ update_run id (assess_patch state now) d.runs))
  pub tasks : e.tasks ≡ d.tasks
  pub workers : e.workers ≡ d.workers
  pub approvals : e.approvals ≡ d.approvals

unassessed : (id now : ℕ) (outcome : RunOutcome) (d : Db) → IsAssessed id now outcome d d
unassessed id now outcome d = record {
  silent = inr refl;
  runs = inl refl;
  tasks = refl;
  workers = refl;
  approvals = refl;
}

review_found-IsAssessed :
    (actor : Actor) (id now : ℕ) (d : Db) (v : Option Review) (o : Option Run)
    → IsAssessed id now RunOutcome.succeeded d (review_found actor id now d v o).1
unfolding review_found persist_review
review_found-IsAssessed actor id now d none o = unassessed id now _ d
review_found-IsAssessed actor id now d (some v) none = unassessed id now _ d
review_found-IsAssessed actor id now d (some v) (some r) = record {
  silent = inl refl;
  runs = inr (v.state, refl);
  tasks = refl;
  workers = refl;
  approvals = refl;
}

pub assess_completion-IsAssessed :
    (s : Services) (id : ℕ) (outcome : RunOutcome) (now : ℕ) (d : Db)
    → IsAssessed id now outcome d (assess_completion s id outcome now d).1
unfolding assess_completion review_acceptance
assess_completion-IsAssessed s id RunOutcome.succeeded now d =
    review_found-IsAssessed _ id now d _ _
assess_completion-IsAssessed s id RunOutcome.failed now d = unassessed id now _ d
assess_completion-IsAssessed s id RunOutcome.cancelled now d = unassessed id now _ d
