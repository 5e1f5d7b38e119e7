-- ===== src/Runs/Refine/Progress.antt =====
-- Progress reports, completion, and the entry into self-review.
use mac_bennet.Prelude.{ℕ, ◌≡◌, refl, true, subst, Option, none, inl, inr, Bool-cases, some}
use mac_bennet.Protocol.Enums.{RunStatus, RunOutcome, AcceptanceState, is_terminal_run_status}
use mac_bennet.Protocol.Status.{same_status_eq}
use mac_bennet.Runs.Lifecycle.{can_transition}
use mac_bennet.Runs.Db.{Run, Actor, Db, get_run, commit}
use mac_bennet.Runs.Moves.{Move, progress, assess, complete, review}
use mac_bennet.Runs.Service.{Services, Review, moved}
use mac_bennet.Runs.Service.Acceptance.{
  review_found, review_acceptance, persist_review, assess_patch, assess_completion,
}
use mac_bennet.Runs.Service.Progress.{
  ProgressInput, CompleteInput, record_progress, progress_patch, same_stage, close_run,
  complete_run, finish_run, complete_patch, completion_target, mark_finished, enter_self_review,
}
use mac_bennet.Runs.Refine.{
  Ensures, done, From, HasKeys, from_start, bind_rule, require_run_rule, require_that_rule,
  transition_rule, return_rule, record_event_rule, set_runs_rule, found_same, change_from,
  From-trans, commit_rule,
}

pub record_progress-moves :
    (id worker_id : ℕ) (input : ProgressInput) (now : ℕ) (db : Db)
    → HasKeys db
    → Ensures (From db.runs) (record_progress id worker_id input now db)
unfolding record_progress
record_progress-moves id worker_id input now db keys =
    let R = From db.runs in
    require_run_rule _ _ _ λ r found. require_that_rule _ _ _ _ λ _.
      require_that_rule _ _ _ _ λ is_running.
        bind_rule R _ _ _
          (set_runs_rule _ _ (progress_patch input now) _ r (from_start keys) found
            (progress now input (same_status_eq r.status RunStatus.running is_running)))
          λ _ _ h. elim (Bool-cases (same_stage r.progress_stage input.stage)) [
            | inl e ↦ rw e (return_rule _ _ h)
            | inr e ↦ rw e (record_event_rule _ _ _ h)
          ]

finish_run-moves :
    (s : AcceptanceState) (run : Run) (id worker_id : ℕ) (input : CompleteInput) (now : ℕ) (db : Db)
    → HasKeys db
    → get_run id db.runs ≡ some run
    → Ensures (From db.runs) (finish_run s run id worker_id input now db)
unfolding finish_run mark_finished
finish_run-moves s run id worker_id input now db keys found =
    let R = From db.runs in
    bind_rule R _ _ _
      (transition_rule _ _ _ _ _ (complete_patch s run input now) _ _
        (λ q e.
          subst
            (λ x.
              can_transition x.status (completion_target s run input.outcome) ≡ true
              → Move x (
                  moved (complete_patch s run input now) (completion_target s run input.outcome) now
                    x))
            (found_same _ _ found e) (complete now s input))
        (from_start keys))
      λ _ _ h.
        bind_rule R _ _ _ (done tt (record { evolved = h.evolved; keyed = h.keyed }))
          λ _ _ k. return_rule _ _ k

pub close_run-moves :
    (s : AcceptanceState) (id worker_id : ℕ) (input : CompleteInput) (now : ℕ) (db : Db)
    → HasKeys db
    → Ensures (From db.runs) (close_run s id worker_id input now db)
unfolding close_run
close_run-moves s id worker_id input now db keys = require_run_rule _ _ _ λ run found.
    require_that_rule _ _ _ _ λ _. elim (Bool-cases (is_terminal_run_status run.status)) [
      | inl e ↦ rw e (return_rule _ _ (from_start keys))
      | inr e ↦ rw e (finish_run-moves s run id worker_id input now db keys found)
    ]

review_found-moves :
    (actor : Actor) (id now : ℕ) (db : Db) (v : Option Review) (o : Option Run)
    → HasKeys db
    → get_run id db.runs ≡ o
    → From db.runs (review_found actor id now db v o).1
unfolding review_found persist_review
review_found-moves actor id now db none o keys found = from_start keys
review_found-moves actor id now db (some v) none keys found = from_start keys
review_found-moves actor id now db (some v) (some r) keys found =
    change_from db.runs id (assess_patch v.state now) db _ r (from_start keys) found
      (assess now v.state) refl refl

pub review_acceptance-moves :
    (s : Services) (actor : Actor) (id now : ℕ) (db : Db)
    → HasKeys db
    → From db.runs (review_acceptance s actor id now db).1
unfolding review_acceptance
review_acceptance-moves s actor id now db keys = review_found-moves actor id now db _ _ keys refl

assess_completion-moves :
    (s : Services) (id : ℕ) (outcome : RunOutcome) (now : ℕ) (db : Db)
    → HasKeys db
    → From db.runs (assess_completion s id outcome now db).1
unfolding assess_completion
assess_completion-moves s id RunOutcome.succeeded now db keys =
    review_acceptance-moves s _ id now db keys
assess_completion-moves s id RunOutcome.failed now db keys = from_start keys
assess_completion-moves s id RunOutcome.cancelled now db keys = from_start keys

pub complete_run-moves :
    (s : Services) (id worker_id : ℕ) (input : CompleteInput) (now : ℕ) (db : Db)
    → HasKeys db
    → let c = complete_run s id worker_id input now db in From db.runs (commit c.0 c.1)
unfolding complete_run
complete_run-moves s id worker_id input now db keys =
    let first = assess_completion-moves s id input.outcome now db keys in
    let reviewed = assess_completion s id input.outcome now db in
    From-trans first (
      commit_rule _ reviewed.1 first.keyed
        (close_run-moves reviewed.0 id worker_id input now reviewed.1 first.keyed))

pub enter_self_review-moves :
    (id : ℕ) (actor : Actor) (now : ℕ) (db : Db)
    → HasKeys db
    → Ensures (From db.runs) (enter_self_review id actor now db)
unfolding enter_self_review
enter_self_review-moves id actor now db keys =
    transition_rule _ _ _ _ _ (λ r. r) _ _ (λ r _ c. review now c) (from_start keys)
