-- ===== src/Runs/Behaviour/Clears.antt =====
-- What one request of the cutoff sweep leaves of the run that it is about.
use mac_bennet.Prelude.{
  ℕ, ◌≡◌, ◌∙◌, refl, sym, subst, true, false, Bool, Bool-cases, Option-cases, inl, inr, List, [],
  ◌∷◌, some, is_some, arith, ◌==◌,
}
use mac_bennet.Protocol.Enums.{RunStatus, StopReason, includes_status, is_terminal_run_status}
use mac_bennet.Runs.Lifecycle.{can_transition, immediately_cancellable, requires_worker_cancel}
use mac_bennet.Runs.Db.{
  Run, Db, Error, Outcome, ◌>>=◌, get_run, update_run, require_run, return, commit, system_actor,
  record_event,
}
use mac_bennet.Runs.Db.Rows.{some-inj}
use mac_bennet.Runs.Service.{moved, set_runs}
use mac_bennet.Runs.Service.Approval.{require_that}
use mac_bennet.Runs.Service.Cancel.{
  request_cancel, cancel_any, cancel_in_flight, cancel_now, flag_cancel, cancel_now_patch,
  cancel_flag_patch, cancel_target, cancel_event, is_past_cutoff,
}
use mac_bennet.Runs.Behaviour.Transition.{
  bind-ok, bind-err, require_run-found, transition-permitted, transition-refused, transition_event,
  after_transition,
}

-- The statuses that the sweep looks for.
swept : RunStatus → Bool
swept s = includes_status (RunStatus.queued ∷ RunStatus.running ∷ RunStatus.blocked ∷ []) s

not_swept : (now : ℕ) (r : Run) → swept r.status ≡ false → is_past_cutoff now r ≡ false
unfolding is_past_cutoff swept
not_swept now r e = rw e refl

asked_passed :
    (now : ℕ) (r : Run) → is_some r.cancel_requested_at ≡ true → is_past_cutoff now r ≡ false
unfolding is_past_cutoff
asked_passed now r e = ground arith

terminal_not_swept : (s : RunStatus) → is_terminal_run_status s ≡ true → swept s ≡ false
unfolding is_terminal_run_status swept
terminal_not_swept RunStatus.draft e = refl
terminal_not_swept s e = ground arith

no_edge_not_swept :
    (s : RunStatus)
    → includes_status immediately_cancellable s ≡ true
    → can_transition s RunStatus.stopped_by_guardrail ≡ false
    → swept s ≡ false
unfolding can_transition swept
no_edge_not_swept RunStatus.draft e c = refl
no_edge_not_swept s e c = ground arith

no_worker_not_swept :
    (s : RunStatus)
    → includes_status immediately_cancellable s ≡ false
    → includes_status requires_worker_cancel s ≡ false
    → swept s ≡ false
unfolding swept
no_worker_not_swept RunStatus.draft e c = refl
no_worker_not_swept s e c = ground arith

stopped_not_swept : swept RunStatus.stopped_by_guardrail ≡ false
unfolding swept
stopped_not_swept = refl

-- `d` is `db` with at most the row of this key changed, and that is not past its cutoff.
pub record Clears (id now : ℕ) (db d : Db) : Type 0 where
  pub write : Run → Run
  pub written : d.runs ≡ update_run id write db.runs
  pub cleared :
      (q : Run)
      → get_run id db.runs ≡ some q
      → ((write q).id ≡ q.id) × (is_past_cutoff now (write q) ≡ false)

update_run-same : (id : ℕ) (rs : List Run) → update_run id (λ r. r) rs ≡ rs
unfolding update_run
update_run-same id [] = refl
update_run-same id (r ∷ rs) = elim (Bool-cases (r.id == id)) [
  | inl e ↦ rw e refl
  | inr e ↦ rw (e, update_run-same id rs) refl
]

unchanged :
    (id now : ℕ) (db d : Db)
    → d.runs ≡ db.runs
    → ((q : Run) → get_run id db.runs ≡ some q → is_past_cutoff now q ≡ false)
    → Clears id now db d
unchanged id now db d e k = record {
  write = λ r. r;
  written = e ∙ sym (update_run-same id db.runs);
  cleared = λ q f. (refl, k q f);
}

module _ (id now : ℕ) (db : Db) (q : Run) where
  cancel_now_ok :
      get_run id db.runs ≡ some q
      → can_transition q.status RunStatus.stopped_by_guardrail ≡ true
      → cancel_now id system_actor StopReason.overnight_cutoff now db
        ≡ Outcome.ok tt (
            after_transition id RunStatus.stopped_by_guardrail system_actor
              "run.stopped_by_guardrail"
              (cancel_now_patch system_actor StopReason.overnight_cutoff now)
              now
              db
              q)
  unfolding cancel_now cancel_target cancel_event return
  cancel_now_ok e edge = bind-ok _ _ db (
      transition-permitted id RunStatus.stopped_by_guardrail system_actor "run.stopped_by_guardrail"
        (cancel_now_patch system_actor StopReason.overnight_cutoff now) now db q e edge)

  cancel_now_err :
      get_run id db.runs ≡ some q
      → can_transition q.status RunStatus.stopped_by_guardrail ≡ false
      → cancel_now id system_actor StopReason.overnight_cutoff now db
        ≡ Outcome.err (Error.invalid_transition q.status RunStatus.stopped_by_guardrail) (
            transition_event q RunStatus.stopped_by_guardrail system_actor "run.transition_rejected"
            ∷ [])
  unfolding cancel_now cancel_target cancel_event
  cancel_now_err e edge = bind-err _ _ db (
      transition-refused id RunStatus.stopped_by_guardrail system_actor "run.stopped_by_guardrail"
        (cancel_now_patch system_actor StopReason.overnight_cutoff now) now db q e edge)

-- The request of the sweep, on the row that is found.
cancel_any-Clears :
    (id now : ℕ) (db : Db) (q : Run)
    → get_run id db.runs ≡ some q
    → is_terminal_run_status q.status ≡ false
    → Clears id now db (commit (cancel_any q id system_actor StopReason.overnight_cutoff now db) db)
unfolding cancel_any cancel_in_flight flag_cancel require_that ◌>>=◌ return set_runs record_event
    commit cancel_flag_patch cancel_now_patch cancel_target
cancel_any-Clears id now db q e is_open =
    elim (Bool-cases (includes_status immediately_cancellable q.status)) [
      | inl early ↦ elim (Bool-cases (can_transition q.status RunStatus.stopped_by_guardrail)) [
        | inl edge ↦
            rw (early, cancel_now_ok id now db q e edge)
              (record {
                write =
                    moved (cancel_now_patch system_actor StopReason.overnight_cutoff now)
                      RunStatus.stopped_by_guardrail now;
                written = refl;
                cleared = λ x f. (refl, not_swept now _ stopped_not_swept);
              })
        | inr no_edge ↦
            rw (early, cancel_now_err id now db q e no_edge)
              (unchanged id now db _ refl λ x f. not_swept now x (
                subst (λ y. swept y.status ≡ false) (some-inj (sym e ∙ f))
                  (no_edge_not_swept q.status early no_edge)))
      ]
      | inr late ↦ elim (Bool-cases (includes_status requires_worker_cancel q.status)) [
        | inr idle ↦
            rw (late, idle)
              (unchanged id now db _ refl λ x f. not_swept now x (
                subst (λ y. swept y.status ≡ false) (some-inj (sym e ∙ f))
                  (no_worker_not_swept q.status late idle)))
        | inl held ↦ elim (Bool-cases (is_some q.cancel_requested_at)) [
          | inl asked ↦
              rw (late, held, asked)
                (unchanged id now db _ refl λ x f.
                  asked_passed now x (
                    subst (λ y. is_some y.cancel_requested_at ≡ true) (some-inj (sym e ∙ f)) asked))
          | inr fresh ↦
              rw (late, held, fresh)
                (record {
                  write = cancel_flag_patch system_actor StopReason.overnight_cutoff now;
                  written = refl;
                  cleared = λ x f. (refl, asked_passed now _ refl);
                })
        ]
      ]
    ]

pub request_cancel-Clears :
    (id now : ℕ) (db : Db)
    → Clears id now db
        (commit (request_cancel id system_actor StopReason.overnight_cutoff now db) db)
unfolding request_cancel require_that ◌>>=◌ commit require_run
request_cancel-Clears id now db = elim (Option-cases (get_run id db.runs)) [
  | inl e ↦ rw (e, request_cancel, ◌>>=◌) (unchanged id now db _ refl λ q f. cc (e, f))
  | inr (q, e) ↦ elim (Bool-cases (is_terminal_run_status q.status)) [
    | inl ended ↦
        rw (bind-ok _ _ db (require_run-found id db q e), ended)
          (unchanged id now db _ refl λ x f. not_swept now x (
            subst (λ y. swept y.status ≡ false) (some-inj (sym e ∙ f))
              (terminal_not_swept q.status ended)))
    | inr is_open ↦
        rw (bind-ok _ _ db (require_run-found id db q e), is_open)
          (cancel_any-Clears id now db q e is_open)
  ]
]
