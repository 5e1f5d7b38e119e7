-- ===== src/Runs/Refine/Dispatch.antt =====
-- `leaseNextRun`: each way in which the call ends is at most one move of the selected row.
use mac_bennet.Prelude.{
  ℕ, ◌≡◌, ◌⊎◌, ◌++◌, ◌==◌, ◌&&◌, refl, inl, inr, subst, String, true, not, List, [], ◌∷◌, Option,
  none, some, length, Bool-cases, Option-cases,
}
use mac_bennet.Protocol.Enums.{RunStatus, StopReason}
use mac_bennet.Protocol.Jobs.{JobSpec, is_general_job_kind, requires_approved_repository}
use mac_bennet.Runs.Lifecycle.{can_transition}
use mac_bennet.Runs.Guardrails.{GuardrailCode, GuardrailResult, check_job_allowed}
use mac_bennet.Runs.Db.{Run, AuditEvent, Db, Outcome, Tx, return, get_run}
use mac_bennet.Runs.Moves.{Move, IsDispatchable, dispatch, refuse}
use mac_bennet.Runs.Service.{Services, GeneralBuild, moved}
use mac_bennet.Runs.Service.Dispatch.{
  LeasingWorker, refuse_run, refuse_patch, dispatch_patch, mark_started, lease_candidate,
  dispatch_check, dispatch_checked, dispatch_job, dispatch_general, dispatch_candidate,
  dispatch_built, offer_run, after_event, dispatch_next, budget_stops, lease_next_run,
  withholds_coding,
}
use mac_bennet.Runs.Refine.{
  Ensures, done, threw, From, HasKeys, from_start, bind_rule, transition_rule, return_rule,
  record_event_rule, found_same,
}
use mac_bennet.Runs.Refine.Selection.{select_candidate-found, selectable-IsDispatchable}

-- The lookup that a step of the call starts from.
record Candidate (now : ℕ) (db : Db) (r : Run) : Type 0 where
  found : get_run r.id db.runs ≡ some r
  ready : IsDispatchable now r

refuse_run-moves :
    (candidate : Run) (to : RunStatus) (event_type : String) (reason : StopReason) (now : ℕ)
    (db : Db)
    → (to ≡ RunStatus.stopped_by_guardrail) ⊎ (to ≡ RunStatus.failed)
    → HasKeys db
    → Candidate now db candidate
    → Ensures (From db.runs) (refuse_run candidate to event_type reason now db)
unfolding refuse_run
refuse_run-moves candidate to event_type reason now db target keys c =
    bind_rule (From db.runs) _ _ _
      (transition_rule _ _ _ _ _ (refuse_patch reason now) _ _
        (λ q e t.
          refuse now reason to target
            (subst (λ x. x.status ≡ RunStatus.queued) (found_same _ _ c.found e) c.ready.queued) t)
        (from_start keys))
      λ _ _ h. return_rule _ _ h

lease_candidate-moves :
    (worker : LeasingWorker) (candidate : Run) (job : JobSpec) (now : ℕ) (db : Db)
    → HasKeys db
    → Candidate now db candidate
    → Ensures (From db.runs) (lease_candidate worker candidate job now db)
unfolding lease_candidate mark_started
lease_candidate-moves worker candidate job now db keys c =
    bind_rule (From db.runs) _ _ _
      (transition_rule _ _ _ _ _ (dispatch_patch worker.id now candidate) _ _
        (λ q e.
          subst
            (λ x.
              can_transition x.status RunStatus.running ≡ true
              → Move x (moved (dispatch_patch worker.id now candidate) RunStatus.running now x))
            (found_same _ _ c.found e) (dispatch now worker.id c.ready))
        (from_start keys))
      λ r d h.
        bind_rule (From db.runs) _ _ _ (done tt (record { evolved = h.evolved; keyed = h.keyed }))
          λ _ _ k. return_rule _ _ k

kept_outcome :
    {A : Type 0} {R : Db → Type 0} (event : AuditEvent) (o : Outcome A)
    → Ensures R o
    → Ensures R
        (elim o [ Outcome.ok a db ↦ Outcome.ok a db | Outcome.err x l ↦ Outcome.err x (event ∷ l) ])
kept_outcome event (Outcome.ok a db) h = h
kept_outcome event (Outcome.err x l) h = threw _ _

-- An event written before `m` is in the trail, whatever `m` does to the runs.
after_event-moves :
    {A : Type 0} (event : AuditEvent) (m : Tx A) (db : Db)
    → HasKeys db
    → ((d : Db) → HasKeys d → Ensures (From d.runs) (m d))
    → Ensures (From db.runs) (after_event event m db)
unfolding after_event
after_event-moves event m db keys k =
    kept_outcome event (m (record db { audit = db.audit ++ (event ∷ []) })) (k _ keys)

pub check_cases :
    (g : GuardrailResult)
    → (g ≡ GuardrailResult.ok) ⊎ ((c : GuardrailCode) × (g ≡ GuardrailResult.refused c))
check_cases GuardrailResult.ok = inl refl
check_cases (GuardrailResult.refused c) = inr (c, refl)

dispatch_checked-moves :
    (s : Services) (worker : LeasingWorker) (capabilities : List String) (candidate : Run)
    (job : JobSpec) (now : ℕ) (db : Db)
    → HasKeys db
    → Candidate now db candidate
    → Ensures (From db.runs) (dispatch_checked s worker capabilities candidate job now db)
unfolding dispatch_checked
dispatch_checked-moves s worker capabilities candidate job now db keys c =
    let R = From db.runs in
    elim (check_cases (dispatch_check s capabilities candidate now)) [
      | inl e ↦ rw (e, dispatch_checked) (lease_candidate-moves worker candidate job now db keys c)
      | inr (code, e) ↦
          rw (e, dispatch_checked)
            (bind_rule R _ _ _ (record_event_rule _ _ _ (from_start keys))
              λ _ _ h. return_rule _ _ h)
    ]

dispatch_job-moves :
    (s : Services) (worker : LeasingWorker) (capabilities : List String) (candidate : Run) (now : ℕ)
    (db : Db)
    → HasKeys db
    → Candidate now db candidate
    → Ensures (From db.runs) (dispatch_job s worker capabilities candidate now db)
unfolding dispatch_job
dispatch_job-moves s worker capabilities candidate now db keys c =
    elim (Option-cases (check_job_allowed s.safe_parse candidate.job_kind candidate.job_params)) [
      | inl e ↦ rw (e, dispatch_job) (refuse_run-moves candidate _ _ _ now db (inr refl) keys c)
      | inr (job, e) ↦
          rw (e, dispatch_job)
            (dispatch_checked-moves s worker capabilities candidate job now db keys c)
    ]

dispatch_built-moves :
    (s : Services) (worker : LeasingWorker) (capabilities : List String) (candidate : Run) (now : ℕ)
    (b : GeneralBuild) (db : Db)
    → HasKeys db
    → Candidate now db candidate
    → Ensures (From db.runs) (dispatch_built s worker capabilities candidate now b db)
unfolding dispatch_built
dispatch_built-moves s worker capabilities candidate now GeneralBuild.built db keys c =
    dispatch_job-moves s worker capabilities candidate now db keys c
dispatch_built-moves s worker capabilities candidate now GeneralBuild.provider_required db keys c =
    refuse_run-moves candidate _ _ _ now db (inl refl) keys c
dispatch_built-moves s worker capabilities candidate now GeneralBuild.build_failed db keys c =
    refuse_run-moves candidate _ _ _ now db (inr refl) keys c

dispatch_general-moves :
    (s : Services) (worker : LeasingWorker) (capabilities : List String) (candidate : Run) (now : ℕ)
    (db : Db)
    → HasKeys db
    → Candidate now db candidate
    → Ensures (From db.runs) (dispatch_general s worker capabilities candidate now db)
unfolding dispatch_general
dispatch_general-moves s worker capabilities candidate now db keys c =
    elim (Bool-cases (is_general_job_kind candidate.job_kind)) [
      | inl e ↦
          rw (e, dispatch_general)
            (dispatch_built-moves s worker capabilities candidate now _ db keys c)
      | inr e ↦
          rw (e, dispatch_general)
            (dispatch_job-moves s worker capabilities candidate now db keys c)
    ]

dispatch_candidate-moves :
    (s : Services) (worker : LeasingWorker) (capabilities : List String) (now : ℕ) (o : Option Run)
    (db : Db)
    → HasKeys db
    → ((r : Run) → o ≡ some r → Candidate now db r)
    → Ensures (From db.runs) (dispatch_candidate s worker capabilities now o db)
unfolding dispatch_candidate
dispatch_candidate-moves s worker capabilities now none db keys c =
    return_rule _ _ (from_start keys)
dispatch_candidate-moves s worker capabilities now (some r) db keys c =
    elim (Bool-cases (requires_approved_repository r.job_kind && not (s.builds_coding r))) [
      | inl e ↦
          rw (e, dispatch_candidate) (refuse_run-moves r _ _ _ now db (inl refl) keys (c r refl))
      | inr e ↦
          rw (e, dispatch_candidate)
            (dispatch_general-moves s worker capabilities r now db keys (c r refl))
    ]

offer_run-moves :
    (s : Services) (worker : LeasingWorker) (capabilities : List String) (now : ℕ) (db : Db)
    → HasKeys db
    → Ensures (From db.runs) (offer_run s worker capabilities now db)
unfolding offer_run
offer_run-moves s worker capabilities now db keys = elim (Bool-cases (length capabilities == 0)) [
  | inl e ↦ rw (e, offer_run) (done none (from_start keys))
  | inr e ↦
      rw (e, offer_run)
        (dispatch_candidate-moves s worker capabilities now _ db keys λ r e.
          let f = select_candidate-found s capabilities now db r keys e in
          record { found = f.0; ready = selectable-IsDispatchable s capabilities now db r f.1 })
]

dispatch_next-moves :
    (s : Services) (worker : LeasingWorker) (now : ℕ) (db : Db)
    → HasKeys db
    → Ensures (From db.runs) (dispatch_next s worker now db)
unfolding dispatch_next
dispatch_next-moves s worker now db keys = elim (Bool-cases (withholds_coding s worker)) [
  | inl e ↦
      rw (e, dispatch_next)
        (after_event-moves _ _ db keys λ d k. offer_run-moves s worker _ now d k)
  | inr e ↦ rw (e, dispatch_next) (offer_run-moves s worker _ now db keys)
]

pub lease_next_run-moves :
    (s : Services) (worker : LeasingWorker) (now : ℕ) (db : Db)
    → HasKeys db
    → Ensures (From db.runs) (lease_next_run s worker now db)
unfolding lease_next_run
lease_next_run-moves s worker now db keys = elim (Bool-cases (budget_stops s)) [
  | inl e ↦
      rw (e, lease_next_run)
        (after_event-moves _ (return none) db keys λ d k. return_rule _ _ (from_start k))
  | inr e ↦ elim (Bool-cases (length worker.capabilities == 0)) [
    | inl f ↦ rw (e, f, lease_next_run) (return_rule _ _ (from_start keys))
    | inr f ↦ rw (e, f, lease_next_run) (dispatch_next-moves s worker now db keys)
  ]
]
