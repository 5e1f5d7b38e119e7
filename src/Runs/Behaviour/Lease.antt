-- ===== src/Runs/Behaviour/Lease.antt =====
-- What holds when a worker is handed an assignment.
use mac_bennet.Prelude.{
  ℕ, ◌+◌, ◌++◌, ◌≡◌, ◌&&◌, ◌==◌, not, refl, true, false, Bool-cases, Option-cases, inl, inr, List,
  [], ◌∷◌, Option, none, some, String, length,
}
use mac_bennet.Protocol.Enums.{RunStatus, StopReason}
use mac_bennet.Protocol.Jobs.{JobSpec, is_general_job_kind, requires_approved_repository}
use mac_bennet.Runs.Guardrails.{GuardrailResult, check_job_allowed}
use mac_bennet.Runs.Db.{Run, AuditEvent, Db, Outcome, ◌>>=◌, get_run, return, record_event}
use mac_bennet.Runs.Db.Rows.{get_run-update_run}
use mac_bennet.Runs.Moves.{IsDispatchable}
use mac_bennet.Runs.Service.{Services, GeneralBuild, lease_ms, moved}
use mac_bennet.Runs.Service.Dispatch.{
  LeasingWorker, Assignment, select_candidate, budget_stops, dispatch_check, dispatch_checked,
  refuse_run, dispatch_patch, mark_started, lease_candidate, dispatch_job, dispatch_built,
  dispatch_general, dispatch_candidate, offer_run, after_event, dispatch_next, lease_next_run,
  withholds_coding, effective_capabilities, system_event,
}
use mac_bennet.Runs.Refine.{HasKeys}
use mac_bennet.Runs.Refine.Selection.{select_candidate-found, selectable-IsDispatchable}
use mac_bennet.Runs.Refine.Dispatch.{check_cases}
use mac_bennet.Runs.Behaviour.Transition.{Returns, returned, failed, Returns-ok, Returns-transition}

-- The run of the table that was handed out, and the row that it became.
pub record IsLease (s : Services) (worker : LeasingWorker) (capabilities : List String) (now : ℕ)
    (rs : List Run) (a : Assignment) (d : Db) : Type 0 where
  pub before : Run
  pub named : before.id ≡ a.run_id
  pub found : get_run before.id rs ≡ some before
  pub ready : IsDispatchable now before
  pub allowed : check_job_allowed s.safe_parse before.job_kind before.job_params ≡ some a.job
  pub checked : dispatch_check s capabilities before now ≡ GuardrailResult.ok
  pub stored :
      get_run before.id d.runs
      ≡ some (moved (dispatch_patch worker.id now before) RunStatus.running now before)
  pub lease : a.lease_expires_at ≡ now + lease_ms

-- Either nothing was handed out, or a lease.
abbrev pub IsOffer :
    Services → LeasingWorker → List String → ℕ → List Run → Option Assignment → Db → Type 0
IsOffer s worker capabilities now rs o d = elim o [
  | none ↦ Unit {0}
  | some a ↦ IsLease s worker capabilities now rs a d
]

module _ (s : Services) (worker : LeasingWorker) (capabilities : List String) (now : ℕ) (db : Db)
    (r : Run) (found : get_run r.id db.runs ≡ some r) (ready : IsDispatchable now r) where
  refuse-Returns :
      (to : RunStatus) (event_type : String) (reason : StopReason)
      → Returns
          (IsOffer s worker capabilities now db.runs)
          (refuse_run r to event_type reason now db)
  unfolding refuse_run return
  refuse-Returns to event_type reason = Returns-transition _ _ _ _ _ _ _ _ r found λ c. returned tt

  lease-Returns :
      (job : JobSpec)
      → check_job_allowed s.safe_parse r.job_kind r.job_params ≡ some job
      → dispatch_check s capabilities r now ≡ GuardrailResult.ok
      → Returns (IsOffer s worker capabilities now db.runs) (lease_candidate worker r job now db)
  unfolding lease_candidate mark_started return dispatch_patch ◌>>=◌
  lease-Returns job allowed checked =
      Returns-transition r.id RunStatus.running _ _ (dispatch_patch worker.id now r) now _ db r
        found
        λ c. returned (record {
          before = r;
          named = refl;
          found = found;
          ready = ready;
          allowed = allowed;
          checked = checked;
          stored =
              get_run-update_run r.id (moved (dispatch_patch worker.id now r) RunStatus.running now)
                db.runs r found refl;
          lease = refl;
        })

  checked-Returns :
      (job : JobSpec)
      → check_job_allowed s.safe_parse r.job_kind r.job_params ≡ some job
      → Returns
          (IsOffer s worker capabilities now db.runs)
          (dispatch_checked s worker capabilities r job now db)
  unfolding dispatch_checked record_event return ◌>>=◌
  checked-Returns job allowed = elim (check_cases (dispatch_check s capabilities r now)) [
    | inl e ↦ rw (e, dispatch_checked) (lease-Returns job allowed e)
    | inr (code, e) ↦ rw (e, dispatch_checked) (returned tt)
  ]

  job-Returns :
      Returns
        (IsOffer s worker capabilities now db.runs)
        (dispatch_job s worker capabilities r now db)
  unfolding dispatch_job
  job-Returns = elim (Option-cases (check_job_allowed s.safe_parse r.job_kind r.job_params)) [
    | inl e ↦ rw (e, dispatch_job) (refuse-Returns _ _ _)
    | inr (job, e) ↦ rw (e, dispatch_job) (checked-Returns job e)
  ]

  built-Returns :
      (b : GeneralBuild)
      → Returns
          (IsOffer s worker capabilities now db.runs)
          (dispatch_built s worker capabilities r now b db)
  unfolding dispatch_built
  built-Returns GeneralBuild.built = job-Returns
  built-Returns GeneralBuild.provider_required = refuse-Returns _ _ _
  built-Returns GeneralBuild.build_failed = refuse-Returns _ _ _

  candidate-Returns :
      Returns
        (IsOffer s worker capabilities now db.runs)
        (dispatch_candidate s worker capabilities now (some r) db)
  unfolding dispatch_candidate dispatch_general
  candidate-Returns =
      elim (Bool-cases (requires_approved_repository r.job_kind && not (s.builds_coding r))) [
        | inl e ↦ rw (e, dispatch_candidate) (refuse-Returns _ _ _)
        | inr e ↦ elim (Bool-cases (is_general_job_kind r.job_kind)) [
          | inl g ↦ rw (e, dispatch_candidate, g) (built-Returns _)
          | inr g ↦ rw (e, dispatch_candidate, g) job-Returns
        ]
      ]

IsOffer-Returns :
    (s : Services) (worker : LeasingWorker) (capabilities : List String) (now : ℕ) (db : Db)
    → HasKeys db
    → Returns (IsOffer s worker capabilities now db.runs) (offer_run s worker capabilities now db)
unfolding offer_run dispatch_candidate return
IsOffer-Returns s worker capabilities now db keys = elim (Bool-cases (length capabilities == 0)) [
  | inl e ↦ rw (e, offer_run) (returned tt)
  | inr e ↦ elim (Option-cases (select_candidate s capabilities now db)) [
    | inl f ↦ rw (e, f, offer_run) (returned tt)
    | inr (r, f) ↦
        let k = select_candidate-found s capabilities now db r keys f in
        rw (e, f, offer_run)
          (candidate-Returns s worker capabilities now db r k.0
            (selectable-IsDispatchable s capabilities now db r k.1))
  ]
]

event-Returns :
    {A : Type 0} {R : A → Db → Type 0} (event : AuditEvent) (o : Outcome A)
    → Returns R o
    → Returns R
        (elim o [ Outcome.ok a db ↦ Outcome.ok a db | Outcome.err x l ↦ Outcome.err x (event ∷ l) ])
event-Returns event (Outcome.ok a db) h = h
event-Returns event (Outcome.err x l) h = failed

lease_next_run-Returns :
    (s : Services) (worker : LeasingWorker) (now : ℕ) (db : Db)
    → HasKeys db
    → budget_stops s ≡ false
    → Returns
        (IsOffer s worker (effective_capabilities s worker) now db.runs)
        (lease_next_run s worker now db)
unfolding lease_next_run dispatch_next after_event return
lease_next_run-Returns s worker now db keys in_budget =
    elim (Bool-cases (length worker.capabilities == 0)) [
      | inl e ↦ rw (in_budget, e, lease_next_run) (returned tt)
      | inr e ↦ elim (Bool-cases (withholds_coding s worker)) [
        | inl f ↦
            rw (in_budget, e, f, lease_next_run)
              (event-Returns _ _
                (IsOffer-Returns s worker (effective_capabilities s worker) now _ keys))
        | inr f ↦
            rw (in_budget, e, f, lease_next_run)
              (IsOffer-Returns s worker (effective_capabilities s worker) now db keys)
      ]
    ]

-- Once the budget is spent to its stop level nothing is handed out, whatever is queued: only the
-- audit trail is written.
pub lease_next_run-over_budget :
    (s : Services) (worker : LeasingWorker) (now : ℕ) (db : Db)
    → budget_stops s ≡ true
    → lease_next_run s worker now db
      ≡ Outcome.ok none
          (record db { audit = db.audit ++ (system_event "guardrail.blocked" none ∷ []) })
unfolding lease_next_run after_event return
lease_next_run-over_budget s worker now db e = rw e refl

-- If the run keys are in order, a worker is handed an assignment only while the budget does not
-- stop dispatch. It gets a run of the table that was queued, approved, not asked to stop and
-- before its deadline, whose job is allowed and which passes every guardrail for the
-- capabilities that the worker may use. The run is stored as running, with this worker, one
-- attempt more and a lease of 120 seconds.
pub lease_next_run-ok :
    (s : Services) (worker : LeasingWorker) (now : ℕ) (db d : Db) (a : Assignment)
    → HasKeys db
    → lease_next_run s worker now db ≡ Outcome.ok (some a) d
    → (budget_stops s ≡ false) × IsLease s worker (effective_capabilities s worker) now db.runs a d
lease_next_run-ok s worker now db d a keys e = elim (Bool-cases (budget_stops s)) [
  | inl over ↦ cc (e, lease_next_run-over_budget s worker now db over)
  | inr in_budget ↦
      (in_budget, Returns-ok (lease_next_run-Returns s worker now db keys in_budget) e)
]
