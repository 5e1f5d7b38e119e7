-- ===== src/Runs/Guardrails.antt =====
-- apps/server/src/domain/guardrails.ts, with `isPastDeadline` of overnight.ts: the dispatch
-- guardrails as predicates. Instants are milliseconds; the messages of refusals are left out.
use mac_bennet.Prelude.{
  ℕ, ◌+◌, ◌*◌, ◌/◌, String, Bool, true, false, Option, none, some, List, [], ◌∷◌, leb, is_some, not,
  if◌then◌else◌,
}
use mac_bennet.Protocol.Enums.{RunStatus, ApprovalState, same_status}
use mac_bennet.Protocol.Jobs.{Json, JobSpec, SafeParse, parse_job_spec, includes}

pub data GuardrailCode : Type 0 where
  run_not_approved run_not_dispatchable job_not_allowed cancel_pending : GuardrailCode
  overnight_cutoff_passed budget_exhausted worker_not_capable : GuardrailCode

pub data GuardrailResult : Type 0 where
  ok : GuardrailResult
  refused : GuardrailCode → GuardrailResult

abbrev pub is_approved : ApprovalState → Bool
is_approved ApprovalState.approved = true
is_approved s = false

unfoldable pub is_past_deadline : ℕ → Option ℕ → Bool
is_past_deadline now none = false
is_past_deadline now (some deadline) = leb deadline now

unfoldable pub check_run_approved : ApprovalState → GuardrailResult
check_run_approved state =
    if not (is_approved state)
    then GuardrailResult.refused GuardrailCode.run_not_approved
    else GuardrailResult.ok

unfoldable pub check_run_dispatchable : RunStatus → GuardrailResult
check_run_dispatchable status =
    if not (same_status status RunStatus.queued)
    then GuardrailResult.refused GuardrailCode.run_not_dispatchable
    else GuardrailResult.ok

unfoldable pub check_job_allowed : SafeParse → String → Json → Option JobSpec
check_job_allowed safe_parse kind params = parse_job_spec safe_parse kind params

unfoldable pub check_no_cancel_pending : Option ℕ → GuardrailResult
check_no_cancel_pending cancel_requested_at =
    if is_some cancel_requested_at
    then GuardrailResult.refused GuardrailCode.cancel_pending
    else GuardrailResult.ok

unfoldable pub check_overnight_cutoff : Option ℕ → ℕ → GuardrailResult
check_overnight_cutoff deadline now =
    if is_past_deadline now deadline
    then GuardrailResult.refused GuardrailCode.overnight_cutoff_passed
    else GuardrailResult.ok

-- All three are whole numbers, as the settings schema has them.
pub record Budget : Type 0 where
  pub recorded_spend_cents : ℕ
  pub nightly_budget_cents : ℕ
  pub budget_stop_pct : ℕ

-- `Math.round((nightlyBudgetCents * budgetStopPct) / 100)`
unfoldable pub stop_at_cents : ℕ → ℕ → ℕ
stop_at_cents nightly pct = (nightly * pct + 50) / 100

unfoldable pub check_budget : Budget → GuardrailResult
check_budget b =
    if leb b.nightly_budget_cents 0
    then GuardrailResult.ok
    else if leb (stop_at_cents b.nightly_budget_cents b.budget_stop_pct) b.recorded_spend_cents
    then GuardrailResult.refused GuardrailCode.budget_exhausted
    else GuardrailResult.ok

unfoldable pub check_worker_capability : List String → String → GuardrailResult
check_worker_capability capabilities kind =
    if not (includes capabilities kind)
    then GuardrailResult.refused GuardrailCode.worker_not_capable
    else GuardrailResult.ok

-- The part of a run that the dispatch check reads.
pub record DispatchRun : Type 0 where
  pub status : RunStatus
  pub approval_state : ApprovalState
  pub cancel_requested_at : Option ℕ
  pub overnight_deadline_at : Option ℕ
  pub job_kind : String
  pub job_params : Json

-- `for (const result of checks) if (!result.ok) return result;`
unfoldable pub first_refusal : List GuardrailResult → GuardrailResult
first_refusal [] = GuardrailResult.ok
first_refusal (GuardrailResult.ok ∷ rest) = first_refusal rest
first_refusal (GuardrailResult.refused code ∷ rest) = GuardrailResult.refused code

unfoldable pub job_result : Option JobSpec → GuardrailResult
job_result none = GuardrailResult.refused GuardrailCode.job_not_allowed
job_result (some spec) = GuardrailResult.ok

unfoldable pub then_job : GuardrailResult → Option JobSpec → GuardrailResult
then_job (GuardrailResult.refused code) spec = GuardrailResult.refused code
then_job GuardrailResult.ok spec = job_result spec

unfoldable pub check_dispatch : SafeParse → DispatchRun → List String → Budget → ℕ → GuardrailResult
check_dispatch safe_parse run capabilities budget now =
    then_job
      (first_refusal (
        check_run_approved run.approval_state
        ∷ check_run_dispatchable run.status
        ∷ check_no_cancel_pending run.cancel_requested_at
        ∷ check_overnight_cutoff run.overnight_deadline_at now
        ∷ check_budget budget
        ∷ check_worker_capability capabilities run.job_kind
        ∷ []))
      (check_job_allowed safe_parse run.job_kind run.job_params)
