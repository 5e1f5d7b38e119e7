-- ===== src/Runs/Moves/Targets.antt =====
-- The statuses in which a run ends are terminal, whichever way it ends.
use mac_bennet.Prelude.{◌≡◌, ◌⊎◌, inl, inr, refl, true, false, Bool, if◌then◌else◌, ap}
use mac_bennet.Protocol.Enums.{
  RunStatus, RunOutcome, AcceptanceState, StopReason, is_terminal_run_status,
}
use mac_bennet.Runs.Db.{Run}
use mac_bennet.Runs.Service.Progress.{
  completion_target, is_guardrail_stop, is_gapped, outcome_to_status,
}
use mac_bennet.Runs.Service.Cancel.{cancel_target}

choose :
    (a b : Bool) (o : RunOutcome)
    → is_terminal_run_status (
        if a
        then RunStatus.stopped_by_guardrail
        else if b
        then RunStatus.completed_with_gaps
        else outcome_to_status o)
      ≡ true
unfolding is_terminal_run_status outcome_to_status
choose true b o = refl
choose false true o = refl
choose false false RunOutcome.succeeded = refl
choose false false RunOutcome.failed = refl
choose false false RunOutcome.cancelled = refl

pub completion_target-terminal :
    (s : AcceptanceState) (r : Run) (o : RunOutcome)
    → is_terminal_run_status (completion_target s r o) ≡ true
unfolding completion_target
completion_target-terminal s r o = choose (is_guardrail_stop r o) (is_gapped s o) o

pub cancel_target-terminal :
    (reason : StopReason) → is_terminal_run_status (cancel_target reason) ≡ true
unfolding cancel_target is_terminal_run_status
cancel_target-terminal StopReason.cancelled_by_user = refl
cancel_target-terminal reason = refl

pub refuse_target-terminal :
    {to : RunStatus}
    → (to ≡ RunStatus.stopped_by_guardrail) ⊎ (to ≡ RunStatus.failed)
    → is_terminal_run_status to ≡ true
unfolding is_terminal_run_status
refuse_target-terminal (inl e) = ap (λ x. is_terminal_run_status x) e
refuse_target-terminal (inr e) = ap (λ x. is_terminal_run_status x) e
