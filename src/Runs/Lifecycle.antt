-- ===== src/Runs/Lifecycle.antt =====
-- apps/server/src/domain/run-lifecycle.ts: the table of permitted status changes.
pub mod Paths
use mac_bennet.Prelude.{◌≡◌, Bool, List, [], ◌∷◌}
use mac_bennet.Protocol.Enums.{RunStatus, includes_status}

unfoldable pub run_transitions : RunStatus → List RunStatus
run_transitions RunStatus.draft =
    RunStatus.discovery ∷ RunStatus.ready_for_approval ∷ RunStatus.cancelled ∷ []
run_transitions RunStatus.discovery =
    RunStatus.ready_for_approval ∷ RunStatus.blocked ∷ RunStatus.draft ∷ RunStatus.cancelled ∷ []
run_transitions RunStatus.ready_for_approval =
    RunStatus.approved ∷ RunStatus.draft ∷ RunStatus.cancelled ∷ []
run_transitions RunStatus.approved =
    RunStatus.queued ∷ RunStatus.cancelled ∷ RunStatus.stopped_by_guardrail ∷ []
run_transitions RunStatus.queued =
    RunStatus.running ∷ RunStatus.cancelled ∷ RunStatus.stopped_by_guardrail ∷ []
run_transitions RunStatus.running =
    RunStatus.blocked ∷ RunStatus.self_review ∷ RunStatus.ready_for_human_review
    ∷ RunStatus.completed ∷ RunStatus.completed_with_gaps ∷ RunStatus.failed ∷ RunStatus.cancelled
    ∷ RunStatus.stopped_by_guardrail ∷ []
run_transitions RunStatus.blocked =
    RunStatus.running ∷ RunStatus.cancelled ∷ RunStatus.stopped_by_guardrail ∷ RunStatus.failed ∷ []
run_transitions RunStatus.self_review =
    RunStatus.ready_for_human_review ∷ RunStatus.running ∷ RunStatus.completed
    ∷ RunStatus.completed_with_gaps ∷ RunStatus.failed ∷ RunStatus.cancelled ∷ []
run_transitions RunStatus.ready_for_human_review =
    RunStatus.completed ∷ RunStatus.completed_with_gaps ∷ RunStatus.running ∷ RunStatus.cancelled
    ∷ []
run_transitions RunStatus.completed = []
run_transitions RunStatus.completed_with_gaps = []
run_transitions RunStatus.stopped_by_guardrail = []
run_transitions RunStatus.cancelled = []
run_transitions RunStatus.failed = []

unfoldable pub can_transition : RunStatus → RunStatus → Bool
unfolding run_transitions
can_transition from to = includes_status (run_transitions from) to

abbrev pub immediately_cancellable : List RunStatus
immediately_cancellable =
    RunStatus.draft ∷ RunStatus.discovery ∷ RunStatus.ready_for_approval ∷ RunStatus.approved
    ∷ RunStatus.queued ∷ []

abbrev pub requires_worker_cancel : List RunStatus
requires_worker_cancel = RunStatus.running ∷ RunStatus.blocked ∷ RunStatus.self_review ∷ []
