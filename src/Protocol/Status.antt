-- ===== src/Protocol/Status.antt =====
-- A status is determined by its position, so the Boolean comparison decides equality.
use mac_bennet.Prelude.{ℕ, zero, suc, List, [], ◌∷◌, ◌≡◌, refl, sym, ◌∙◌, ap, true, ==_iff}
use mac_bennet.Protocol.Enums.{RunStatus, status_index, same_status}

-- `RUN_STATUSES`
abbrev pub run_statuses : List RunStatus
run_statuses =
    RunStatus.draft ∷ RunStatus.discovery ∷ RunStatus.ready_for_approval ∷ RunStatus.approved
    ∷ RunStatus.queued ∷ RunStatus.running ∷ RunStatus.blocked ∷ RunStatus.self_review
    ∷ RunStatus.ready_for_human_review ∷ RunStatus.completed ∷ RunStatus.completed_with_gaps
    ∷ RunStatus.stopped_by_guardrail ∷ RunStatus.cancelled ∷ RunStatus.failed ∷ []

abbrev nth_status : List RunStatus → ℕ → RunStatus
nth_status [] n = RunStatus.failed
nth_status (s ∷ l) zero = s
nth_status (s ∷ l) (suc n) = nth_status l n

abbrev status_at : ℕ → RunStatus
status_at n = nth_status run_statuses n

status_at-status_index : (s : RunStatus) → status_at (status_index s) ≡ s
status_at-status_index RunStatus.draft = refl
status_at-status_index s = refl

pub same_status_eq : (a b : RunStatus) → same_status a b ≡ true → a ≡ b
same_status_eq a b h =
    sym (status_at-status_index a)
    ∙ ap status_at ((==_iff (status_index a) (status_index b)).0 h)
    ∙ status_at-status_index b
