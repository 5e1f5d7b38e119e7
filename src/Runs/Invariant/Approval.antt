-- ===== src/Runs/Invariant/Approval.antt =====
-- Nothing beyond `ready_for_approval` without an approval.
use mac_bennet.Prelude.{
  ℕ, ◌≡◌, true, false, List, [], ◌∷◌, All, arith, ◌⊎◌, ap, unless, given, inl, refl,
}
use mac_bennet.Protocol.Enums.{RunStatus, ApprovalState, includes_status, is_terminal_run_status}
use mac_bennet.Runs.Lifecycle.{can_transition}
use mac_bennet.Runs.Db.{Run, Db}
use mac_bennet.Runs.Moves.{Move}
use mac_bennet.Runs.Moves.Fields.{patches}
use mac_bennet.Runs.Moves.Targets.{
  completion_target-terminal, cancel_target-terminal, refuse_target-terminal,
}
use mac_bennet.Runs.Service.{Services}
use mac_bennet.Runs.Service.Calls.{Call, history}
use mac_bennet.Runs.Refine.{HasKeys}
use mac_bennet.Runs.Invariant.{history-All}

-- The statuses of work that was, is or may be handed to a worker.
abbrev pub needs_approval : List RunStatus
needs_approval =
    RunStatus.approved ∷ RunStatus.queued ∷ RunStatus.running ∷ RunStatus.blocked
    ∷ RunStatus.self_review ∷ RunStatus.ready_for_human_review ∷ RunStatus.completed
    ∷ RunStatus.completed_with_gaps ∷ RunStatus.stopped_by_guardrail ∷ RunStatus.failed ∷ []

abbrev pub IsAuthorised : Run → Type 0
IsAuthorised r =
    (includes_status needs_approval r.status ≡ false) ⊎ (r.approval_state ≡ ApprovalState.approved)

-- The same as an implication.
abbrev Approved : Run → Type 0
Approved r =
    includes_status needs_approval r.status ≡ true → r.approval_state ≡ ApprovalState.approved

-- An edge into these statuses starts in one of them, but for that of the approval and of a block.
needs_approval-can_transition :
    (s t : RunStatus)
    → can_transition s t ≡ true
    → includes_status needs_approval t ≡ true
    → includes_status (RunStatus.approved ∷ RunStatus.blocked ∷ []) t ≡ false
    → includes_status needs_approval s ≡ true
unfolding can_transition
needs_approval-can_transition RunStatus.draft t e n g = ground arith
needs_approval-can_transition s t e n g = ground arith

ends-keep :
    (s t : RunStatus)
    → is_terminal_run_status t ≡ true
    → can_transition s t ≡ true
    → includes_status needs_approval t ≡ true
    → includes_status needs_approval s ≡ true
unfolding is_terminal_run_status
ends-keep s RunStatus.draft e c n = cc
ends-keep s t e c n = ground (arith, needs_approval-can_transition s t c n)

Approved-keep : (r s : Run) → Move r s → Approved r → Approved s
unfolding patches
Approved-keep r s (Move.submit t c) h n = cc
Approved-keep r s (Move.approve t p a b band o g c) h n = refl
Approved-keep r s (Move.queue t d c) h n = h (needs_approval-can_transition r.status _ c refl refl)
Approved-keep r s (Move.reject t c) h n = cc
Approved-keep r s (Move.dispatch t w d c) h n =
    h (needs_approval-can_transition r.status _ c refl refl)
Approved-keep r s (Move.refuse t reason to e q c) h n =
    h (ends-keep r.status to (refuse_target-terminal e) c n)
Approved-keep r s (Move.progress t i e) h n = h n
Approved-keep r s (Move.assess t a) h n = h n
Approved-keep r s (Move.complete t sv i c) h n =
    h (ends-keep r.status _ (completion_target-terminal sv r i.outcome) c n)
Approved-keep r s (Move.review t c) h n = h (needs_approval-can_transition r.status _ c refl refl)
Approved-keep r s (Move.cancel t actor reason c e) h n =
    h (ends-keep r.status _ (cancel_target-terminal reason) c n)
Approved-keep r s (Move.flag t actor reason e f) h n = h n
Approved-keep r s (Move.force t actor c) h n = cc
Approved-keep r s (Move.submit_by_policy t c) h n = cc
Approved-keep r s (Move.approve_by_policy t e c) h n = e
Approved-keep r s (Move.queue_by_policy t c) h n =
    h (needs_approval-can_transition r.status _ c refl refl)

IsAuthorised-keep : (r s : Run) → Move r s → IsAuthorised r → IsAuthorised s
IsAuthorised-keep r s m h =
    unless (includes_status needs_approval s.status) (Approved-keep r s m (given h))

-- Let the run keys be in order, and let each run that is approved, queued, in work, under
-- review, completed, failed or stopped by a guardrail have the approval state `approved`. Then
-- this is so after every history of calls.
pub history-IsAuthorised :
    (calls : List (Services × ℕ × Call)) (db : Db)
    → HasKeys db
    → All IsAuthorised db.runs
    → All IsAuthorised (history calls db).runs
history-IsAuthorised calls db keys h =
    history-All IsAuthorised (λ r new. inl (ap (includes_status needs_approval) new.drafted))
      IsAuthorised-keep calls db keys h
