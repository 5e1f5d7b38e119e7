-- ===== src/Runs/Invariant/Status.antt =====
-- What a move does to the status of its run.
use mac_bennet.Prelude.{◌≡◌, ◌∙◌, ◌⊎◌, refl, true, false, Bool-cases, inl, inr, arith, ap}
use mac_bennet.Protocol.Enums.{RunStatus, includes_status, is_terminal_run_status}
use mac_bennet.Runs.Lifecycle.{can_transition, requires_worker_cancel}
use mac_bennet.Runs.Lifecycle.Paths.{StatusPath, here, then, is_terminal-can_transition}
use mac_bennet.Runs.Db.{Run}
use mac_bennet.Runs.Moves.{Move}
use mac_bennet.Runs.Service.Acceptance.{assess_patch}
use mac_bennet.Runs.Moves.Fields.{patches}

pub can_transition-open :
    (s t : RunStatus) → can_transition s t ≡ true → is_terminal_run_status s ≡ false
can_transition-open s t c = elim (Bool-cases (is_terminal_run_status s)) [
  | inl e ↦ cc (c, (is_terminal-can_transition s).0 e t)
  | inr e ↦ e
]

in_flight-open :
    (s : RunStatus)
    → includes_status requires_worker_cancel s ≡ true
    → is_terminal_run_status s ≡ false
unfolding is_terminal_run_status
in_flight-open RunStatus.draft e = refl
in_flight-open s e = ground arith

-- Nothing but the acceptance review's state, and the time of the update, is another.
abbrev pub IsReviewed : Run → Run → Type 0
IsReviewed r s = s ≡ record r { acceptance_state = s.acceptance_state; updated_at = s.updated_at }

pub IsReviewed-trans : (r s t : Run) → IsReviewed r s → IsReviewed s t → IsReviewed r t
IsReviewed-trans r s t h k =
    k
    ∙ ap {A = Run} {B = Run}
        (λ x. record x { acceptance_state = t.acceptance_state; updated_at = t.updated_at }) h

-- No move but a review starts from a run that has ended.
pub Move-open : (r s : Run) → Move r s → (is_terminal_run_status r.status ≡ false) ⊎ IsReviewed r s
unfolding is_terminal_run_status assess_patch
Move-open r s (Move.submit t c) = inl (can_transition-open r.status _ c)
Move-open r s (Move.approve t p a b band o g c) = inl (can_transition-open r.status _ c)
Move-open r s (Move.queue t d c) = inl (can_transition-open r.status _ c)
Move-open r s (Move.reject t c) = inl (can_transition-open r.status _ c)
Move-open r s (Move.dispatch t w d c) = inl (can_transition-open r.status _ c)
Move-open r s (Move.refuse t reason to e q c) = inl (can_transition-open r.status _ c)
Move-open r s (Move.progress t i e) = inl (ap (λ x. is_terminal_run_status x) e)
Move-open r s (Move.assess t a) = inr refl
Move-open r s (Move.complete t sv i c) = inl (can_transition-open r.status _ c)
Move-open r s (Move.review t c) = inl (can_transition-open r.status _ c)
Move-open r s (Move.cancel t actor reason c e) = inl (can_transition-open r.status _ c)
Move-open r s (Move.flag t actor reason e f) = inl (in_flight-open r.status e)
Move-open r s (Move.force t actor c) = inl (can_transition-open r.status _ c)
Move-open r s (Move.submit_by_policy t c) = inl (can_transition-open r.status _ c)
Move-open r s (Move.approve_by_policy t e c) = inl (can_transition-open r.status _ c)
Move-open r s (Move.queue_by_policy t c) = inl (can_transition-open r.status _ c)

-- A move makes at most one change of the table.
pub Move-StatusPath : (r s : Run) → Move r s → StatusPath r.status s.status
unfolding patches
Move-StatusPath r s (Move.submit t c) = then here c
Move-StatusPath r s (Move.approve t p a b band o g c) = then here c
Move-StatusPath r s (Move.queue t d c) = then here c
Move-StatusPath r s (Move.reject t c) = then here c
Move-StatusPath r s (Move.dispatch t w d c) = then here c
Move-StatusPath r s (Move.refuse t reason to e q c) = then here c
Move-StatusPath r s (Move.progress t i e) = here
Move-StatusPath r s (Move.assess t a) = here
Move-StatusPath r s (Move.complete t sv i c) = then here c
Move-StatusPath r s (Move.review t c) = then here c
Move-StatusPath r s (Move.cancel t actor reason c e) = then here c
Move-StatusPath r s (Move.flag t actor reason e f) = here
Move-StatusPath r s (Move.force t actor c) = then here c
Move-StatusPath r s (Move.submit_by_policy t c) = then here c
Move-StatusPath r s (Move.approve_by_policy t e c) = then here c
Move-StatusPath r s (Move.queue_by_policy t c) = then here c
