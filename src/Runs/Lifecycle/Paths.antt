-- ===== src/Runs/Lifecycle/Paths.antt =====
-- Sequences of permitted status changes.
use mac_bennet.Prelude.{◌≡◌, ◌↔◌, refl, ap, true, false, arith}
use mac_bennet.Protocol.Enums.{RunStatus, is_terminal_run_status}
use mac_bennet.Runs.Lifecycle.{can_transition}

-- `to` is reached from `from` by changes of the table.
pub data StatusPath (from : RunStatus) : RunStatus → Type 0 where
  here : StatusPath from from
  then : {s to : RunStatus} → StatusPath from s → can_transition s to ≡ true → StatusPath from to

pub StatusPath-trans : {a b c : RunStatus} → StatusPath a b → StatusPath b c → StatusPath a c
StatusPath-trans p here = p
StatusPath-trans p (then q e) = then (StatusPath-trans p q) e

-- A status is terminal exactly when the table has no change out of it.
pub is_terminal-can_transition :
    (s : RunStatus)
    → (is_terminal_run_status s ≡ true) ↔ ((t : RunStatus) → can_transition s t ≡ false)
unfolding can_transition is_terminal_run_status
is_terminal-can_transition RunStatus.completed = ((λ h t. refl), λ h. refl)
is_terminal-can_transition RunStatus.completed_with_gaps = ((λ h t. refl), λ h. refl)
is_terminal-can_transition RunStatus.stopped_by_guardrail = ((λ h t. refl), λ h. refl)
is_terminal-can_transition RunStatus.cancelled = ((λ h t. refl), λ h. refl)
is_terminal-can_transition RunStatus.failed = ((λ h t. refl), λ h. refl)
is_terminal-can_transition s = ((λ h. cc), λ h. cc (h RunStatus.cancelled))

-- Every status that is not terminal can be changed to `cancelled`.
pub can_transition-cancelled :
    (s : RunStatus) → is_terminal_run_status s ≡ false → can_transition s RunStatus.cancelled ≡ true
unfolding can_transition is_terminal_run_status
can_transition-cancelled RunStatus.completed h = cc
can_transition-cancelled s h = ground arith

-- No path leaves a terminal status.
pub StatusPath-terminal :
    {s t : RunStatus} → is_terminal_run_status s ≡ true → StatusPath s t → t ≡ s
StatusPath-terminal h here = refl
StatusPath-terminal {s} {t} h (then {s = m} p e) =
    let stay = StatusPath-terminal h p in
    cc (e, (is_terminal-can_transition s).0 h t, ap (λ x. can_transition x t) stay)
