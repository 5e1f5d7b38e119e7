-- ===== src/Runs/Confidence/Bands.antt =====
-- What the bands permit.
use mac_bennet.Prelude.{
  ◌≤◌, ◌<◌, ◌&&◌, not, ◌≡◌, ◌≢◌, ◌⊎◌, ◌↔◌, refl, Bool, true, false, Option, none, some, arith,
}
use mac_bennet.Protocol.Enums.{DecisionRisk}
use mac_bennet.Runs.Confidence.{
  Confidence, ConfidencePolicy, ConfidenceBand, ApprovalCheck, DecisionInput, DecisionAction,
  to_scaled, check_approval_confidence, advise_execution, decide_action,
}

-- An approval is granted only to a recorded confidence at or above the floor, and below the
-- autonomy threshold only with both the acknowledgement and notes. Then, and only then, the
-- answer says that the threshold was overridden.
pub check_approval_confidence-ok :
    (c : Option Confidence) (p : ConfidencePolicy) (acknowledge has_notes : Bool)
    {band : ConfidenceBand} {overridden : Bool}
    → check_approval_confidence c p acknowledge has_notes ≡ ApprovalCheck.ok band overridden
    → (v : Confidence) × (c ≡ some v)
      × (to_scaled p.min_execution_confidence ≤ to_scaled v)
      × ((overridden ≡ false) × (to_scaled p.default_confidence_threshold ≤ to_scaled v)
          ⊎ (overridden ≡ true)
            × (to_scaled v < to_scaled p.default_confidence_threshold)
            × (acknowledge ≡ true)
            × (has_notes ≡ true))
unfolding check_approval_confidence
check_approval_confidence-ok none p a n h = cc
check_approval_confidence-ok (some v) p a n h = (v, refl, ground arith, ground arith)

-- Whether an approval was granted.
abbrev pub is_granted : ApprovalCheck → Bool
is_granted (ApprovalCheck.ok band overridden) = true
is_granted (ApprovalCheck.refused code band) = false

-- The advice shown before an approval and the approval gate agree, for every confidence and policy:
-- execution is permitted exactly when some approval can be granted (acknowledged, with notes), and
-- an explicit scope approval is asked for exactly when, besides, the unacknowledged one is refused.
pub advise_execution-agrees :
    (c : Option Confidence) (p : ConfidencePolicy)
    → let advice = advise_execution c p in
      (advice.execution_permitted ≡ is_granted (check_approval_confidence c p true true))
      × (advice.requires_explicit_scope_approval ≡ (
          is_granted (check_approval_confidence c p true true)
          && not (is_granted (check_approval_confidence c p false true))))
unfolding check_approval_confidence advise_execution
advise_execution-agrees none p = (refl, refl)
advise_execution-agrees (some v) p = (ground arith, ground arith)

-- Mac answers or assumes only where the decision is not sensitive, not of high risk and within the
-- approved scope; he answers only at or above the answering threshold, and assumes only what is
-- reversible and either of low risk or at or above the execution floor. All but a plain answer is flagged.
pub decide_action_sound :
    (i : DecisionInput) (answer_threshold floor : Confidence)
    → let o = decide_action i answer_threshold floor in
      ((o.action ≡ DecisionAction.block)
        ⊎ (i.sensitive ≡ false) × (i.risk ≢ DecisionRisk.high) × (i.within_approved_scope ≡ true))
      × ((o.action ≢ DecisionAction.answer) ⊎ (to_scaled answer_threshold ≤ to_scaled i.confidence))
      × ((o.action ≢ DecisionAction.assume)
          ⊎ (i.reversible ≡ true)
            × ((i.risk ≡ DecisionRisk.low) ⊎ (to_scaled floor ≤ to_scaled i.confidence)))
      × ((o.flag ≡ false) ↔ (o.action ≡ DecisionAction.answer))
unfolding decide_action
decide_action_sound i a f = (ground arith, ground arith, ground arith, (ground arith, ground arith))
