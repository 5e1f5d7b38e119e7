-- ===== src/Runs/Confidence.antt =====
-- apps/server/src/domain/confidence.ts: the confidence bands, the approval gate and the decision
-- policy. A confidence is a fraction of 1 in billionths, so it is rounded where the source rounds;
-- explanatory messages are left out.
pub mod Bands
use mac_bennet.Prelude.{
  ℕ, ◌+◌, ◌*◌, ◌/◌, Bool, true, false, ◌||◌, ◌&&◌, not, Option, none, some, ◌==◌, ◌%◌, round_double,
  ltb, leb, if◌then◌else◌,
}
use mac_bennet.Protocol.Enums.{DecisionRisk}

-- 1 is 1_000_000_000.
abbrev pub Confidence : Type 0
Confidence = ℕ

pub record ConfidencePolicy : Type 0 where
  pub min_execution_confidence : Confidence
  pub default_confidence_threshold : Confidence

-- In units of `CONFIDENCE_SCALE`, a millionth.
abbrev pub high_autonomy_scaled : ℕ
high_autonomy_scaled = 900000

-- `Math.round(confidence * CONFIDENCE_SCALE)`
unfoldable pub to_scaled : Confidence → ℕ
to_scaled c = (c + 500) / 1000

-- Whether the double of a confidence is not below it, in units of 2^-83.
unfoldable pub is_rounded_up : Confidence → Bool
is_rounded_up c =
    let exact = c * 9671406556917033397649408 in
    leb exact (round_double exact 1000000000 * 1000000000)

-- `confidence.toFixed(3)`, the digits of the `numeric(4,3)` column: a number of thousandths. It is the
-- double that is rounded, which matters halfway between two thousandths only.
unfoldable pub to_fixed3 : Confidence → ℕ
to_fixed3 c =
    if c % 1000000 == 500000 && not (is_rounded_up c) then c / 1000000 else (c + 500000) / 1000000

-- The value that a stored number of thousandths reads back as.
unfoldable pub parse_confidence : Option ℕ → Option Confidence
parse_confidence none = none
parse_confidence (some n) = some (n * 1000000)

pub data ConfidenceBand : Type 0 where
  below_floor limited_scope autonomous high_autonomy : ConfidenceBand

unfoldable pub classify_confidence : Confidence → ConfidencePolicy → ConfidenceBand
unfolding to_scaled
classify_confidence confidence policy =
    let value = to_scaled confidence in
    if ltb value (to_scaled policy.min_execution_confidence)
    then ConfidenceBand.below_floor
    else if ltb value (to_scaled policy.default_confidence_threshold)
    then ConfidenceBand.limited_scope
    else if ltb value high_autonomy_scaled
    then ConfidenceBand.autonomous
    else ConfidenceBand.high_autonomy

pub data ScopeKind : Type 0 where
  full limited : ScopeKind

pub record ExecutionAdvice : Type 0 where
  pub band : ConfidenceBand
  pub execution_permitted : Bool
  pub scope_kind : ScopeKind
  pub requires_explicit_scope_approval : Bool
  pub is_high_autonomy : Bool

advise_band : ConfidenceBand → ExecutionAdvice
advise_band ConfidenceBand.below_floor = record {
  band = ConfidenceBand.below_floor;
  execution_permitted = false;
  scope_kind = ScopeKind.limited;
  requires_explicit_scope_approval = false;
  is_high_autonomy = false;
}
advise_band ConfidenceBand.limited_scope = record {
  band = ConfidenceBand.limited_scope;
  execution_permitted = true;
  scope_kind = ScopeKind.limited;
  requires_explicit_scope_approval = true;
  is_high_autonomy = false;
}
advise_band ConfidenceBand.autonomous = record {
  band = ConfidenceBand.autonomous;
  execution_permitted = true;
  scope_kind = ScopeKind.full;
  requires_explicit_scope_approval = false;
  is_high_autonomy = false;
}
advise_band ConfidenceBand.high_autonomy = record {
  band = ConfidenceBand.high_autonomy;
  execution_permitted = true;
  scope_kind = ScopeKind.full;
  requires_explicit_scope_approval = false;
  is_high_autonomy = true;
}

unfoldable pub advise_execution : Option Confidence → ConfidencePolicy → ExecutionAdvice
unfolding advise_band classify_confidence
advise_execution none policy = advise_band ConfidenceBand.below_floor
advise_execution (some c) policy = advise_band (classify_confidence c policy)

pub data ApprovalCode : Type 0 where
  confidence_below_floor acknowledgement_required : ApprovalCode

pub data ApprovalCheck : Type 0 where
  ok : ConfidenceBand → Bool → ApprovalCheck
  refused : ApprovalCode → ConfidenceBand → ApprovalCheck

approval_of_band : ConfidenceBand → Bool → Bool → ApprovalCheck
approval_of_band ConfidenceBand.below_floor acknowledge has_notes =
    ApprovalCheck.refused ApprovalCode.confidence_below_floor ConfidenceBand.below_floor
approval_of_band ConfidenceBand.limited_scope acknowledge has_notes =
    if not acknowledge || not has_notes
    then ApprovalCheck.refused ApprovalCode.acknowledgement_required ConfidenceBand.limited_scope
    else ApprovalCheck.ok ConfidenceBand.limited_scope true
approval_of_band band acknowledge has_notes = ApprovalCheck.ok band false

-- The two options are `acknowledgeBelowThreshold` and `hasNotes`.
unfoldable pub check_approval_confidence :
    Option Confidence → ConfidencePolicy → Bool → Bool → ApprovalCheck
unfolding approval_of_band classify_confidence
check_approval_confidence none policy acknowledge has_notes =
    ApprovalCheck.refused ApprovalCode.confidence_below_floor ConfidenceBand.below_floor
check_approval_confidence (some c) policy acknowledge has_notes =
    approval_of_band (classify_confidence c policy) acknowledge has_notes

pub data DecisionAction : Type 0 where
  answer assume block : DecisionAction

pub record DecisionInput : Type 0 where
  pub confidence : Confidence
  pub risk : DecisionRisk
  pub reversible : Bool
  pub within_approved_scope : Bool
  pub sensitive : Bool

pub record DecisionOutcome : Type 0 where
  pub action : DecisionAction
  pub flag : Bool

abbrev pub is_high : DecisionRisk → Bool
is_high DecisionRisk.high = true
is_high r = false

abbrev pub is_low : DecisionRisk → Bool
is_low DecisionRisk.low = true
is_low r = false

blocked_decision : DecisionOutcome
blocked_decision = record { action = DecisionAction.block; flag = true }

-- The thresholds are `answerConfidenceThreshold` and `minExecutionConfidence`.
unfoldable pub decide_action : DecisionInput → Confidence → Confidence → DecisionOutcome
unfolding to_scaled blocked_decision
decide_action input answer_threshold min_execution =
    if input.sensitive
    then blocked_decision
    else if is_high input.risk
    then blocked_decision
    else if not input.within_approved_scope
    then blocked_decision
    else if leb (to_scaled answer_threshold) (to_scaled input.confidence)
    then record { action = DecisionAction.answer; flag = false }
    else if not input.reversible
    then blocked_decision
    else if ltb (to_scaled input.confidence) (to_scaled min_execution) && not (is_low input.risk)
    then blocked_decision
    else record { action = DecisionAction.assume; flag = true }
