-- ===== src/Approvals/Binding.antt =====
-- Which outstanding request a message answers: bindApprovalDecision of
-- packages/protocol/src/approval-requests.ts. The reason, a text for a person, is left out.
pub mod Named
pub mod Reply
use mac_bennet.Prelude.{
  ℕ, Bool, true, false, List, [], ◌∷◌, Option, none, some, ◌==◌, ◌&&◌, not, if◌then◌else◌, map,
  or_else, same_text, to_upper,
}
use mac_bennet.Runs.Db.{Text}
use mac_bennet.Approvals.{Decision}
use mac_bennet.Approvals.Codes.{affirms, refuses, extract_approval_codes}

-- APPROVAL_BINDING_OUTCOMES
pub data BindingOutcome : Type 0 where
  bound ambiguous unknown_code nothing_pending not_a_decision : BindingOutcome

-- An outstanding request as the binding sees it.
pub record Outstanding : Type 0 where
  pub id : ℕ
  pub code : Text
  pub title : Text

pub record BindInput : Type 0 where
  pub text : Text
  pub pending : List Outstanding
  pub explicit_request_id : Option ℕ
  pub explicit_decision : Option Decision

pub record Binding : Type 0 where
  pub outcome : BindingOutcome
  pub request_id : Option ℕ
  pub code : Option Text
  pub decision : Option Decision
  pub candidates : List Outstanding

-- `pending.find((p) => p.id === id)`
unfoldable pub find_id : ℕ → List Outstanding → Option Outstanding
find_id id [] = none
find_id id (p ∷ ps) = if p.id == id then some p else find_id id ps

-- `pending.find((p) => p.code.toUpperCase() === code)`
unfoldable pub find_code : Text → List Outstanding → Option Outstanding
find_code code [] = none
find_code code (p ∷ ps) = if same_text (map to_upper p.code) code then some p else find_code code ps

unfoldable pub bound_to : BindInput → Outstanding → Decision → Binding
bound_to input p decision = record {
  outcome = BindingOutcome.bound;
  request_id = some p.id;
  code = some p.code;
  decision = some decision;
  candidates = input.pending;
}

unfoldable pub not_bound : BindInput → BindingOutcome → Option Text → Option Decision → Binding
not_bound input outcome code decision = record {
  outcome = outcome;
  request_id = none;
  code = code;
  decision = decision;
  candidates = input.pending;
}

-- The answer to a search: no request, with the code and the decision that were read, or this one.
unfoldable pub bind_found :
    BindInput → Option Text → Option Decision → Decision → Option Outstanding → Binding
bind_found input code read decision none = not_bound input BindingOutcome.unknown_code code read
bind_found input code read decision (some p) = bound_to input p decision

-- A card's button carried the identifier.
unfoldable pub bind_control : BindInput → ℕ → Binding
bind_control input id =
    bind_found input none none (or_else input.explicit_decision Decision.approve)
      (find_id id input.pending)

unfoldable pub bind_codes : BindInput → Decision → List Text → Binding
bind_codes input decision [] = not_bound input BindingOutcome.ambiguous none (some decision)
bind_codes input decision (code ∷ []) =
    bind_found input (some code) (some decision) decision (find_code code input.pending)
bind_codes input decision (code ∷ other ∷ more) =
    not_bound input BindingOutcome.ambiguous none (some decision)

abbrev pub is_empty : {A : Type 0} → List A → Bool
is_empty [] = true
is_empty (x ∷ xs) = false

unfoldable pub bind_text : BindInput → Bool → Bool → List Text → Binding
bind_text input yes_said no_said found =
    if not yes_said && not no_said && is_empty found
    then not_bound input BindingOutcome.not_a_decision none none
    else if is_empty input.pending
    then not_bound input BindingOutcome.nothing_pending none none
    else if yes_said && no_said
    then not_bound input BindingOutcome.ambiguous none none
    else bind_codes input (if yes_said then Decision.approve else Decision.reject) found

unfoldable pub bind_message : BindInput → Option ℕ → Binding
bind_message input none =
    bind_text input (affirms input.text) (refuses input.text) (extract_approval_codes input.text)
bind_message input (some id) = bind_control input id

unfoldable pub bind_approval_decision : BindInput → Binding
bind_approval_decision input = bind_message input input.explicit_request_id
