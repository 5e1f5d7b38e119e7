-- ===== src/Approvals/Binding/Named.antt =====
-- What a message must name to be bound to a request.
use mac_bennet.Prelude.{
  ℕ, ◌≡◌, ◌↔◌, subst, refl, if◌then◌else◌, ap, ◌∙◌, Bool, true, false, List, [], ◌∷◌, Option, none,
  some, or_else, arith, ◌&&◌,
}
use mac_bennet.Runs.Db.{Text}
use mac_bennet.Approvals.{Decision}
use mac_bennet.Approvals.Codes.{affirms, refuses, extract_approval_codes}
use mac_bennet.Approvals.Binding.{
  BindInput, Binding, BindingOutcome, Outstanding, find_id, find_code, bound_to, not_bound,
  bind_found, bind_control, bind_codes, bind_text, bind_message, is_empty, bind_approval_decision,
}

-- The words of a message that quotes a code: an approval needs an affirmation and no refusal, and
-- any message without an affirmation is a rejection.
abbrev pub Says : BindInput → Decision → Type 0
Says input Decision.approve = (affirms input.text ≡ true) × (refuses input.text ≡ false)
Says input Decision.reject = affirms input.text ≡ false

pub data IsNamed (input : BindInput) : Binding → Type 0 where
  by_control :
      (id : ℕ) (p : Outstanding)
      → input.explicit_request_id ≡ some id
      → find_id id input.pending ≡ some p
      → IsNamed input (bound_to input p (or_else input.explicit_decision Decision.approve))
  by_code :
      (code : Text) (p : Outstanding) (d : Decision)
      → input.explicit_request_id ≡ none
      → extract_approval_codes input.text ≡ code ∷ []
      → find_code code input.pending ≡ some p
      → Says input d
      → IsNamed input (bound_to input p d)

-- A search binds only what it finds.
bind_found-IsNamed :
    (input : BindInput) (code : Option Text) (read : Option Decision) (d : Decision)
    (o : Option Outstanding)
    → ((p : Outstanding) → o ≡ some p → IsNamed input (bound_to input p d))
    → (bind_found input code read d o).outcome ≡ BindingOutcome.bound
    → IsNamed input (bind_found input code read d o)
unfolding bind_found not_bound
bind_found-IsNamed input code read d none k h = absurd (cc)
bind_found-IsNamed input code read d (some p) k h = k p refl

bind_codes-IsNamed :
    (input : BindInput) (d : Decision) (found : List Text)
    → input.explicit_request_id ≡ none
    → extract_approval_codes input.text ≡ found
    → Says input d
    → (bind_codes input d found).outcome ≡ BindingOutcome.bound
    → IsNamed input (bind_codes input d found)
unfolding bind_codes not_bound
bind_codes-IsNamed input d [] e f s h = absurd (cc)
bind_codes-IsNamed input d (code ∷ []) e f s h =
    bind_found-IsNamed input _ _ d (find_code code input.pending)
      (λ p found. by_code code p d e f found s) h
bind_codes-IsNamed input d (code ∷ other ∷ more) e f s h = absurd (cc)

-- A test that can only send a message away.
gate_IsNamed :
    (input : BindInput) (test : Bool) (away next : Binding)
    → ¬ (away.outcome ≡ BindingOutcome.bound)
    → (next.outcome ≡ BindingOutcome.bound → IsNamed input next)
    → (if test then away else next).outcome ≡ BindingOutcome.bound
    → IsNamed input (if test then away else next)
gate_IsNamed input true away next a k h = absurd (a h)
gate_IsNamed input false away next a k h = k h

not_bound_lem :
    (input : BindInput) (o : BindingOutcome) (c : Option Text) (d : Option Decision)
    → ¬ (o ≡ BindingOutcome.bound)
    → ¬ ((not_bound input o c d).outcome ≡ BindingOutcome.bound)
unfolding not_bound
not_bound_lem input o c d h = h

bind_text-IsNamed :
    (input : BindInput) (y n : Bool) (found : List Text)
    → input.explicit_request_id ≡ none
    → affirms input.text ≡ y
    → refuses input.text ≡ n
    → extract_approval_codes input.text ≡ found
    → (bind_text input y n found).outcome ≡ BindingOutcome.bound
    → IsNamed input (bind_text input y n found)
unfolding bind_text
bind_text-IsNamed input y n found e a r f =
    gate_IsNamed input _ _ _ (not_bound_lem input BindingOutcome.not_a_decision none none (λ h. cc))
      (gate_IsNamed input _ _ _
        (not_bound_lem input BindingOutcome.nothing_pending none none (λ h. cc)) (words y n a r))
  where
    words :
        (y n : Bool)
        → affirms input.text ≡ y
        → refuses input.text ≡ n
        → (if y && n
            then not_bound input BindingOutcome.ambiguous none none
            else bind_codes input (if y then Decision.approve else Decision.reject) found).outcome
          ≡ BindingOutcome.bound
        → IsNamed input (
            if y && n
            then not_bound input BindingOutcome.ambiguous none none
            else bind_codes input (if y then Decision.approve else Decision.reject) found)
    words true true a r h =
        absurd (not_bound_lem input BindingOutcome.ambiguous none none (λ h. cc) h)
    words true false a r h = bind_codes-IsNamed input Decision.approve found e f (a, r) h
    words false n a r h = bind_codes-IsNamed input Decision.reject found e f a h

bind_message-IsNamed :
    (input : BindInput) (o : Option ℕ)
    → input.explicit_request_id ≡ o
    → (bind_message input o).outcome ≡ BindingOutcome.bound
    → IsNamed input (bind_message input o)
unfolding bind_message bind_control
bind_message-IsNamed input none e =
    bind_text-IsNamed input (affirms input.text) (refuses input.text)
      (extract_approval_codes input.text) e refl refl refl
bind_message-IsNamed input (some id) e =
    bind_found-IsNamed input none none (or_else input.explicit_decision Decision.approve)
      (find_id id input.pending) (λ p found. by_control id p e found)

find_code_pending :
    (code : Text) (ps : List Outstanding) (p : Outstanding)
    → find_code code ps ≡ some p
    → is_empty ps ≡ false
unfolding find_code
find_code_pending code [] p e = absurd (cc)
find_code_pending code (x ∷ ps) p e = refl

bind_text_code :
    (input : BindInput) (code : Text) (p : Outstanding) (d : Decision) (y n : Bool)
    → affirms input.text ≡ y
    → refuses input.text ≡ n
    → Says input d
    → find_code code input.pending ≡ some p
    → bind_text input y n (code ∷ []) ≡ bound_to input p d
unfolding bind_text bind_codes bind_found
bind_text_code input code p Decision.approve y n a r s e =
    ground (arith, find_code_pending code input.pending p e)
bind_text_code input code p Decision.reject y n a r s e =
    ground (arith, find_code_pending code input.pending p e)

IsNamed-bind_message :
    (input : BindInput) (b : Binding)
    → IsNamed input b
    → bind_message input input.explicit_request_id ≡ b
unfolding bind_message bind_control bind_found
IsNamed-bind_message input b (by_control id p e f) = ap (bind_message input) e ∙ rw f refl
IsNamed-bind_message input b (by_code code p d e f g s) =
    ap (bind_message input) e
    ∙ ap (bind_text input (affirms input.text) (refuses input.text)) f
    ∙ bind_text_code input code p d _ _ refl refl s g

-- For every message and every answer `b` whose outcome is `bound`, binding the message gives
-- exactly `b` if and only if the message names the request. It names it by a control that carries
-- the identifier of an outstanding request, with the control's decision (an approval if it has
-- none), or, without a control, by quoting one code and no other, that of an outstanding request,
-- with an affirmation and no refusal for an approval, and without an affirmation for a rejection.
pub bind_approval_decision-bound :
    (input : BindInput) (b : Binding)
    → b.outcome ≡ BindingOutcome.bound
    → (bind_approval_decision input ≡ b) ↔ IsNamed input b
unfolding bind_approval_decision
bind_approval_decision-bound input b h = (
  λ e.
      subst (IsNamed input) e
        (bind_message-IsNamed input input.explicit_request_id refl (ap (λ x. x.outcome) e ∙ h)),
  IsNamed-bind_message input b,
)
