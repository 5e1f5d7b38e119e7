-- ===== src/Approvals/Invariant/Update.antt =====
-- The update of a decision, which approves only what the gates have let pass, and the binding of a
-- message keep the invariants.
use mac_bennet.Prelude.{
  ℕ, ◌≡◌, ◌<◌, ◌⊎◌, refl, Bool, true, false, inl, inr, List, [], ◌∷◌, All, arith, Option, none,
  some, if◌then◌else◌,
}
use mac_bennet.Runs.Db.{Text, Actor}
use mac_bennet.Approvals.{Decision}
use mac_bennet.Approvals.Store.{Request, Store, left_by, update_where, log_event}
use mac_bennet.Approvals.Service.{is_pending}
use mac_bennet.Approvals.Service.Decide.{
  DecideInput, is_approve, decide_patch, is_open_id, find_where, settle_found, settle, log_refusal,
  bind_message_to_approval, decided_state,
}
use mac_bennet.Approvals.Binding.{BindingOutcome}
use mac_bennet.Approvals.Rows.{IsLater, update_where-Matches, update_where-All}
use mac_bennet.Approvals.Invariant.{Keeps, Keeps-refl, Matches-Keeps, is_granted, is_allowed}
use mac_bennet.Approvals.Invariant.Steps.{IsKeptStore, KeepsStore}

decide_patch-IsLater :
    (input : DecideInput) (actor : Actor) (now : ℕ) (r : Request)
    → is_pending r ≡ true
    → IsLater r (decide_patch input actor now r)
unfolding decide_patch
decide_patch-IsLater input actor now r e = record {
  same_id = refl;
  same_code = refl;
  same_kind = refl;
  same_version = refl;
  same_task = refl;
  same_run = refl;
  same_authority = refl;
  same_expiry = refl;
  frozen = inl e;
}

-- An update that approves is permitted.
abbrev pub IsPermitted : ℕ → DecideInput → ℕ → List Request → Type 0
IsPermitted id input n rs =
    (is_approve input.decision ≡ false) ⊎ ((id < n) × All (λ r. is_allowed id r ≡ true) rs)

settled_granted :
    (id : ℕ) (d : Decision) (input : DecideInput) (actor : Actor) (now : ℕ) (r : Request)
    → input.decision ≡ d
    → (is_approve d ≡ false) ⊎ (is_allowed id r ≡ true)
    → is_open_id id r ≡ true
    → is_granted (decide_patch input actor now r) ≡ true
unfolding is_granted decide_patch is_open_id is_allowed is_approve decided_state
settled_granted id Decision.approve input actor now r e p o = rw e (ground (arith, p))
settled_granted id Decision.reject input actor now r e p o = rw e refl

rejected_granted :
    (id : ℕ) (input : DecideInput) (actor : Actor) (now : ℕ) (rs : List Request)
    → is_approve input.decision ≡ false
    → All (λ r. is_granted r ≡ true) rs
    → All
        (λ r. is_granted r ≡ true)
        (update_where (is_open_id id) (decide_patch input actor now) rs)
rejected_granted id input actor now rs e g =
    update_where-All (λ r. is_granted r ≡ true) _ _ rs
      (λ r o h. settled_granted id input.decision input actor now r refl (inl e) o) g

approved_granted :
    (id : ℕ) (input : DecideInput) (actor : Actor) (now : ℕ) (rs : List Request)
    → All (λ r. is_allowed id r ≡ true) rs
    → All (λ r. is_granted r ≡ true) rs
    → All
        (λ r. is_granted r ≡ true)
        (update_where (is_open_id id) (decide_patch input actor now) rs)
unfolding update_where
approved_granted id input actor now [] a g = tt
approved_granted id input actor now (r ∷ rs) a g =
    (here (is_open_id id r) refl, approved_granted id input actor now rs a.1 g.1)
  where
    here :
        (b : Bool)
        → is_open_id id r ≡ b
        → is_granted (if b then decide_patch input actor now r else r) ≡ true
    here true e = settled_granted id input.decision input actor now r refl (inr a.0) e
    here false e = g.0

decided_Keeps :
    (id : ℕ) (input : DecideInput) (actor : Actor) (now : ℕ) (s : Store)
    → IsPermitted id input s.next_request_id s.requests
    → IsKeptStore s
    → Keeps s.next_request_id s.requests s.next_request_id
        (update_where (is_open_id id) (decide_patch input actor now) s.requests)
unfolding is_open_id
decided_Keeps id input actor now s p k =
    Matches-Keeps k
      (update_where-Matches _ _ s.requests
        (λ r e. decide_patch-IsLater input actor now r (ground (arith, e))))
      (elim p [
        | inl e ↦ rejected_granted id input actor now s.requests e k.granted
        | inr a ↦ approved_granted id input actor now s.requests a.1 k.granted
      ])

pub settle-Keeps :
    (id : ℕ) (input : DecideInput) (actor : Actor) (now : ℕ) (s : Store)
    → IsPermitted id input s.next_request_id s.requests
    → IsKeptStore s
    → KeepsStore s (left_by (settle id input actor now s))
unfolding settle
settle-Keeps id input actor now s p k = found (find_where (is_open_id id) s.requests)
  where
    found : (o : Option Request) → KeepsStore s (left_by (settle_found id input actor now s o))
    found none = unfold settle_found left_by in Keeps-refl k
    found (some r) = unfold settle_found left_by log_event in decided_Keeps id input actor now s p k

pub bind_message_to_approval-Keeps :
    (text : Text) (task_id id : Option ℕ) (d : Option Decision) (actor : Actor) (s : Store)
    → IsKeptStore s
    → KeepsStore s (left_by (bind_message_to_approval text task_id id d actor s))
unfolding bind_message_to_approval left_by
bind_message_to_approval-Keeps text task_id id d actor s k = logged _
  where
    logged : (o : BindingOutcome) → KeepsStore s (log_refusal o actor s)
    logged BindingOutcome.bound = unfold log_refusal in Keeps-refl k
    logged BindingOutcome.ambiguous = unfold log_refusal log_event in Keeps-refl k
    logged BindingOutcome.unknown_code = unfold log_refusal log_event in Keeps-refl k
    logged BindingOutcome.nothing_pending = unfold log_refusal in Keeps-refl k
    logged BindingOutcome.not_a_decision = unfold log_refusal in Keeps-refl k
