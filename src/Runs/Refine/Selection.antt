-- ===== src/Runs/Refine/Selection.antt =====
-- The row that `leaseNextRun` selects is a row of the table that may be dispatched.
use mac_bennet.Prelude.{
  ℕ, ◌≡◌, refl, inl, inr, subst, String, Bool, true, not, List, [], ◌∷◌, Option, none, some, Any,
  keep, arith, Bool-cases, Option-cases, is_some,
}
use mac_bennet.Protocol.Enums.{RunStatus, ApprovalState}
use mac_bennet.Protocol.Status.{same_status_eq}
use mac_bennet.Runs.Guardrails.{is_approved}
use mac_bennet.Runs.Db.{Run, Db, get_run}
use mac_bennet.Runs.Db.Rows.{get_run_of_member}
use mac_bennet.Runs.Moves.{IsDispatchable}
use mac_bennet.Runs.Service.{Services}
use mac_bennet.Runs.Service.Dispatch.{selectable, first_in_order, sorts_before, select_candidate}
use mac_bennet.Runs.Refine.{HasKeys}

-- A kept item is an item, and passed the test.
keep-Any :
    (p : Run → Bool) (rs : List Run) (r : Run)
    → Any (λ x. x ≡ r) (keep p rs)
    → Any (λ x. x ≡ r) rs × (p r ≡ true)
keep-Any p [] r m = absurd m
keep-Any p (x ∷ rs) r m = elim (Bool-cases (p x)) [
  | inl e ↦ elim (rw e at m) [
    | inl h ↦ (inl h, subst (λ y. p y ≡ true) h e)
    | inr h ↦ let rest = keep-Any p rs r h in (inr rest.0, rest.1)
  ]
  | inr e ↦ let rest = keep-Any p rs r (rw e at m) in (inr rest.0, rest.1)
]

first_in_order-Any :
    (db : Db) (rs : List Run) (r : Run) → first_in_order db rs ≡ some r → Any (λ x. x ≡ r) rs
unfolding first_in_order
first_in_order-Any db [] r e = cc
first_in_order-Any db (x ∷ rs) r e = elim (Option-cases (first_in_order db rs)) [
  | inl none_left ↦ inl (let f = rw none_left at e in cc)
  | inr (s, found) ↦ elim (Bool-cases (sorts_before db s x)) [
    | inl before ↦
        let f : some s ≡ some r = rw (found, before) at e in
        inr (first_in_order-Any db rs r (rw found f))
    | inr after ↦ inl (let f : some x ≡ some r = rw (found, after) at e in cc)
  ]
]

is_approved_eq : (a : ApprovalState) → is_approved a ≡ true → a ≡ ApprovalState.approved
is_approved_eq ApprovalState.approved e = refl
is_approved_eq a e = cc

none_of_not_some : (o : Option ℕ) → not (is_some o) ≡ true → o ≡ none
none_of_not_some none e = refl
none_of_not_some (some a) e = cc

pub selectable-IsDispatchable :
    (s : Services) (capabilities : List String) (now : ℕ) (db : Db) (r : Run)
    → selectable s capabilities now db r ≡ true
    → IsDispatchable now r
unfolding selectable
selectable-IsDispatchable s capabilities now db r e = record {
  queued = same_status_eq r.status RunStatus.queued (ground arith);
  approved = is_approved_eq r.approval_state (ground arith);
  not_cancelled = none_of_not_some r.cancel_requested_at (ground arith);
  in_time = ground arith;
}

-- The candidate is a row of the table, found under its own key, and may be dispatched.
pub select_candidate-found :
    (s : Services) (capabilities : List String) (now : ℕ) (db : Db) (r : Run)
    → HasKeys db
    → select_candidate s capabilities now db ≡ some r
    → (get_run r.id db.runs ≡ some r) × (selectable s capabilities now db r ≡ true)
unfolding select_candidate
select_candidate-found s capabilities now db r keys e =
    let member =
      keep-Any (selectable s capabilities now db) db.runs r (first_in_order-Any db _ r e) in
    (get_run_of_member 0 db.runs db.next_run_id r keys member.0, member.1)
