-- ===== src/Approvals/Invariant/Gates.antt =====
-- The gates of a decision keep the invariants: they leave the requests as they are or expire one.
use mac_bennet.Prelude.{
  ℕ, ◌≡◌, ◌⊎◌, refl, Bool, true, false, ◌&&◌, not, [], ◌∷◌, arith, Option, none, some,
  if◌then◌else◌,
}
use mac_bennet.Runs.Db.{Text, Actor, Outcome}
use mac_bennet.Runs.Service.{Services}
use mac_bennet.Approvals.{Decision, is_conversationally_approvable}
use mac_bennet.Approvals.Store.{
  Request, Store, Answer, ApprovalError, left_by, on_db, get_request, log_event,
}
use mac_bennet.Approvals.Service.{is_pending, expire_requests}
use mac_bennet.Approvals.Service.Decide.{
  DecideInput, and_then, done, run_gate, gates, gates_on, pass_gates, is_approve, has_expired,
}
use mac_bennet.Approvals.Invariant.{Keeps-refl}
use mac_bennet.Approvals.Invariant.Steps.{IsKeptStore, KeepsStore, expire_requests-Keeps}

-- The gates of the run service leave the requests alone.
same_requests-Keeps :
    (s t : Store)
    → t.requests ≡ s.requests
    → t.next_request_id ≡ s.next_request_id
    → IsKeptStore s
    → KeepsStore s t
same_requests-Keeps s t e f k = rw (e, f) (Keeps-refl k)

on_db_requests :
    {A : Type 0} (o : Outcome A) (s : Store)
    → ((left_by (and_then (on_db o s) done)).requests ≡ s.requests)
      × ((left_by (and_then (on_db o s) done)).next_request_id ≡ s.next_request_id)
unfolding on_db and_then left_by
on_db_requests (Outcome.ok a d) s = (refl, refl)
on_db_requests (Outcome.err e l) s = (refl, refl)

pub run_gate_requests :
    (services : Services) (code : Text) (input : DecideInput) (actor : Actor) (now : ℕ) (s : Store)
    (d : Decision) (run : Option ℕ)
    → ((left_by (run_gate services code input actor now s d run)).requests ≡ s.requests)
      × ((left_by (run_gate services code input actor now s d run)).next_request_id
          ≡ s.next_request_id)
unfolding run_gate left_by
run_gate_requests services code input actor now s d none = (refl, refl)
run_gate_requests services code input actor now s Decision.approve (some id) = on_db_requests _ s
run_gate_requests services code input actor now s Decision.reject (some id) = on_db_requests _ s

if_Keeps :
    {A : Type 0} (s t : Store) (b : Bool) (e : ApprovalError) (y : Answer A)
    → KeepsStore s t
    → KeepsStore s (left_by y)
    → KeepsStore s (left_by (if b then Answer.err e t else y))
unfolding left_by
if_Keeps s t true e y h k = h
if_Keeps s t false e y h k = k

gates-Keeps :
    (services : Services) (r : Request) (input : DecideInput) (actor : Actor) (now : ℕ) (s : Store)
    → IsKeptStore s
    → KeepsStore s (left_by (gates services r input actor now s))
unfolding gates log_event
gates-Keeps services r input actor now s k =
    let e = run_gate_requests services r.code input actor now s input.decision r.run_id in
    if_Keeps s s (not (is_pending r)) (ApprovalError.not_pending r.state) _ (Keeps-refl k) (
      if_Keeps s (expire_requests (r.id ∷ []) now s) (has_expired now r.expires_at)
        ApprovalError.expired _ (expire_requests-Keeps (r.id ∷ []) now s k)
        (if_Keeps s (log_event actor "approval_request.authority_refused" r.run_id s)
          (is_approve input.decision && not (is_conversationally_approvable r.authority))
          (ApprovalError.authority_refused r.authority)
          (run_gate services r.code input actor now s input.decision r.run_id) (Keeps-refl k)
          (same_requests-Keeps s
            (left_by (run_gate services r.code input actor now s input.decision r.run_id)) e.0 e.1
            k)))

pub pass_gates-Keeps :
    (services : Services) (id : ℕ) (input : DecideInput) (actor : Actor) (now : ℕ) (s : Store)
    → IsKeptStore s
    → KeepsStore s (left_by (pass_gates services id input actor now s))
unfolding pass_gates
pass_gates-Keeps services id input actor now s k = found (get_request id s.requests)
  where
    found : (o : Option Request) → KeepsStore s (left_by (gates_on services o input actor now s))
    found none = unfold gates_on left_by in Keeps-refl k
    found (some r) = unfold gates_on in gates-Keeps services r input actor now s k

-- What the gates have checked when they let a decision pass.
pub record IsPassed (services : Services) (r : Request) (input : DecideInput) (actor : Actor)
    (now : ℕ) (s t : Store) : Type 0 where
  pub pending : is_pending r ≡ true
  pub in_time : has_expired now r.expires_at ≡ false
  pub permitted :
      (is_approve input.decision ≡ false) ⊎ (is_conversationally_approvable r.authority ≡ true)
  pub gated : run_gate services r.code input actor now s input.decision r.run_id ≡ Answer.ok tt t

if_ok :
    {A : Type 0} {a : A} {t : Store} (b : Bool) (e : ApprovalError) (s : Store) (rest : Answer A)
    → (if b then Answer.err e s else rest) ≡ Answer.ok a t
    → (b ≡ false) × (rest ≡ Answer.ok a t)
if_ok true e s rest h = absurd (cc)
if_ok false e s rest h = (refl, h)

pub gates-IsPassed :
    (services : Services) (r : Request) (input : DecideInput) (actor : Actor) (now : ℕ)
    (s t : Store)
    → gates services r input actor now s ≡ Answer.ok tt t
    → IsPassed services r input actor now s t
unfolding gates
gates-IsPassed services r input actor now s t h =
    let a = if_ok (not (is_pending r)) _ _ _ h in
    let b = if_ok (has_expired now r.expires_at) _ _ _ a.1 in
    let c =
      if_ok (is_approve input.decision && not (is_conversationally_approvable r.authority)) _ _ _
        b.1 in
    record {
      pending = ground (arith, a.0);
      in_time = b.0;
      permitted = ground (arith, c.0);
      gated = c.1;
    }

pub pass_gates-IsPassed :
    (services : Services) (id : ℕ) (input : DecideInput) (actor : Actor) (now : ℕ) (s t : Store)
    → pass_gates services id input actor now s ≡ Answer.ok tt t
    → (r : Request) × (get_request id s.requests ≡ some r) × IsPassed services r input actor now s t
unfolding pass_gates
pass_gates-IsPassed services id input actor now s t = found (get_request id s.requests) refl
  where
    found :
        (o : Option Request)
        → get_request id s.requests ≡ o
        → gates_on services o input actor now s ≡ Answer.ok tt t
        → (r : Request) × (get_request id s.requests ≡ some r)
          × IsPassed services r input actor now s t
    found none e h = absurd (unfold gates_on in cc (h))
    found (some r) e h = (r, e, unfold gates_on in gates-IsPassed services r input actor now s t h)
