-- ===== src/Runs/Behaviour/Approve.antt =====
-- What an approval has checked and written when it returns, and the rounding of what it checks.
use mac_bennet.Prelude.{
  Bool-cases, ==_iff, ◌==◌, ◌%◌, inl, inr, subst, sym, round_double, round_quotient, excess_bits,
  power_of_two, ℕ, ◌≡◌, ◌≤◌, ◌<◌, refl, ap, Bool, inl, inr, Option, some, arith, ◌+◌, ◌*◌, ◌/◌,
}
use mac_bennet.Protocol.Enums.{RunStatus, ApprovalState}
use mac_bennet.Runs.Confidence.{
  Confidence, ConfidenceBand, ApprovalCheck, parse_confidence, check_approval_confidence, to_fixed3,
  is_rounded_up, to_scaled,
}
use mac_bennet.Runs.Db.{Run, Actor, Db, Text, Outcome, ◌>>=◌, get_run, update_run}
use mac_bennet.Runs.Db.Rows.{get_run-id, get_run-update_run}
use mac_bennet.Runs.Service.{Services, moved}
use mac_bennet.Runs.Service.Approval.{
  approve_run, approve_patch, queue_patch, confidence_gate, has_text, deadline_for, insert_approval,
}
use mac_bennet.Runs.Refine.Approval.{approval_check_cases}
use mac_bennet.Runs.Behaviour.Transition.{
  Returns, failed, Returns-ok, Returns-require_run, Returns-transition, Returns-or_throw,
  Returns-last,
}

-- The decision that an approval rests on, and the row that it leaves.
pub record IsApproval (s : Services) (id : ℕ) (notes : Option Text) (acknowledge : Bool) (now : ℕ)
    (db : Db) (row : Run) (d : Db) : Type 0 where
  pub before : Run
  pub found : get_run id db.runs ≡ some before
  pub band : ConfidenceBand
  pub overridden : Bool
  pub granted :
      check_approval_confidence
        (parse_confidence before.confidence)
        s.settings.policy
        acknowledge
        (has_text notes)
      ≡ ApprovalCheck.ok band overridden
  pub queued : row.status ≡ RunStatus.queued
  pub approved : row.approval_state ≡ ApprovalState.approved
  pub deadline : row.overnight_deadline_at ≡ deadline_for s before.execution_mode now
  pub stored : get_run id d.runs ≡ some row

gate-Returns :
    {B : Type 0} {R : B → Db → Type 0} (s : Services) (r : Run) (notes : Option Text)
    (acknowledge : Bool) (actor : Actor) (f : Bool → Db → Outcome B) (db : Db)
    → ((band : ConfidenceBand) (overridden : Bool)
        → check_approval_confidence
            (parse_confidence r.confidence)
            s.settings.policy
            acknowledge
            (has_text notes)
          ≡ ApprovalCheck.ok band overridden
        → Returns R (f overridden db))
    → Returns R ((confidence_gate s r notes acknowledge actor >>= f) db)
unfolding confidence_gate ◌>>=◌
gate-Returns s r notes acknowledge actor f db k =
    elim (approval_check_cases (
      check_approval_confidence (parse_confidence r.confidence) s.settings.policy acknowledge
        (has_text notes))) [
          | inl (band, overridden, e) ↦ rw (e, confidence_gate, ◌>>=◌) (k band overridden e)
          | inr (code, band, e) ↦ rw (e, confidence_gate, ◌>>=◌) failed
        ]

approve_run-Returns :
    (s : Services) (id : ℕ) (notes : Option Text) (acknowledge : Bool) (actor : Actor) (now : ℕ)
    (db : Db)
    → Returns
        (IsApproval s id notes acknowledge now db)
        (approve_run s id notes acknowledge actor now db)
unfolding approve_run insert_approval approve_patch queue_patch ◌>>=◌
approve_run-Returns s id notes acknowledge actor now db = Returns-require_run _ _ _ λ r found.
    gate-Returns s r notes acknowledge actor _ db λ band overridden granted.
      Returns-or_throw _ _ _ _ λ job allowed.
        Returns-transition id RunStatus.approved actor _ approve_patch now _ db r found λ c.
          let first = moved approve_patch RunStatus.approved now r in
          let stored : get_run id
                (update_run id (moved approve_patch RunStatus.approved now) db.runs)
              ≡ some first =
            get_run-update_run id (moved approve_patch RunStatus.approved now) db.runs r found
              (get_run-id id db.runs r found) in
          let queue = queue_patch (deadline_for s r.execution_mode now) in
          Returns-last id RunStatus.queued actor _ queue now _ first stored λ e. record {
            before = r;
            found = found;
            band = band;
            overridden = overridden;
            granted = granted;
            queued = refl;
            approved = refl;
            deadline = refl;
            stored =
                get_run-update_run id (moved queue RunStatus.queued now) _ first stored
                  (get_run-id id db.runs r found);
          }

-- An approval that succeeds has found a run whose recorded confidence passed the check, on the
-- policy, acknowledgement and notes of this call; the run is then approved and queued, an
-- overnight run with the next cutoff as its deadline and an interactive one with none.
pub approve_run-ok :
    (s : Services) (id : ℕ) (notes : Option Text) (acknowledge : Bool) (actor : Actor) (now : ℕ)
    (db d : Db) (row : Run)
    → approve_run s id notes acknowledge actor now db ≡ Outcome.ok row d
    → IsApproval s id notes acknowledge now db row d
approve_run-ok s id notes acknowledge actor now db d row e =
    Returns-ok (approve_run-Returns s id notes acknowledge actor now db) e

-- Halfway, the double of 0.5995 is above it.
halfway-to_fixed3 : to_fixed3 599500000 ≡ 600
unfolding to_fixed3 is_rounded_up round_double round_quotient excess_bits power_of_two
halfway-to_fixed3 = refl

thousandths : (c : Confidence) → 599500000 ≤ c → c < 599999500 → to_fixed3 c ≡ 600
unfolding to_fixed3
thousandths c lo hi = elim (Bool-cases (c % 1000000 == 500000)) [
  | inl tie ↦
      let half : c ≡ 599500000 = omega (arith, (==_iff (c % 1000000) 500000).0 tie) in
      subst (λ x. to_fixed3 x ≡ 600) (sym half) halfway-to_fixed3
  | inr other ↦ let near : (c + 500000) / 1000000 ≡ 600 = omega arith in rw (other, near) refl
]

-- A confidence from 0.5995 to below 0.5999995 is, as `scaled` compares it, below a floor of 0.6,
-- but it is stored as 0.600, and what an approval reads back is not below that floor.
pub to_fixed3-floor :
    (c : Confidence)
    → 599500000 ≤ c
    → c < 599999500
    → (to_scaled c < to_scaled 600000000) × (parse_confidence (some (to_fixed3 c)) ≡ some 600000000)
unfolding parse_confidence to_scaled
to_fixed3-floor c lo hi = (omega arith, ap (λ n. some (n * 1000000)) (thousandths c lo hi))
