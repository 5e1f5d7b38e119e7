-- ===== src/Runs/Behaviour/Offer.antt =====
-- Which run a worker is offered, and what the last guardrail adds to the selection.
use mac_bennet.Prelude.{
  ℕ, ◌≡◌, ◌⊎◌, refl, ap, subst, true, false, Bool, Bool-cases, inl, inr, List, [], ◌∷◌,
  Option-cases, none, some, String, keep, Any, arith, if◌then◌else◌,
}
use mac_bennet.Protocol.Jobs.{JobSpec}
use mac_bennet.Runs.Guardrails.{
  GuardrailCode, GuardrailResult, job_result, check_dispatch, check_run_approved,
  check_run_dispatchable, check_no_cancel_pending, check_overnight_cutoff, check_budget,
  check_worker_capability, check_job_allowed, first_refusal, then_job,
}
use mac_bennet.Runs.Db.{Run, Db, get_run}
use mac_bennet.Runs.Service.{Services}
use mac_bennet.Runs.Service.Dispatch.{
  selectable, sorts_before, first_in_order, select_candidate, budget_stops, dispatch_check,
}
use mac_bennet.Runs.Db.Rows.{some-inj}
use mac_bennet.Runs.Refine.{HasKeys}
use mac_bennet.Runs.Refine.Selection.{select_candidate-found, selectable-IsDispatchable}

first_refusal-ok :
    {a b c d e f : GuardrailResult}
    → a ≡ GuardrailResult.ok
    → b ≡ GuardrailResult.ok
    → c ≡ GuardrailResult.ok
    → d ≡ GuardrailResult.ok
    → e ≡ GuardrailResult.ok
    → f ≡ GuardrailResult.ok
    → first_refusal (a ∷ b ∷ c ∷ d ∷ e ∷ f ∷ []) ≡ GuardrailResult.ok
unfolding first_refusal
first_refusal-ok ea eb ec ed ee ef = rw (ea, eb, ec, ed, ee, ef) refl

budget_ok :
    (s : Services)
    → budget_stops s ≡ false
    → check_budget (record {
      recorded_spend_cents = s.recorded_spend_cents;
      nightly_budget_cents = s.settings.nightly_budget_cents;
      budget_stop_pct = s.settings.budget_stop_pct;
    })
      ≡ GuardrailResult.ok
unfolding budget_stops check_budget
budget_ok s e = ground arith

capability_ok :
    (s : Services) (capabilities : List String) (now : ℕ) (db : Db) (r : Run)
    → selectable s capabilities now db r ≡ true
    → check_worker_capability capabilities r.job_kind ≡ GuardrailResult.ok
unfolding selectable check_worker_capability
capability_ok s capabilities now db r e = ground arith

-- The last check, written in TypeScript, agrees with the selection, written in SQL: when the
-- budget does not stop dispatch and the job is allowed, it passes every run that the statement
-- selects.
pub selectable-dispatch_check :
    (s : Services) (capabilities : List String) (now : ℕ) (db : Db) (r : Run) (job : JobSpec)
    → selectable s capabilities now db r ≡ true
    → budget_stops s ≡ false
    → check_job_allowed s.safe_parse r.job_kind r.job_params ≡ some job
    → dispatch_check s capabilities r now ≡ GuardrailResult.ok
unfolding dispatch_check check_dispatch check_run_approved check_run_dispatchable
    check_no_cancel_pending check_overnight_cutoff then_job job_result
selectable-dispatch_check s capabilities now db r job sel budget allowed =
    let d = selectable-IsDispatchable s capabilities now db r sel in
    rw
      (
        first_refusal-ok (ap check_run_approved d.approved) (ap check_run_dispatchable d.queued)
            (ap check_no_cancel_pending d.not_cancelled)
            (ap
              (λ b.
                if b
                then GuardrailResult.refused GuardrailCode.overnight_cutoff_passed
                else GuardrailResult.ok)
              d.in_time)
            (budget_ok s budget) (capability_ok s capabilities now db r sel),
        allowed,
      )
      refl

-- `a` is dispatched before `b` or ties with it.
abbrev pub IsBest : Db → Run → List Run → Type 0
IsBest db r rs = (q : Run) → Any (λ x. x ≡ q) rs → sorts_before db q r ≡ false

sorts_before-asym : (db : Db) (a b : Run) → sorts_before db a b ≡ true → sorts_before db b a ≡ false
unfolding sorts_before
sorts_before-asym db a b h = ground arith

sorts_before_refl : (db : Db) (a : Run) → sorts_before db a a ≡ false
unfolding sorts_before
sorts_before_refl db a = ground arith

-- If `q` is not before `b` and `b` is not before `c`, then `q` is not before `c`.
sorts_before-weak :
    (db : Db) (q b c : Run)
    → sorts_before db q b ≡ false
    → sorts_before db b c ≡ false
    → sorts_before db q c ≡ false
unfolding sorts_before
sorts_before-weak db q b c h k = ground arith

first_in_order-none :
    (db : Db) (rs : List Run) (q : Run) → first_in_order db rs ≡ none → ¬ Any (λ x. x ≡ q) rs
unfolding first_in_order
first_in_order-none db [] q e m = absurd m
first_in_order-none db (x ∷ rs) q e m = elim (Option-cases (first_in_order db rs)) [
  | inl nothing ↦ cc (rw nothing at e)
  | inr (b, found) ↦ cc (rw found at e)
]

-- One step of the search for the first.
best_step :
    (db : Db) (x b q : Run) (rs : List Run)
    → (Any (λ y. y ≡ q) rs → sorts_before db q b ≡ false)
    → (x ≡ q) ⊎ Any (λ y. y ≡ q) rs
    → sorts_before db q (if sorts_before db b x then b else x) ≡ false
best_step db x b q rs best m = elim (Bool-cases (sorts_before db b x)) [
  | inl before ↦ rw before (elim m [
    | inl is_x ↦ subst (λ y. sorts_before db y b ≡ false) is_x (sorts_before-asym db b x before)
    | inr later ↦ best later
  ])
  | inr after ↦ rw after (elim m [
    | inl is_x ↦ subst (λ y. sorts_before db y x ≡ false) is_x (sorts_before_refl db x)
    | inr later ↦ sorts_before-weak db q b x (best later) after
  ])
]

first_in_order-IsBest :
    (db : Db) (rs : List Run) (r : Run) → first_in_order db rs ≡ some r → IsBest db r rs
unfolding first_in_order
first_in_order-IsBest db [] r e q m = absurd m
first_in_order-IsBest db (x ∷ rs) r e q m = elim (Option-cases (first_in_order db rs)) [
  | inl nothing ↦
      let only : some x ≡ some r = rw nothing at e in
      elim m [
        | inl is_x ↦
            subst (λ y. sorts_before db y r ≡ false) is_x
              (subst (λ y. sorts_before db x y ≡ false) (some-inj only) (sorts_before_refl db x))
        | inr later ↦ absurd (first_in_order-none db rs q nothing later)
      ]
  | inr (b, found) ↦
      let pick : some (if sorts_before db b x then b else x) ≡ some r = rw found at e in
      subst (λ y. sorts_before db q y ≡ false) (some-inj pick)
        (best_step db x b q rs (first_in_order-IsBest db rs b found q) m)
]

Any-keep :
    (p : Run → Bool) (rs : List Run) (q : Run)
    → Any (λ x. x ≡ q) rs
    → p q ≡ true
    → Any (λ x. x ≡ q) (keep p rs)
Any-keep p [] q m e = absurd m
Any-keep p (x ∷ rs) q m e = elim (Bool-cases (p x)) [
  | inl hit ↦ rw hit (elim m [ inl is_x ↦ inl is_x | inr later ↦ inr (Any-keep p rs q later e) ])
  | inr miss ↦
      rw miss (elim m [ inl is_x ↦ cc (miss, e, ap p is_x) | inr later ↦ Any-keep p rs q later e ])
]

-- If the run keys are in order and a run is selected, it is a row of the table that passes the
-- WHERE clause, and no row `q` that passes it comes strictly before it by priority and then
-- creation time.
pub select_candidate-best :
    (s : Services) (capabilities : List String) (now : ℕ) (db : Db) (r q : Run)
    → HasKeys db
    → select_candidate s capabilities now db ≡ some r
    → Any (λ x. x ≡ q) db.runs
    → selectable s capabilities now db q ≡ true
    → (get_run r.id db.runs ≡ some r)
      × (selectable s capabilities now db r ≡ true)
      × (sorts_before db q r ≡ false)
unfolding select_candidate
select_candidate-best s capabilities now db r q keys e m passes =
    let f = select_candidate-found s capabilities now db r keys e in
    (
      f.0,
      f.1,
      first_in_order-IsBest db _ r e q
          (Any-keep (selectable s capabilities now db) db.runs q m passes),
    )
