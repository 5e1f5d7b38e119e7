-- ===== src/Night/Scheduler/Choice.antt =====
-- What the scheduler may start, and that it does start something when it can.
use mac_bennet.Prelude.{
  ℕ, ◌≡◌, ◌≤◌, ◌⊎◌, ◌++◌, refl, subst, String, Bool, true, false, List, [], ◌∷◌, Option, none, some,
  inl, inr, All, Any, arith, Bool-cases, Option-cases, ◌∙◌, keep, leb, leb→le, and-eq-true,
}
use mac_bennet.Runs.Guardrails.{stop_at_cents}
use mac_bennet.Night.Effort.{safe_to_start, is_safe, remaining_minutes}
use mac_bennet.Night.Scheduler.{
  NightCandidate, NightState, NightDecision, Skip, SkipReason, CurrentWork, CurrentStatus,
  UsageState, UsageSource, BudgetBasis, comes_before, order_candidates, choose, choose_next,
  decide_idle, decide_current, decide_next_action, classify_budget, classify_by, classify_observed,
  enforceable_spend, spend_of, not_eligible_skips, skip_rest,
}
use mac_bennet.Night.Scheduler.Order.{
  IsCollation, IsSorted, order_candidates-IsSorted, Any-order_candidates, order_candidates-Any,
  comes_before_irrefl,
}

-- It may be started now.
abbrev pub is_startable : NightState → NightCandidate → Bool
is_startable state c = is_safe (safe_to_start state.now state.cutoff_at c.effort state.policy)

keep-Any :
    (p : NightCandidate → Bool) (cs : List NightCandidate) (q : NightCandidate)
    → Any (λ x. x ≡ q) (keep p cs)
    → Any (λ x. x ≡ q) cs × (p q ≡ true)
keep-Any p [] q m = absurd m
keep-Any p (x ∷ xs) q m = elim (Bool-cases (p x)) [
  | inl e ↦ elim (rw e at m) [
    | inl h ↦ (inl h, subst (λ y. p y ≡ true) h e)
    | inr h ↦ let rest = keep-Any p xs q h in (inr rest.0, rest.1)
  ]
  | inr e ↦ let rest = keep-Any p xs q (rw e at m) in (inr rest.0, rest.1)
]

Any-keep :
    (p : NightCandidate → Bool) (cs : List NightCandidate) (q : NightCandidate)
    → Any (λ x. x ≡ q) cs
    → p q ≡ true
    → Any (λ x. x ≡ q) (keep p cs)
Any-keep p [] q m e = absurd m
Any-keep p (x ∷ xs) q m e = elim (Bool-cases (p x)) [
  | inl hit ↦ rw hit (elim m [ inl h ↦ inl h | inr later ↦ inr (Any-keep p xs q later e) ])
  | inr miss ↦ rw miss (elim m [
    | inl h ↦ cc (miss, e, subst (λ y. p x ≡ p y) h refl)
    | inr later ↦ Any-keep p xs q later e
  ])
]

start-inj :
    {c d : NightCandidate} {l k : List Skip}
    → NightDecision.start c l ≡ NightDecision.start d k
    → c ≡ d
start-inj {c} e =
    subst (λ x. elim x as (λ _. Type 0) [ NightDecision.start d k ↦ c ≡ d | _ ↦ Unit {0} ]) e refl

choose-start :
    (state : NightState) (all l : List NightCandidate) (skipped k : List Skip) (c : NightCandidate)
    → choose state all l skipped ≡ NightDecision.start c k
    → Any (λ x. x ≡ c) l × (is_startable state c ≡ true)
unfolding choose
choose-start state all [] skipped k c e = cc
choose-start state all (x ∷ xs) skipped k c e = elim (Bool-cases (is_startable state x)) [
  | inl safe ↦
      let same : x ≡ c = start-inj (rw safe at e) in
      (inl same, subst (λ y. is_startable state y ≡ true) same safe)
  | inr unsafe ↦ let rest = choose-start state all xs _ k c (rw unsafe at e) in (inr rest.0, rest.1)
]

All-Any :
    (P : NightCandidate → Type 0) (l : List NightCandidate) (q : NightCandidate)
    → All P l
    → Any (λ x. x ≡ q) l
    → P q
All-Any P [] q h m = absurd m
All-Any P (x ∷ xs) q h (inl e) = subst P e h.0
All-Any P (x ∷ xs) q h (inr m) = All-Any P xs q h.1 m

choose-best :
    (before : String → String → Bool) (collation : IsCollation before) (project : Option String)
    (state : NightState) (all l : List NightCandidate) (skipped k : List Skip)
    (c q : NightCandidate)
    → IsSorted before collation project l
    → choose state all l skipped ≡ NightDecision.start c k
    → Any (λ x. x ≡ q) l
    → is_startable state q ≡ true
    → comes_before before project q c ≡ false
unfolding choose
choose-best before collation project state all [] skipped k c q s e m safe = absurd m
choose-best before collation project state all (x ∷ xs) skipped k c q s e m safe =
    elim (Bool-cases (is_startable state x)) [
      | inl hit ↦
          let same : x ≡ c = start-inj (rw hit at e) in
          subst (λ y. comes_before before project q y ≡ false) same
            (elim m [
              | inl is_x ↦
                  subst (λ y. comes_before before project y x ≡ false) is_x
                    (comes_before_irrefl before collation project x)
              | inr later ↦ All-Any _ xs q s.0 later
            ])
      | inr miss ↦ elim m [
        | inl is_x ↦
            cc (miss, safe, subst (λ y. is_startable state x ≡ is_startable state y) is_x refl)
        | inr later ↦
            choose-best before collation project state all xs _ k c q s.1 (rw miss at e) later safe
      ]
    ]

choose-total :
    (state : NightState) (all l : List NightCandidate) (skipped : List Skip) (q : NightCandidate)
    → Any (λ x. x ≡ q) l
    → is_startable state q ≡ true
    → (c : NightCandidate) × (k : List Skip) × (choose state all l skipped
        ≡ NightDecision.start c k)
unfolding choose
choose-total state all [] skipped q m safe = absurd m
choose-total state all (x ∷ xs) skipped q m safe = elim (Bool-cases (is_startable state x)) [
  | inl hit ↦ (x, skip_rest x all skipped, rw hit refl)
  | inr miss ↦ elim m [
    | inl is_x ↦ cc (miss, safe, subst (λ y. is_startable state x ≡ is_startable state y) is_x refl)
    | inr later ↦
        let rest =
          choose-total state all xs
            (skipped ++ (record { title = x.title; reason = SkipReason.insufficient_time } ∷ [])) q
            later safe in
        (rest.0, rest.1, rw miss rest.2)
  ]
]

current_no_start :
    (w : CurrentWork) (c : NightCandidate) (k : List Skip)
    → ¬ (decide_current w ≡ NightDecision.start c k)
unfolding decide_current
current_no_start w c k e = status w.status e
  where
    status :
        (s : CurrentStatus)
        → ¬ (
            elim s as (λ _. NightDecision) [
              | CurrentStatus.running ↦ NightDecision.continue
              | CurrentStatus.self_review ↦ NightDecision.continue
              | CurrentStatus.blocked ↦ NightDecision.record_blocker w.run_id
              | _ ↦ NightDecision.finalise w.run_id
            ]
            ≡ NightDecision.start c k)
    status CurrentStatus.running h = cc
    status s h = cc

-- Nothing forbids new work.
pub record IsOpen (state : NightState) : Type 0 where
  pub free : state.current ≡ none
  pub wanted : state.stop_requested ≡ false
  pub allowed : state.guardrail_stopped ≡ false
  pub in_time : leb (remaining_minutes state.now state.cutoff_at) 0 ≡ false
  pub in_budget : (classify_budget state.usage).stop ≡ false
  pub staffed : state.worker_available ≡ true

idle-start :
    (before : String → String → Bool) (state : NightState) (c : NightCandidate) (k : List Skip)
    → state.current ≡ none
    → decide_idle before state ≡ NightDecision.start c k
    → IsOpen state × (choose_next before state ≡ NightDecision.start c k)
unfolding decide_idle choose_next choose
idle-start before state c k free e = elim (Bool-cases state.stop_requested) [
  | inl a ↦ cc (rw a at e)
  | inr a ↦ elim (Bool-cases state.guardrail_stopped) [
    | inl b ↦ cc (rw (a, b) at e)
    | inr b ↦ elim (Bool-cases (leb (remaining_minutes state.now state.cutoff_at) 0)) [
      | inl t ↦ cc (rw (a, b, t) at e)
      | inr t ↦ elim (Bool-cases (classify_budget state.usage).stop) [
        | inl m ↦ cc (rw (a, b, t, m) at e)
        | inr m ↦ elim (Bool-cases state.worker_available) [
          | inr w ↦ cc (rw (a, b, t, m, w) at e)
          | inl w ↦ (
            record {
              free = free;
              wanted = a;
              allowed = b;
              in_time = t;
              in_budget = m;
              staffed = w;
            },
            rw (a, b, t, m, w) at e,
          )
        ]
      ]
    ]
  ]
]

decide-start :
    (before : String → String → Bool) (state : NightState) (c : NightCandidate) (k : List Skip)
    → decide_next_action before state ≡ NightDecision.start c k
    → IsOpen state × (choose_next before state ≡ NightDecision.start c k)
unfolding decide_next_action decide_idle choose_next choose
decide-start before state c k e = elim (Option-cases state.current) [
  | inl free ↦ idle-start before state c k free (rw free at e)
  | inr (w, busy) ↦ absurd (current_no_start w c k (rw busy at e))
]

open_decides :
    (before : String → String → Bool) (state : NightState)
    → IsOpen state
    → decide_next_action before state ≡ choose_next before state
unfolding decide_next_action decide_idle choose_next choose
open_decides before state o =
    rw (o.free, decide_next_action)
      (rw (o.wanted, o.allowed, o.in_time, o.in_budget, o.staffed, decide_idle) refl)

-- The scheduler starts a task only when no run is current, nobody has stopped the shift, the
-- cutoff is ahead, the budget does not stop it and a worker is there; and then only a candidate of
-- the list that is eligible and safe to start.
pub decide_next_action-start :
    (before : String → String → Bool) (state : NightState) (c : NightCandidate) (k : List Skip)
    → decide_next_action before state ≡ NightDecision.start c k
    → IsOpen state
      × Any (λ x. x ≡ c) state.candidates
      × (c.eligible ≡ true)
      × (is_startable state c ≡ true)
unfolding choose_next
decide_next_action-start before state c k e =
    let d = decide-start before state c k e in
    let chosen = choose-start state _ _ _ k c d.1 in
    let kept =
      keep-Any (λ x. x.eligible) state.candidates c
        (Any-order_candidates before state.last_project_id c _ chosen.0) in
    (d.0, kept.0, kept.1, chosen.1)

-- No other candidate that is eligible and safe to start comes strictly before the one started, by
-- current project, priority, direct work, and name; the comparison of names is assumed to be
-- consistent.
pub decide_next_action-best :
    (before : String → String → Bool) (state : NightState) (c q : NightCandidate) (k : List Skip)
    → IsCollation before
    → decide_next_action before state ≡ NightDecision.start c k
    → Any (λ x. x ≡ q) state.candidates
    → q.eligible ≡ true
    → is_startable state q ≡ true
    → comes_before before state.last_project_id q c ≡ false
unfolding choose_next
decide_next_action-best before state c q k collation e m able safe =
    let d = decide-start before state c k e in
    choose-best before collation state.last_project_id state _ _ _ k c q
      (order_candidates-IsSorted before collation state.last_project_id _) d.1
      (order_candidates-Any before state.last_project_id q _
        (Any-keep (λ x. x.eligible) state.candidates q m able))
      safe

-- When nothing forbids new work and some candidate is eligible and safe to start, the scheduler
-- starts one.
pub decide_next_action-total :
    (before : String → String → Bool) (state : NightState) (q : NightCandidate)
    → IsOpen state
    → Any (λ x. x ≡ q) state.candidates
    → q.eligible ≡ true
    → is_startable state q ≡ true
    → (c : NightCandidate) × (k : List Skip) × (decide_next_action before state
        ≡ NightDecision.start c k)
unfolding choose_next
decide_next_action-total before state q o m able safe =
    let found =
      choose-total state
        (order_candidates before state.last_project_id (keep (λ x. x.eligible) state.candidates))
        (order_candidates before state.last_project_id (keep (λ x. x.eligible) state.candidates))
        (not_eligible_skips state.candidates) q
        (order_candidates-Any before state.last_project_id q _
          (Any-keep (λ x. x.eligible) state.candidates q m able))
        safe in
    (found.0, found.1, open_decides before state o ∙ found.2)

spend_of-some :
    (source : UsageSource) (budget : ℕ) (spend : Option ℕ) (s : ℕ)
    → spend_of source budget spend ≡ some s
    → (source ≡ UsageSource.exact) × (spend ≡ some s) × (1 ≤ budget)
unfolding spend_of
spend_of-some UsageSource.exact budget spend s e = (refl, ground arith, ground arith)
spend_of-some source budget spend s e = cc

-- The shift stops for its budget only if exact spending has reached the stop level of a budget
-- that is set, or if an observed percentage is at the soft threshold and that was set to stop.
pub classify_budget-stop :
    (u : UsageState)
    → (classify_budget u).stop ≡ true
    → ((spend : ℕ) × (u.source ≡ UsageSource.exact)
        × (u.recorded_spend_cents ≡ some spend)
        × (1 ≤ u.nightly_budget_cents)
        × (stop_at_cents u.nightly_budget_cents u.budget_stop_pct ≤ spend)
        × ((classify_budget u).basis ≡ BudgetBasis.exact_hard_budget))
      ⊎ ((pct : ℕ) × (u.observed_pct ≡ some pct)
          × (u.soft_threshold_pct ≤ pct)
          × (u.soft_stops_execution ≡ true)
          × ((classify_budget u).basis ≡ BudgetBasis.soft_threshold))
unfolding classify_budget classify_by classify_observed enforceable_spend
classify_budget-stop u e = elim (Option-cases (enforceable_spend u)) [
  | inr (spend, f) ↦
      let d = spend_of-some u.source u.nightly_budget_cents u.recorded_spend_cents spend f in
      inl (spend, d.0, d.1, d.2, leb→le _ _ (rw f at e), rw f refl)
  | inl f ↦ elim (Option-cases u.observed_pct) [
    | inl g ↦ cc (rw (f, g) at e)
    | inr (pct, g) ↦
        let both = and-eq-true _ _ (rw (f, g) at e) in
        inr (pct, g, leb→le _ _ both.0, both.1, rw (f, g) refl)
  ]
]
