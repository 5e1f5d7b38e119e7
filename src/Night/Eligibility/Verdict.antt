-- ===== src/Night/Eligibility/Verdict.antt =====
-- What an eligible task is, and how priority ranks compare.
use mac_bennet.Prelude.{
  ℕ, suc, ◌+◌, ◌*◌, ◌≤◌, ◌<◌, ◌≡◌, ◌⊎◌, ◌++◌, refl, String, Bool, true, false, ◌&&◌, not, List, [],
  ◌∷◌, Option, none, some, inl, inr, All, arith, Bool-cases, Option-cases, length, ◌==◌,
  and-eq-true, is_some,
}
use mac_bennet.Protocol.Enums.{priority_rank}
use mac_bennet.Runs.Confidence.{Confidence, ConfidencePolicy, to_scaled}
use mac_bennet.Night.Eligibility.{
  EligibilityInput, EligibilityCode, Check, check, evaluate_checks, blocking_codes, is_eligible,
  all_board_checks, kind_checks, repository_checks, capability_checks, above_floor,
  permits_autonomy, requires_repository, compute_priority_rank, rank_from, urgency_ms,
  monday_priority_rank, band, horizon_ms,
}

abbrev IsOk : Check → Type 0
IsOk c = c.ok ≡ true

suc_not_zero : (n : ℕ) → ¬ ((suc n == 0) ≡ true)
suc_not_zero n e = ground arith

All-IsOk : (cs : List Check) → (length (blocking_codes cs) == 0) ≡ true → All IsOk cs
unfolding blocking_codes
All-IsOk [] e = tt
All-IsOk (c ∷ cs) e = elim (Bool-cases c.ok) [
  | inl h ↦ (h, All-IsOk cs (rw h at e))
  | inr h ↦ absurd (suc_not_zero _ (rw h at e))
]

All-split : (xs ys : List Check) → All IsOk (xs ++ ys) → All IsOk xs × All IsOk ys
All-split [] ys h = (tt, h)
All-split (x ∷ xs) ys h = let rest = All-split xs ys h.1 in ((h.0, rest.0), rest.1)

not-true : (b : Bool) → not b ≡ true → b ≡ false
not-true false e = refl
not-true true e = cc

autonomy_cases :
    (policy : ConfidencePolicy) (o : Option Confidence) (limited : Bool)
    → permits_autonomy policy o limited ≡ true
    → (c : Confidence) × (o ≡ some c)
      × (to_scaled policy.min_execution_confidence ≤ to_scaled c)
      × ((to_scaled policy.default_confidence_threshold ≤ to_scaled c) ⊎ (limited ≡ true))
unfolding permits_autonomy above_floor
autonomy_cases policy none limited e = cc
autonomy_cases policy (some c) limited e = (c, refl, ground arith, ground arith)

repository_needed :
    (i : EligibilityInput)
    → All IsOk (repository_checks i)
    → (requires_repository i.task_kind ≡ false) ⊎ (i.repository_approved ≡ true)
unfolding repository_checks
repository_needed i h = elim (Bool-cases (requires_repository i.task_kind)) [
  | inl e ↦ inr (rw e at h).0
  | inr e ↦ inl e
]

-- A task that is eligible to be started without a person belongs to an active project approved for
-- the night, has a brief whose confidence is at or above the floor, and at or above the autonomy
-- threshold unless a person approved a limited scope; if its kind needs a repository, that is
-- approved; and it is not in flight, not attempted this shift, and not blocked earlier tonight.
pub is_eligible_sound :
    (normalise : String → String) (i : EligibilityInput)
    → is_eligible normalise i ≡ true
    → (i.night_shift_approved ≡ true)
      × (i.project_active ≡ true)
      × ((c : Confidence) × (i.brief_confidence ≡ some c)
          × (to_scaled i.policy.min_execution_confidence ≤ to_scaled c)
          × ((to_scaled i.policy.default_confidence_threshold ≤ to_scaled c)
              ⊎ (i.has_approved_limited_scope ≡ true)))
      × ((requires_repository i.task_kind ≡ false) ⊎ (i.repository_approved ≡ true))
      × (i.has_active_run ≡ false)
      × (i.attempted_this_shift ≡ false)
      × (i.blocked_earlier_tonight ≡ false)
unfolding is_eligible evaluate_checks
is_eligible_sound normalise i e =
    let h = All-IsOk (evaluate_checks normalise i) e in
    let project = and-eq-true _ _ h.0 in
    let last_checks =
      check EligibilityCode.no_active_run (not i.has_active_run && not i.attempted_this_shift)
      ∷ check EligibilityCode.not_previously_blocked (not i.blocked_earlier_tonight)
      ∷ [] in
    let late_checks = capability_checks i.capability i.task_kind ++ last_checks in
    let brief_checks =
      check EligibilityCode.brief_exists (is_some i.brief_confidence)
      ∷ check EligibilityCode.confidence_above_floor (above_floor i.policy i.brief_confidence)
      ∷ check EligibilityCode.confidence_permits_autonomy
          (permits_autonomy i.policy i.brief_confidence i.has_approved_limited_scope)
      ∷ (repository_checks i ++ late_checks) in
    let kinds = kind_checks i.allowed_task_kinds i.task_kind in
    let board = All-split (all_board_checks normalise i) (kinds ++ brief_checks) h.1 in
    let kind = All-split kinds brief_checks board.1 in
    let brief = kind.1 in
    let repository = All-split (repository_checks i) late_checks brief.1.1.1 in
    let capability =
      All-split (capability_checks i.capability i.task_kind) last_checks repository.1 in
    let last = capability.1 in
    let active = and-eq-true _ _ last.0 in
    (
      project.0,
      project.1,
      autonomy_cases i.policy i.brief_confidence i.has_approved_limited_scope brief.1.1.0,
      repository_needed i repository.0,
      not-true _ active.0,
      not-true _ active.1,
      not-true _ last.1.0,
    )

-- The priority that a rank starts from.
abbrev pub base_priority : (String → String) → EligibilityInput → ℕ
base_priority normalise i = elim i.item [
  | none ↦ priority_rank i.priority
  | some item ↦ monday_priority_rank normalise item.priority
]

urgency_ms_bound : (now : ℕ) (due : Option ℕ) → urgency_ms now due ≤ horizon_ms
unfolding urgency_ms
urgency_ms_bound now none = omega arith
urgency_ms_bound now (some d) = ground arith

-- Due date and board position stay within a priority band.
rank_from_band :
    (p u o : ℕ)
    → u ≤ horizon_ms
    → (p * band ≤ rank_from p u o) × (rank_from p u o < p * band + band)
unfolding rank_from
rank_from_band p u o h = (ground arith, ground arith)

rank_band :
    (normalise : String → String) (now : ℕ) (i : EligibilityInput)
    → let r = compute_priority_rank normalise now i in
      (base_priority normalise i * band ≤ r) × (r < base_priority normalise i * band + band)
unfolding compute_priority_rank
rank_band normalise now i = elim (Option-cases i.item) [
  | inl e ↦ rw (e, compute_priority_rank) (rank_from_band _ _ _ (urgency_ms_bound now none))
  | inr (item, e) ↦
      rw (e, compute_priority_rank) (rank_from_band _ _ _ (urgency_ms_bound now item.due_date))
]

-- A higher priority always ranks before a lower one, whatever the due dates and the positions on
-- the boards, for direct work and board items alike.
pub compute_priority_rank-band :
    (normalise : String → String) (now : ℕ) (i j : EligibilityInput)
    → base_priority normalise i < base_priority normalise j
    → compute_priority_rank normalise now i < compute_priority_rank normalise now j
compute_priority_rank-band normalise now i j h =
    omega (arith, rank_band normalise now i, rank_band normalise now j, h)
