-- ===== src/Night/Effort/Fit.antt =====
-- What a safe start promises, and how the estimate behaves.
use mac_bennet.Prelude.{
  ℕ, ◌*◌, ◌/◌, ◌≤◌, ◌≡◌, ◌⊎◌, ◌↔◌, inl, inr, refl, Bool, true, false, String, Option, none, some,
  arith, or_else, ◌||◌,
}
use mac_bennet.Night.Effort.{
  EffortSizeClass, EffortEstimate, ScopeKind, SafeStartPolicy, BriefFacts, size_minutes,
  brief_score, scoped, derived_class, estimate_effort, size_class_of, from_label, is_large,
  remaining_minutes, required_minutes, safe_to_start, is_safe,
}

-- In detail: a task may be started exactly if at least one minute and the floor remain, a large task has its
-- own minimum, and either the required time remains or a partial result is useful and can be
-- preserved.
pub safe_to_start_iff :
    (now cutoff : ℕ) (e : EffortEstimate) (p : SafeStartPolicy)
    → let remaining = remaining_minutes now cutoff in
      (is_safe (safe_to_start now cutoff e p) ≡ true) ↔ (
        (1 ≤ remaining)
        × (p.min_start_minutes ≤ remaining)
        × ((is_large e.size_class ≡ false) ⊎ (p.large_task_min_minutes ≤ remaining))
        × ((required_minutes e.minutes p ≤ remaining)
            ⊎ (e.partial_useful ≡ true) × (e.preservable ≡ true)))
unfolding safe_to_start
safe_to_start_iff now cutoff e p = (ground arith, ground arith)

-- What may be started may be started as well when it is earlier or the cutoff is later: no verdict on
-- a task turns from safe to unsafe because more of the night is left.
pub safe_to_start-longer :
    (now now' cutoff cutoff' : ℕ) (e : EffortEstimate) (p : SafeStartPolicy)
    → now' ≤ now
    → cutoff ≤ cutoff'
    → is_safe (safe_to_start now cutoff e p) ≡ true
    → is_safe (safe_to_start now' cutoff' e p) ≡ true
safe_to_start-longer now now' cutoff cutoff' e p earlier later h =
    let more : remaining_minutes now cutoff ≤ remaining_minutes now' cutoff' =
      unfold remaining_minutes in omega (arith, earlier, later) in
    let (one, floor, large, rest) = (safe_to_start_iff now cutoff e p).0 h in
    (safe_to_start_iff now' cutoff' e p).1 (
      omega (arith, one, more),
      omega (arith, floor, more),
      elim large [ inl x ↦ inl x | inr x ↦ inr (omega (arith, x, more)) ],
      elim rest [ inl x ↦ inl (omega (arith, x, more)) | inr x ↦ inr x ],
    )

narrow_minutes :
    (score : ℕ) → size_minutes (derived_class (score * 6 / 10)) ≤ size_minutes (derived_class score)
unfolding size_minutes derived_class
narrow_minutes score = ground arith

labelled_minutes :
    (o : Option EffortSizeClass) (score : ℕ)
    → size_minutes (or_else o (derived_class (score * 6 / 10)))
      ≤ size_minutes (or_else o (derived_class score))
labelled_minutes none score = narrow_minutes score
labelled_minutes (some c) score = omega arith

or_true : (b : Bool) → (b || true) ≡ true
or_true true = refl
or_true false = refl

-- Narrowing the scope never makes the estimate longer, and what could be left half-done or
-- preserved before can be so after.
pub estimate_effort-limited :
    (b : Option BriefFacts) (label : Option String)
    → let whole =
        estimate_effort (record { brief = b; size_label = label; scope_kind = ScopeKind.full }) in
      let narrow =
        estimate_effort
          (record { brief = b; size_label = label; scope_kind = ScopeKind.limited }) in
      (narrow.minutes ≤ whole.minutes)
      × (narrow.partial_useful ≡ true)
      × (narrow.preservable ≡ whole.preservable)
unfolding estimate_effort size_class_of scoped
estimate_effort-limited b label =
    (labelled_minutes (from_label label) (brief_score b), or_true _, refl)
