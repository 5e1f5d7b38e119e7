-- ===== src/Night/Scheduler.antt =====
-- apps/server/src/domain/night-scheduler.ts: one decision of the night shift. A candidate's `key`
-- stands for the identity of its object; `locale_before` is a negative `localeCompare`. The
-- rationale keeps the candidates that were passed over; its texts and counts are left out.
pub mod Order
pub mod Choice
use mac_bennet.Prelude.{
  ℕ, ◌+◌, ◌*◌, ◌/◌, ◌-◌, ◌++◌, ◌==◌, String, Bool, true, false, ◌&&◌, ◌||◌, not, List, [], ◌∷◌,
  Option, none, some, ltb, leb, any, keep, str_eq, or_else, if◌then◌else◌,
}
use mac_bennet.Runs.Guardrails.{stop_at_cents}
use mac_bennet.Night.Effort.{
  EffortEstimate, SafeStartPolicy, SafeStart, safe_to_start, is_safe, remaining_minutes,
}

pub data CandidateSource : Type 0 where
  monday direct : CandidateSource

pub record NightCandidate : Type 0 where
  pub key : ℕ
  pub task_id : Option String
  pub monday_item_id : Option String
  pub title : String
  pub project_id : String
  pub eligible : Bool
  pub priority_rank : ℕ
  pub effort : EffortEstimate
  pub source : Option CandidateSource

pub data CurrentStatus : Type 0 where
  running blocked self_review ready_for_human_review completed failed stopped : CurrentStatus

pub record CurrentWork : Type 0 where
  pub run_id : ℕ
  pub status : CurrentStatus

pub data UsageSource : Type 0 where
  exact observed estimated unavailable : UsageSource

pub record UsageState : Type 0 where
  pub source : UsageSource
  pub recorded_spend_cents : Option ℕ
  pub nightly_budget_cents : ℕ
  pub budget_stop_pct : ℕ
  pub observed_pct : Option ℕ
  pub soft_threshold_pct : ℕ
  pub soft_stops_execution : Bool

pub data BudgetBasis : Type 0 where
  exact_hard_budget soft_threshold no_budget_data : BudgetBasis

pub record BudgetClass : Type 0 where
  pub stop : Bool
  pub basis : BudgetBasis

-- The spend against which a budget is enforced: an exact one, if a budget is set.
unfoldable pub spend_of : UsageSource → ℕ → Option ℕ → Option ℕ
spend_of UsageSource.exact budget spend = if ltb 0 budget then spend else none
spend_of source budget spend = none

unfoldable pub enforceable_spend : UsageState → Option ℕ
enforceable_spend u = spend_of u.source u.nightly_budget_cents u.recorded_spend_cents

unfoldable pub classify_observed : UsageState → Option ℕ → BudgetClass
classify_observed u none = record { stop = false; basis = BudgetBasis.no_budget_data }
classify_observed u (some pct) = record {
  stop = leb u.soft_threshold_pct pct && u.soft_stops_execution;
  basis = BudgetBasis.soft_threshold;
}

unfoldable pub classify_by : UsageState → Option ℕ → BudgetClass
classify_by u none = classify_observed u u.observed_pct
classify_by u (some spend) = record {
  stop = leb (stop_at_cents u.nightly_budget_cents u.budget_stop_pct) spend;
  basis = BudgetBasis.exact_hard_budget;
}

unfoldable pub classify_budget : UsageState → BudgetClass
classify_budget u = classify_by u (enforceable_spend u)

pub record NightState : Type 0 where
  pub now : ℕ
  pub cutoff_at : ℕ
  pub current : Option CurrentWork
  pub last_project_id : Option String
  pub candidates : List NightCandidate
  pub usage : UsageState
  pub worker_available : Bool
  pub guardrail_stopped : Bool
  pub policy : SafeStartPolicy
  pub stop_requested : Bool

pub data SkipReason : Type 0 where
  not_eligible insufficient_time lower_priority worker_busy budget : SkipReason
  usage_threshold no_capable_worker : SkipReason

pub record Skip : Type 0 where
  pub title : String
  pub reason : SkipReason

pub data NightStopReason : Type 0 where
  cutoff_reached budget_exhausted usage_threshold no_eligible_work : NightStopReason
  guardrail_stop stopped_by_user worker_unavailable sandbox_unavailable : NightStopReason
  model_provider_required : NightStopReason

pub data NightDecision : Type 0 where
  continue : NightDecision
  finalise record_blocker : ℕ → NightDecision
  start : NightCandidate → List Skip → NightDecision
  idle : List Skip → NightDecision
  stop : NightStopReason → NightDecision

abbrev pub is_direct : Option CandidateSource → Bool
is_direct (some CandidateSource.direct) = true
is_direct s = false

-- `mondayItemId ?? taskId ?? title`
unfoldable pub sort_key : NightCandidate → String
sort_key c = or_else c.monday_item_id (or_else c.task_id c.title)

-- 0 for the current project, 1 for others; without a current project all are alike.
unfoldable pub project_rank : Option String → NightCandidate → ℕ
project_rank none c = 0
project_rank (some p) c = if str_eq c.project_id p then 0 else 1

unfoldable pub source_rank : NightCandidate → ℕ
source_rank c = if is_direct c.source then 0 else 1

-- The comparator of `orderCandidates` is negative.
unfoldable pub comes_before :
    (String → String → Bool) → Option String → NightCandidate → NightCandidate → Bool
comes_before locale_before project a b =
    ltb (project_rank project a) (project_rank project b)
    || (project_rank project a == project_rank project b
        && (ltb a.priority_rank b.priority_rank
            || (a.priority_rank == b.priority_rank
                && (ltb (source_rank a) (source_rank b)
                    || (source_rank a == source_rank b
                        && locale_before (sort_key a) (sort_key b))))))

-- `[...candidates].sort(...)`, which is stable.
unfoldable pub insert_candidate :
    (String → String → Bool)
    → Option String
    → NightCandidate
    → List NightCandidate
    → List NightCandidate
insert_candidate locale_before project c [] = c ∷ []
insert_candidate locale_before project c (x ∷ xs) =
    if comes_before locale_before project x c
    then x ∷ insert_candidate locale_before project c xs
    else c ∷ x ∷ xs

unfoldable pub order_candidates :
    (String → String → Bool) → Option String → List NightCandidate → List NightCandidate
order_candidates locale_before project [] = []
order_candidates locale_before project (c ∷ cs) =
    insert_candidate locale_before project c (order_candidates locale_before project cs)

abbrev pub has_title : String → List Skip → Bool
has_title title l = any (λ s. str_eq s.title title) l

-- Everything ordered beside the winner, unless its title has been skipped.
unfoldable pub skip_rest : NightCandidate → List NightCandidate → List Skip → List Skip
skip_rest winner [] skipped = skipped
skip_rest winner (r ∷ rest) skipped = skip_rest winner rest (
    if r.key == winner.key || has_title r.title skipped
    then skipped
    else skipped ++ (record { title = r.title; reason = SkipReason.lower_priority } ∷ []))

-- The loop over the ordered candidates; `all` is the whole order.
unfoldable pub choose :
    NightState → List NightCandidate → List NightCandidate → List Skip → NightDecision
choose state all [] skipped = NightDecision.idle skipped
choose state all (c ∷ cs) skipped =
    if is_safe (safe_to_start state.now state.cutoff_at c.effort state.policy)
    then NightDecision.start c (skip_rest c all skipped)
    else choose state all cs
        (skipped ++ (record { title = c.title; reason = SkipReason.insufficient_time } ∷ []))

unfoldable pub not_eligible_skips : List NightCandidate → List Skip
not_eligible_skips [] = []
not_eligible_skips (c ∷ cs) =
    if c.eligible
    then not_eligible_skips cs
    else record { title = c.title; reason = SkipReason.not_eligible } ∷ not_eligible_skips cs

unfoldable pub choose_next : (String → String → Bool) → NightState → NightDecision
choose_next locale_before state =
    let ordered =
      order_candidates locale_before state.last_project_id
        (keep (λ c. c.eligible) state.candidates) in
    choose state ordered ordered (not_eligible_skips state.candidates)

unfoldable pub budget_stop_reason : BudgetBasis → NightStopReason
budget_stop_reason BudgetBasis.exact_hard_budget = NightStopReason.budget_exhausted
budget_stop_reason b = NightStopReason.usage_threshold

unfoldable pub decide_idle : (String → String → Bool) → NightState → NightDecision
decide_idle locale_before state =
    if state.stop_requested
    then NightDecision.stop NightStopReason.stopped_by_user
    else if state.guardrail_stopped
    then NightDecision.stop NightStopReason.guardrail_stop
    else if leb (remaining_minutes state.now state.cutoff_at) 0
    then NightDecision.stop NightStopReason.cutoff_reached
    else if (classify_budget state.usage).stop
    then NightDecision.stop (budget_stop_reason (classify_budget state.usage).basis)
    else if not state.worker_available
    then NightDecision.idle []
    else choose_next locale_before state

unfoldable pub decide_current : CurrentWork → NightDecision
decide_current w = elim w.status [
  | CurrentStatus.running ↦ NightDecision.continue
  | CurrentStatus.self_review ↦ NightDecision.continue
  | CurrentStatus.blocked ↦ NightDecision.record_blocker w.run_id
  | _ ↦ NightDecision.finalise w.run_id
]

unfoldable pub decide_next_action : (String → String → Bool) → NightState → NightDecision
decide_next_action locale_before state = elim state.current [
  | none ↦ decide_idle locale_before state
  | some w ↦ decide_current w
]
