-- ===== src/Night/Examples.antt =====
-- Two candidates of a night, and a direct task.
use mac_bennet.Prelude.{
  round_double, round_quotient, excess_bits, power_of_two, arith, ℕ, ◌≡◌, ◌≤◌, ◌<◌, ◌⊎◌, refl, inl,
  String, Bool, true, false, List, [], ◌∷◌, none, some, Any,
}
use mac_bennet.Runs.Guardrails.{stop_at_cents}
use mac_bennet.Protocol.Enums.{TaskPriority}
use mac_bennet.Runs.Confidence.{to_scaled}
use mac_bennet.Night.Eligibility.{
  EligibilityInput, TaskKind, is_eligible, evaluate_checks, blocking_codes, all_board_checks,
  kind_checks, kind_permitted, above_floor, permits_autonomy, repository_checks, capability_checks,
  requires_repository, compute_priority_rank,
}
use mac_bennet.Night.Eligibility.Verdict.{is_eligible_sound, compute_priority_rank-band}
use mac_bennet.Night.Effort.{
  EffortSizeClass, EffortEstimate, SafeStartPolicy, BriefFacts, safe_to_start, is_safe,
  remaining_minutes, required_minutes,
}
use mac_bennet.Night.Effort.Fit.{safe_to_start-longer}
use mac_bennet.Night.Scheduler.{
  NightCandidate, NightState, NightDecision, Skip, SkipReason, CandidateSource, UsageState,
  UsageSource, BudgetBasis, comes_before, sort_key, project_rank, source_rank, insert_candidate,
  order_candidates, skip_rest, choose, not_eligible_skips, choose_next, decide_idle,
  decide_next_action, classify_budget, classify_by, classify_observed, enforceable_spend, spend_of,
}
use mac_bennet.Night.Scheduler.Order.{IsCollation}
use mac_bennet.Night.Scheduler.Choice.{
  IsOpen, is_startable, decide_next_action-start, decide_next_action-best, decide_next_action-total,
  classify_budget-stop,
}

opened : Unit {0}
unfolding safe_to_start remaining_minutes required_minutes round_double round_quotient excess_bits
    power_of_two comes_before sort_key project_rank source_rank insert_candidate order_candidates
    skip_rest choose not_eligible_skips choose_next decide_idle decide_next_action classify_budget
    classify_by classify_observed enforceable_spend spend_of stop_at_cents
opened = tt

-- A collation that takes all names as alike.
abbrev flat : String → String → Bool
flat a b = false

flat-IsCollation : IsCollation flat
flat-IsCollation = record { asym = λ a b e. refl; weak = λ a b c e f. refl }

abbrev effort : EffortEstimate
effort = record {
  size_class = EffortSizeClass.medium;
  minutes = 60;
  partial_useful = true;
  preservable = true;
}

abbrev policy : SafeStartPolicy
policy = record {
  safety_factor = 130;
  wrap_up_minutes = 15;
  min_start_minutes = 30;
  large_task_min_minutes = 180;
}

abbrev board_item : NightCandidate
board_item = record {
  key = 1;
  task_id = none;
  monday_item_id = some "m1";
  title = "Fix the export";
  project_id = "p1";
  eligible = true;
  priority_rank = 2;
  effort = effort;
  source = some CandidateSource.monday;
}

abbrev direct_task : NightCandidate
direct_task = record {
  key = 2;
  task_id = some "t2";
  monday_item_id = none;
  title = "Research the vendor";
  project_id = "p1";
  eligible = true;
  priority_rank = 2;
  effort = effort;
  source = some CandidateSource.direct;
}

abbrev usage : UsageState
usage = record {
  source = UsageSource.exact;
  recorded_spend_cents = some 4600;
  nightly_budget_cents = 5000;
  budget_stop_pct = 90;
  observed_pct = none;
  soft_threshold_pct = 80;
  soft_stops_execution = false;
}

abbrev state : NightState
state = record {
  now = 0;
  cutoff_at = 18000000;
  current = none;
  last_project_id = some "p1";
  candidates = board_item ∷ direct_task ∷ [];
  usage = record usage { recorded_spend_cents = some 100 };
  worker_available = true;
  guardrail_stopped = false;
  policy = policy;
  stop_requested = false;
}

abbrev skipped : List Skip
skipped = record { title = "Fix the export"; reason = SkipReason.lower_priority } ∷ []

decide_next_action-start_example :
    IsOpen state
    × Any (λ x. x ≡ direct_task) state.candidates
    × (true ≡ true)
    × (is_startable state direct_task ≡ true)
unfolding opened
decide_next_action-start_example = decide_next_action-start flat state direct_task skipped refl

decide_next_action-best_example :
    comes_before flat state.last_project_id board_item direct_task ≡ false
unfolding opened
decide_next_action-best_example =
    decide_next_action-best flat state direct_task board_item skipped flat-IsCollation refl
      (inl refl) refl refl

decide_next_action-total_example :
    (c : NightCandidate) × (k : List Skip) × (decide_next_action flat state
      ≡ NightDecision.start c k)
unfolding opened
decide_next_action-total_example =
    decide_next_action-total flat state board_item
      (record {
        free = refl;
        wanted = refl;
        allowed = refl;
        in_time = refl;
        in_budget = refl;
        staffed = refl;
      })
      (inl refl) refl refl

classify_budget-stop_example :
    ((spend : ℕ) × (usage.source ≡ UsageSource.exact)
      × (usage.recorded_spend_cents ≡ some spend)
      × (1 ≤ usage.nightly_budget_cents)
      × (stop_at_cents usage.nightly_budget_cents usage.budget_stop_pct ≤ spend)
      × ((classify_budget usage).basis ≡ BudgetBasis.exact_hard_budget))
    ⊎ ((pct : ℕ) × (usage.observed_pct ≡ some pct)
        × (usage.soft_threshold_pct ≤ pct)
        × (usage.soft_stops_execution ≡ true)
        × ((classify_budget usage).basis ≡ BudgetBasis.soft_threshold))
unfolding opened
classify_budget-stop_example = classify_budget-stop usage refl

safe_to_start-longer_example : is_safe (safe_to_start 0 18000000 effort policy) ≡ true
unfolding opened
safe_to_start-longer_example =
    safe_to_start-longer 10200000 0 15600000 18000000 effort policy (omega arith) (omega arith) refl

-- A large task at a factor of 1.12 with 20 minutes to wrap up: 150 * 1.12 is above 168 in doubles.
required_minutes_test :
    required_minutes 150 (record policy { safety_factor = 112; wrap_up_minutes = 20 }) ≡ 189
unfolding opened
required_minutes_test = refl

-- At the default factor of 1.5 nothing is rounded.
required_minutes_default_test : required_minutes 150 (record policy { safety_factor = 150 }) ≡ 240
unfolding opened
required_minutes_default_test = refl

abbrev facts : BriefFacts
facts = record {
  criteria = 5;
  components = 3;
  considerations = 2;
  risks = 1;
  mentions_migration = true;
  mentions_architecture = false;
}

-- A direct research task.
abbrev research_task : EligibilityInput
research_task = record {
  night_shift_approved = true;
  project_active = true;
  allowed_task_kinds = some (TaskKind.research ∷ []);
  task_kind = TaskKind.research;
  priority = TaskPriority.high;
  board = none;
  item = none;
  dependency_status = λ id. none;
  brief_confidence = some 820000000;
  has_approved_limited_scope = false;
  repository_approved = false;
  has_active_run = false;
  attempted_this_shift = false;
  blocked_earlier_tonight = false;
  capability = none;
  policy = record {
    min_execution_confidence = 600000000;
    default_confidence_threshold = 800000000;
  };
  board_order = 500;
}

abbrev unchanged : String → String
unchanged s = s

is_eligible_sound_example :
    (research_task.night_shift_approved ≡ true)
    × (research_task.project_active ≡ true)
    × ((c : ℕ) × (research_task.brief_confidence ≡ some c)
        × (to_scaled research_task.policy.min_execution_confidence ≤ to_scaled c)
        × ((to_scaled research_task.policy.default_confidence_threshold ≤ to_scaled c)
            ⊎ (research_task.has_approved_limited_scope ≡ true)))
    × ((requires_repository research_task.task_kind ≡ false)
        ⊎ (research_task.repository_approved ≡ true))
    × (research_task.has_active_run ≡ false)
    × (research_task.attempted_this_shift ≡ false)
    × (research_task.blocked_earlier_tonight ≡ false)
unfolding is_eligible evaluate_checks blocking_codes all_board_checks kind_checks kind_permitted
    above_floor permits_autonomy repository_checks capability_checks to_scaled
is_eligible_sound_example = is_eligible_sound unchanged research_task refl

compute_priority_rank-band_example :
    compute_priority_rank unchanged 0 research_task
    < compute_priority_rank unchanged 0 (record research_task { priority = TaskPriority.low })
compute_priority_rank-band_example =
    compute_priority_rank-band unchanged 0 research_task
      (record research_task { priority = TaskPriority.low }) (omega arith)
