-- ===== src/Runs/Examples/Operations.antt =====
-- The theorems on single operations, on concrete rows.
use mac_bennet.Prelude.{
  ℕ, ◌≡◌, ◌≢◌, ◌⊎◌, ◌↔◌, ◌≤◌, ◌<◌, ◌&&◌, not, refl, inl, All, arith, true, false, List, none, some,
  [], ◌∷◌,
}
use mac_bennet.Protocol.Enums.{RunStatus, DecisionRisk}
use mac_bennet.Protocol.Jobs.{Json, JsonFields}
use mac_bennet.Runs.Confidence.{
  ConfidenceBand, DecisionInput, DecisionAction, to_scaled, to_fixed3, parse_confidence,
  check_approval_confidence, advise_execution, decide_action,
}
use mac_bennet.Runs.Confidence.Bands.{
  check_approval_confidence-ok, advise_execution-agrees, decide_action_sound, is_granted,
}
use mac_bennet.Runs.Guardrails.{GuardrailResult}
use mac_bennet.Runs.Db.{Run, Db, Error, AuditEvent, Outcome, system_actor, get_run}
use mac_bennet.Runs.Service.Approval.{approve_run}
use mac_bennet.Runs.Service.Dispatch.{
  Assignment, selectable, sorts_before, dispatch_check, lease_next_run, budget_stops,
  effective_capabilities,
}
use mac_bennet.Runs.Service.Progress.{complete_run}
use mac_bennet.Runs.Service.Cancel.{force_cancel, is_past_cutoff, stop_runs_past_overnight_cutoff}
use mac_bennet.Runs.Service.Calls.{Call, step}
use mac_bennet.Runs.Behaviour.Transition.{transition_event}
use mac_bennet.Runs.Behaviour.Lease.{IsLease, lease_next_run-ok}
use mac_bennet.Runs.Behaviour.Offer.{selectable-dispatch_check, select_candidate-best}
use mac_bennet.Runs.Behaviour.Blocked.{lease_next_run-blocked}
use mac_bennet.Runs.Behaviour.Cutoff.{stop_runs_past_overnight_cutoff-clears}
use mac_bennet.Runs.Behaviour.Finish.{force_cancel-total, complete_run-self_review_stuck}
use mac_bennet.Runs.Behaviour.Approve.{IsApproval, approve_run-ok, to_fixed3-floor}
use mac_bennet.Runs.Examples.{
  opened, services, tightened, approver, worker, with_run, queued_run, submitted_run, running_run,
  reviewed_run, succeeded, stopped,
}

abbrev assignment : Assignment
assignment = record {
  run_id = 0;
  task_id = 1;
  job = record { kind = "echo"; params = Json.object JsonFields.end };
  deadline_at = some 1502;
  lease_expires_at = 121003;
  attempt = 1;
}

-- The state that a successful call leaves; any other outcome leaves `d`.
abbrev result : {A : Type 0} → Db → Outcome A → Db
result d (Outcome.ok a x) = x
result d (Outcome.err e l) = d

after_lease : Db
after_lease = elim (lease_next_run services worker 1003 (with_run queued_run)) [
  | Outcome.ok a x ↦ x
  | Outcome.err e l ↦ with_run queued_run
]

lease_next_run-ok_example :
    (budget_stops services ≡ false)
    × IsLease services worker
        (effective_capabilities services worker)
        1003
        (with_run queued_run).runs
        assignment
        after_lease
unfolding opened after_lease
lease_next_run-ok_example =
    lease_next_run-ok services worker 1003 (with_run queued_run) after_lease assignment
      (omega arith, omega arith) refl

lease_next_run-blocked_example :
    (lease_next_run tightened worker 1003 (with_run queued_run)
      ≡ Outcome.err (Error.invalid_transition RunStatus.queued RunStatus.failed) (
          transition_event queued_run RunStatus.failed system_actor "run.transition_rejected" ∷ []))
    × ((step tightened 1003 (Call.leases worker) (with_run queued_run)).runs
        ≡ (with_run queued_run).runs)
unfolding opened
lease_next_run-blocked_example =
    lease_next_run-blocked tightened worker 1003 (with_run queued_run) queued_run
      (omega arith, omega arith) refl refl refl refl refl refl refl

selectable-dispatch_check_example :
    dispatch_check services worker.capabilities queued_run 1003 ≡ GuardrailResult.ok
unfolding opened
selectable-dispatch_check_example =
    selectable-dispatch_check services worker.capabilities 1003 (with_run queued_run) queued_run
      assignment.job refl refl refl

select_candidate-best_example :
    (get_run 0 (with_run queued_run).runs ≡ some queued_run)
    × (selectable services worker.capabilities 1003 (with_run queued_run) queued_run ≡ true)
    × (sorts_before (with_run queued_run) queued_run queued_run ≡ false)
unfolding opened
select_candidate-best_example =
    select_candidate-best services worker.capabilities 1003 (with_run queued_run) queued_run
      queued_run (omega arith, omega arith) refl (inl refl) refl

after_approval : Db
after_approval =
    result (with_run submitted_run)
      (approve_run services 0 none false approver 1002 (with_run submitted_run))

approve_run-ok_example :
    IsApproval services 0 none false 1002 (with_run submitted_run) queued_run after_approval
unfolding opened after_approval
approve_run-ok_example =
    approve_run-ok services 0 none false approver 1002 (with_run submitted_run) after_approval
      queued_run refl

to_fixed3-floor_example :
    (to_scaled 599900000 < to_scaled 600000000)
    × (parse_confidence (some (to_fixed3 599900000)) ≡ some 600000000)
to_fixed3-floor_example = to_fixed3-floor 599900000 (omega arith) (omega arith)

after_completion : Db
after_completion =
    result (with_run running_run)
      (complete_run services 0 3 succeeded 1010 (with_run running_run)).0

complete_run-self_review_stuck_example :
    (l : List AuditEvent) × (complete_run services 0 3 stopped 1700 (with_run reviewed_run) ≡ (
      Outcome.err (Error.invalid_transition RunStatus.self_review RunStatus.stopped_by_guardrail) l,
      with_run reviewed_run,
    ))
unfolding opened
complete_run-self_review_stuck_example =
    complete_run-self_review_stuck services 0 3 1700 stopped (with_run reviewed_run) reviewed_run
      refl refl refl (inl refl) refl

force_cancel-total_example :
    (row : Run) × (d : Db) × (force_cancel 0 approver 1700 (with_run running_run)
      ≡ Outcome.ok row d)
    × (get_run 0 d.runs ≡ some row)
    × (row.status ≡ RunStatus.cancelled)
    × (row.lease_expires_at ≡ none)
unfolding opened
force_cancel-total_example =
    force_cancel-total 0 approver 1700 (with_run running_run) running_run refl refl

stop_runs_past_overnight_cutoff-clears_example :
    All
      (λ r. is_past_cutoff 1600 r ≡ false)
      (stop_runs_past_overnight_cutoff 1600 (with_run running_run)).runs
stop_runs_past_overnight_cutoff-clears_example =
    stop_runs_past_overnight_cutoff-clears 1600 (with_run running_run) (omega arith, omega arith)

check_approval_confidence-ok_example :
    (v : ℕ) × (some 850000000 ≡ some v)
    × (to_scaled services.settings.policy.min_execution_confidence ≤ to_scaled v)
    × ((false ≡ false)
          × (to_scaled services.settings.policy.default_confidence_threshold ≤ to_scaled v)
        ⊎ (false ≡ true)
          × (to_scaled v < to_scaled services.settings.policy.default_confidence_threshold)
          × (false ≡ true)
          × (false ≡ true))
unfolding opened
check_approval_confidence-ok_example =
    check_approval_confidence-ok (some 850000000) services.settings.policy false false
      {band = ConfidenceBand.autonomous} {overridden = false} refl

advise_execution-agrees_example :
    let p = services.settings.policy in
    let advice = advise_execution (some 700000000) p in
    (advice.execution_permitted
      ≡ is_granted (check_approval_confidence (some 700000000) p true true))
    × (advice.requires_explicit_scope_approval ≡ (
        is_granted (check_approval_confidence (some 700000000) p true true)
        && not (is_granted (check_approval_confidence (some 700000000) p false true))))
advise_execution-agrees_example = advise_execution-agrees (some 700000000) services.settings.policy

abbrev careful : DecisionInput
careful = record {
  confidence = 700000000;
  risk = DecisionRisk.low;
  reversible = true;
  within_approved_scope = true;
  sensitive = false;
}

decide_action_sound_example :
    let o = decide_action careful 800000000 600000000 in
    ((o.action ≡ DecisionAction.block)
      ⊎ (careful.sensitive ≡ false)
        × (careful.risk ≢ DecisionRisk.high)
        × (careful.within_approved_scope ≡ true))
    × ((o.action ≢ DecisionAction.answer) ⊎ (to_scaled 800000000 ≤ to_scaled careful.confidence))
    × ((o.action ≢ DecisionAction.assume)
        ⊎ (careful.reversible ≡ true)
          × ((careful.risk ≡ DecisionRisk.low)
              ⊎ (to_scaled 600000000 ≤ to_scaled careful.confidence)))
    × ((o.flag ≡ false) ↔ (o.action ≡ DecisionAction.answer))
decide_action_sound_example = decide_action_sound careful 800000000 600000000
