-- ===== src/Approvals/Service/Decide.antt =====
-- decideApprovalRequest and bindMessageToApproval of apps/server/src/services/approval-requests.ts.
-- A decision has two steps, the gates and the update, and other calls may come between them.
use mac_bennet.Prelude.{
  ℕ, Bool, true, false, ◌&&◌, not, List, [], ◌∷◌, ◌++◌, Option, none, some, ◌==◌, leb,
  if◌then◌else◌, take, codes, or_else,
}
use mac_bennet.Runs.Db.{Text, Actor}
use mac_bennet.Runs.Service.{Services}
use mac_bennet.Runs.Service.Approval.{approve_run, reject_run}
use mac_bennet.Approvals.{Decision, RequestState, is_conversationally_approvable}
use mac_bennet.Approvals.Binding.{Binding, BindingOutcome, bind_approval_decision}
use mac_bennet.Approvals.Store.{
  Channel, Request, Store, ApprovalError, Answer, on_db, get_request, update_where, log_event,
}
use mac_bennet.Approvals.Service.{is_pending, expire_requests, pending_for_conversation}

pub record DecideInput : Type 0 where
  pub decision : Decision
  pub notes : Option Text
  pub accept_below_threshold : Bool
  pub channel : Channel
  pub conversation_message_id : Option ℕ

unfoldable pub is_approve : Decision → Bool
is_approve Decision.approve = true
is_approve Decision.reject = false

unfoldable pub has_expired : ℕ → Option ℕ → Bool
has_expired now none = false
has_expired now (some at) = leb at now

unfoldable pub channel_text : Channel → Text
channel_text Channel.web = codes "web"
channel_text Channel.teams = codes "teams"
channel_text Channel.forja = codes "forja"
channel_text Channel.voice = codes "voice"
channel_text Channel.email = codes "email"
channel_text Channel.system = codes "system"

-- "<word> via <channel> (<code>)."
unfoldable pub via_note : Text → Channel → Text → Text
via_note word channel code =
    word ++ codes " via " ++ channel_text channel ++ codes " (" ++ code ++ codes ")."

-- `input.notes || text`: an empty note is replaced too.
unfoldable pub note_or : Option Text → Text → Text
note_or none text = text
note_or (some []) text = text
note_or (some (c ∷ t)) text = c ∷ t

-- What follows a step that returned; an error ends the operation.
unfoldable pub and_then : {A B : Type 0} → Answer A → (A → Store → Answer B) → Answer B
and_then (Answer.ok a s) k = k a s
and_then (Answer.err e s) k = Answer.err e s

abbrev pub done : {A : Type 0} → A → Store → Answer (Unit {0})
done a s = Answer.ok tt s

-- The gate that the run service owns, in a transaction of its own.
unfoldable pub run_gate :
    Services → Text → DecideInput → Actor → ℕ → Store → Decision → Option ℕ → Answer (Unit {0})
run_gate services code input actor now s decision none = Answer.ok tt s
run_gate services code input actor now s Decision.approve (some run_id) =
    and_then
      (on_db
        (approve_run services run_id
          (some (or_else input.notes (via_note (codes "Approved") input.channel code)))
          input.accept_below_threshold actor now s.db)
        s)
      done
run_gate services code input actor now s Decision.reject (some run_id) =
    and_then
      (on_db
        (reject_run run_id (note_or input.notes (via_note (codes "Rejected") input.channel code))
          actor now s.db)
        s)
      done

-- The gates on a request that is found, in the order of the source.
unfoldable pub gates : Services → Request → DecideInput → Actor → ℕ → Store → Answer (Unit {0})
gates services r input actor now s =
    if not (is_pending r)
    then Answer.err (ApprovalError.not_pending r.state) s
    else if has_expired now r.expires_at
    then Answer.err ApprovalError.expired (expire_requests (r.id ∷ []) now s)
    else if is_approve input.decision && not (is_conversationally_approvable r.authority)
    then Answer.err (ApprovalError.authority_refused r.authority)
        (log_event actor "approval_request.authority_refused" r.run_id s)
    else run_gate services r.code input actor now s input.decision r.run_id

unfoldable pub gates_on :
    Services → Option Request → DecideInput → Actor → ℕ → Store → Answer (Unit {0})
gates_on services none input actor now s = Answer.err ApprovalError.not_found s
gates_on services (some r) input actor now s = gates services r input actor now s

unfoldable pub pass_gates : Services → ℕ → DecideInput → Actor → ℕ → Store → Answer (Unit {0})
pass_gates services id input actor now s =
    gates_on services (get_request id s.requests) input actor now s

unfoldable pub decided_state : Decision → RequestState
decided_state Decision.approve = RequestState.approved
decided_state Decision.reject = RequestState.rejected

unfoldable pub sliced : Option Text → Option Text
sliced none = none
sliced (some t) = some (take 4000 t)

unfoldable pub decide_patch : DecideInput → Actor → ℕ → Request → Request
decide_patch input actor now r = record r {
  state = decided_state input.decision;
  decided_at = some now;
  decided_by_user_id = actor.id;
  decided_via_channel = some input.channel;
  decided_via_message_id = input.conversation_message_id;
  decision_notes = sliced input.notes;
  updated_at = now;
}

unfoldable pub is_open_id : ℕ → Request → Bool
is_open_id id r = r.id == id && is_pending r

unfoldable pub find_where : (Request → Bool) → List Request → Option Request
find_where p [] = none
find_where p (r ∷ rs) = if p r then some r else find_where p rs

-- The update, which checks again that the request is pending, and its audit event.
unfoldable pub settle_found : ℕ → DecideInput → Actor → ℕ → Store → Option Request → Answer Request
settle_found id input actor now s none = Answer.err ApprovalError.decided_first s
settle_found id input actor now s (some r) = Answer.ok (decide_patch input actor now r) (
    log_event actor "approval_request.decided" r.run_id (record s {
      requests = update_where (is_open_id id) (decide_patch input actor now) s.requests;
    }))

unfoldable pub settle : ℕ → DecideInput → Actor → ℕ → Store → Answer Request
settle id input actor now s =
    settle_found id input actor now s (find_where (is_open_id id) s.requests)

-- Between the two transactions others may change the store in any way: `between` is what they make
-- of it, and `later` the time of the second.
unfoldable pub decide_approval_request :
    Services → ℕ → DecideInput → Actor → ℕ → (Store → Store) → ℕ → Store → Answer Request
decide_approval_request services id input actor now between later s =
    and_then (pass_gates services id input actor now s)
      (λ _ t. settle id input actor later (between t))

-- A refusal to bind leaves an event of its own.
unfoldable pub log_refusal : BindingOutcome → Actor → Store → Store
log_refusal BindingOutcome.ambiguous actor s =
    log_event actor "approval_request.ambiguous_reply_refused" none s
log_refusal BindingOutcome.unknown_code actor s =
    log_event actor "approval_request.ambiguous_reply_refused" none s
log_refusal _ actor s = s

unfoldable pub bind_message_to_approval :
    Text → Option ℕ → Option ℕ → Option Decision → Actor → Store → Answer Binding
bind_message_to_approval text task_id explicit_request_id explicit_decision actor s =
    let binding = bind_approval_decision (record {
      text = text;
      pending = pending_for_conversation task_id s.requests;
      explicit_request_id = explicit_request_id;
      explicit_decision = explicit_decision;
    }) in
    Answer.ok binding (log_refusal binding.outcome actor s)
