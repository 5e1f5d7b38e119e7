-- ===== src/Approvals/Examples/Decisions.antt =====
-- Two people who press the button of one card, a decision on the run of the small office, and one
-- that is refused.
use mac_bennet.Prelude.{
  ℕ, ◌≡◌, refl, List, [], ◌∷◌, none, some, map, arith, codes, same_text, false,
}
use mac_bennet.Runs.Service.{Services}
use mac_bennet.Runs.Examples.{opened, services, approver, with_run, submitted_run}
use mac_bennet.Approvals.{
  SubjectKind, RequestState, AuthorityClass, Decision, is_open_approval_state,
  is_conversationally_approvable,
}
use mac_bennet.Approvals.Store.{
  Risk, Channel, Request, Store, left_by, on_db, get_request, update_where, log_event,
}
use mac_bennet.Approvals.Service.{
  CreateApprovalRequest, is_pending, letter_at, draw_letters, drawn_code, clashes, allocate_code,
  is_same_subject, new_request, supersede, same_subject_ids, insert_request, create_with_code,
  create_approval_request,
}
use mac_bennet.Approvals.Service.Decide.{
  DecideInput, is_approve, has_expired, via_note, channel_text, and_then, run_gate, gates, gates_on,
  pass_gates, decided_state, decide_patch, is_open_id, find_where, settle_found, settle,
  decide_approval_request,
}
use mac_bennet.Approvals.Service.Calls.{Server, Call, get_flight, take_off, land, step, history}
use mac_bennet.Approvals.Rows.{Grows}
use mac_bennet.Approvals.Invariant.{is_granted}
use mac_bennet.Approvals.Invariant.Calls.{IsSound, history-IsSound, history-Grows}
use mac_bennet.Approvals.Decided.{IsDecision, decide_approval_request-ok}

abbrev card : Request
card = record {
  id = 0;
  code = codes "AP-4F2K";
  state = RequestState.pending;
  subject_kind = SubjectKind.run;
  subject_version = 0;
  task_id = 1;
  run_id = some 0;
  brief_id = none;
  title = codes "Run it";
  detail = [];
  recommendation = [];
  risk = Risk.low;
  authority = AuthorityClass.execute_run;
  confidence = some 850;
  requested_at = 900;
  expires_at = none;
  delivered_channels = [];
  decided_at = none;
  decided_by_user_id = none;
  decided_via_channel = none;
  decided_via_message_id = none;
  decision_notes = none;
  superseded_by_request_id = none;
  created_at = 900;
  updated_at = 900;
}

abbrev store_of : Request → Store
store_of r = record { db = with_run submitted_run; requests = r ∷ []; next_request_id = 1 }

abbrev server : Server
server = record { store = store_of card; in_flight = [] }

abbrev approve_input : DecideInput
approve_input = record {
  decision = Decision.approve;
  notes = none;
  accept_below_threshold = false;
  channel = Channel.teams;
  conversation_message_id = none;
}

abbrev reject_input : DecideInput
reject_input = record approve_input { decision = Decision.reject }

abbrev next_card : CreateApprovalRequest
next_card = record {
  task_id = 1;
  run_id = some 0;
  brief_id = none;
  subject_kind = SubjectKind.run;
  subject_version = 1;
  title = codes "Run it";
  detail = [];
  recommendation = [];
  risk = Risk.low;
  authority = AuthorityClass.execute_run;
  confidence = some 850000000;
  expires_in_hours = some 24;
}

-- Two people approve: the run service refuses the second. Then Mac asks again.
abbrev calls : List (Services × ℕ × Call)
calls =
    (services, 1002, Call.starts 0 approve_input approver)
    ∷ (services, 1002, Call.starts 0 approve_input approver)
    ∷ (services, 1003, Call.finishes 0)
    ∷ (services, 1004, Call.finishes 1)
    ∷ (services, 1005, Call.creates (λ k. k) next_card approver)
    ∷ []

server-IsSound : IsSound server
unfolding is_granted
server-IsSound = record {
  kept = record { keys = (omega arith, tt); clear = (tt, tt); granted = (refl, tt) };
  permitted = tt;
}

history-IsSound_example : IsSound (history calls server)
history-IsSound_example = history-IsSound calls server server-IsSound

history-Grows_example : Grows (card ∷ []) (history calls server).store.requests
history-Grows_example = history-Grows calls server server-IsSound

abbrev undisturbed : Store → Store
undisturbed s = s

after_decision : Store
after_decision = left_by (
    decide_approval_request services 0 approve_input approver 1002 undisturbed 1002 (store_of card))

decide_approval_request-ok_example :
    IsDecision services 0 approve_input approver 1002 undisturbed 1002
      (store_of card)
      (decide_patch approve_input approver 1002 card)
      after_decision
unfolding opened after_decision decide_approval_request pass_gates gates_on gates run_gate on_db
    and_then left_by settle settle_found find_where is_open_id get_request is_pending
    is_open_approval_state has_expired is_approve is_conversationally_approvable decide_patch
    via_note channel_text
decide_approval_request-ok_example =
    decide_approval_request-ok services 0 approve_input approver 1002 undisturbed 1002
      (store_of card) (decide_patch approve_input approver 1002 card) after_decision refl

-- The request is superseded between the two transactions of its approval.
abbrev superseding : Store → Store
superseding s = record s { requests = record card { state = RequestState.superseded } ∷ [] }

after_refusal : Store
after_refusal = left_by (
    decide_approval_request services 0 approve_input approver 1002 superseding 1003 (store_of card))

-- The states of the requests in the end: the first approval counts, and the new request is open.
end_states : List RequestState
end_states = map (λ r. r.state) (history calls server).store.requests

end_states_test : end_states ≡ RequestState.approved ∷ RequestState.pending ∷ []
unfolding end_states opened history step take_off land get_flight pass_gates gates_on gates run_gate
    on_db and_then left_by settle settle_found find_where is_open_id get_request is_pending
    is_open_approval_state has_expired is_approve is_conversationally_approvable decide_patch
    decided_state via_note channel_text log_event update_where create_approval_request
    create_with_code allocate_code drawn_code draw_letters letter_at clashes insert_request
    same_subject_ids is_same_subject supersede new_request same_text
end_states_test = refl
