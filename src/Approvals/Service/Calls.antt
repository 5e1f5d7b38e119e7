-- ===== src/Approvals/Service/Calls.antt =====
-- The operations as calls on a server, in any order, and between them any call of the run service.
-- A decision is two calls: the one that passes the gates puts it in flight, and the one that
-- updates the request takes it from there, so that decisions on one request can overlap.
use mac_bennet.Prelude.{ℕ, zero, suc, Bool, List, [], ◌∷◌, Option, none, some}
use mac_bennet.Runs.Db.{Actor, Text}
use mac_bennet.Runs.Service.{Services}
use mac_bennet.Runs.Service.Calls.{Call as RunCall, step as run_step}
use mac_bennet.Approvals.{Decision}
use mac_bennet.Approvals.Store.{Store, Answer, Channel, left_by}
use mac_bennet.Approvals.Service.{
  CreateApprovalRequest, create_approval_request, expire_stale_requests, cancel_requests_for_run,
  note_delivered,
}
use mac_bennet.Approvals.Service.Decide.{DecideInput, pass_gates, settle, bind_message_to_approval}

-- A decision that has passed the gates.
pub record InFlight : Type 0 where
  pub id : ℕ
  pub input : DecideInput
  pub actor : Actor

pub record Server : Type 0 where
  pub store : Store
  pub in_flight : List InFlight

pub data Call : Type 0 where
  creates : (ℕ → ℕ) → CreateApprovalRequest → Actor → Call
  starts : ℕ → DecideInput → Actor → Call
  finishes : ℕ → Call
  binds : Text → Option ℕ → Option ℕ → Option Decision → Actor → Call
  expires : Call
  cancels : ℕ → Call
  delivers : (Channel → Channel → Bool) → ℕ → Channel → Call
  runs : RunCall → Call

unfoldable pub get_flight : List InFlight → ℕ → Option InFlight
get_flight [] k = none
get_flight (f ∷ fs) zero = some f
get_flight (f ∷ fs) (suc k) = get_flight fs k

unfoldable pub take_off : List InFlight → InFlight → Answer (Unit {0}) → Server
take_off fs f (Answer.ok _ s) = record { store = s; in_flight = f ∷ fs }
take_off fs f (Answer.err e s) = record { store = s; in_flight = fs }

-- The update of the decision at this place, if there is one. That it stays in the list lets the
-- same update be tried again, which can do no more than the server does.
unfoldable pub land : ℕ → Server → Option InFlight → Server
land now v none = v
land now v (some f) = record v { store = left_by (settle f.id f.input f.actor now v.store) }

unfoldable pub step : Services → ℕ → Call → Server → Server
step services now (Call.creates random input actor) v = record v {
  store = left_by (create_approval_request random input actor now v.store);
}
step services now (Call.starts id input actor) v =
    take_off v.in_flight (record { id = id; input = input; actor = actor })
      (pass_gates services id input actor now v.store)
step services now (Call.finishes k) v = land now v (get_flight v.in_flight k)
step services now (Call.binds text task_id id decision actor) v = record v {
  store = left_by (bind_message_to_approval text task_id id decision actor v.store);
}
step services now Call.expires v = record v { store = left_by (expire_stale_requests now v.store) }
step services now (Call.cancels run_id) v = record v {
  store = cancel_requests_for_run run_id now v.store;
}
step services now (Call.delivers before id channel) v = record v {
  store = note_delivered before id channel now v.store;
}
step services now (Call.runs call) v = record v {
  store = record v.store { db = run_step services now call v.store.db };
}

unfoldable pub history : List (Services × ℕ × Call) → Server → Server
history [] v = v
history ((services, now, call) ∷ rest) v = history rest (step services now call v)
