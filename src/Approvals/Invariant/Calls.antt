-- ===== src/Approvals/Invariant/Calls.antt =====
-- Every history of calls keeps the invariants, with decisions in flight and the run service at
-- work between them.
use mac_bennet.Prelude.{
  ℕ, zero, suc, subst, ◌≡◌, inl, inr, refl, List, [], ◌∷◌, All, All-weaken, Option, none, some,
}
use mac_bennet.Runs.Db.{Actor}
use mac_bennet.Runs.Service.{Services}
use mac_bennet.Approvals.Store.{Request, Store, Answer, get_request, left_by}
use mac_bennet.Approvals.Service.Decide.{DecideInput, pass_gates}
use mac_bennet.Approvals.Service.Calls.{
  InFlight, Server, Call, get_flight, take_off, land, step, history,
}
use mac_bennet.Approvals.Rows.{Grows, Grows-trans}
use mac_bennet.Approvals.Invariant.{Keeps-refl, get_request-permit}
use mac_bennet.Approvals.Invariant.Steps.{
  IsKeptStore, KeepsStore, create_approval_request-Keeps, expire_stale_requests-Keeps,
  cancel_requests_for_run-Keeps, note_delivered-Keeps,
}
use mac_bennet.Approvals.Invariant.Gates.{IsPassed, pass_gates-Keeps, pass_gates-IsPassed}
use mac_bennet.Approvals.Invariant.Update.{
  IsPermitted, settle-Keeps, bind_message_to_approval-Keeps,
}

abbrev pub IsFlight : Store → InFlight → Type 0
IsFlight s f = IsPermitted f.id f.input s.next_request_id s.requests

-- The requests are in order, and every decision in flight may be made.
pub record IsSound (v : Server) : Type 0 where
  pub kept : IsKeptStore v.store
  pub permitted : All (IsFlight v.store) v.in_flight

Keeps-IsFlight : (s t : Store) (f : InFlight) → KeepsStore s t → IsFlight s f → IsFlight t f
Keeps-IsFlight s t f k (inl e) = inl e
Keeps-IsFlight s t f k (inr p) = inr (k.permit f.id p.0 p.1)

-- A server whose store has moved by a step that keeps the requests.
pub record Step (v w : Server) : Type 0 where
  pub sound : IsSound w
  pub grown : Grows v.store.requests w.store.requests

Keeps-Step :
    (v : Server) (t : Store) → IsSound v → KeepsStore v.store t → Step v (record v { store = t })
Keeps-Step v t i k = record {
  sound = record {
    kept = k.kept;
    permitted = All-weaken _ (λ f p. Keeps-IsFlight v.store t f k p) v.in_flight i.permitted;
  };
  grown = k.grown;
}

passed_flight :
    (services : Services) (id : ℕ) (input : DecideInput) (s t : Store) (r : Request)
    → IsKeptStore s
    → get_request id s.requests ≡ some r
    → {now : ℕ} {actor : Actor} → IsPassed services r input actor now s t
    → IsPermitted id input s.next_request_id s.requests
passed_flight services id input s t r k e p = elim p.permitted [
  | inl reject ↦ inl reject
  | inr approvable ↦ inr (get_request-permit _ id s.requests r k.keys k.clear e approvable)
]

take_off-Step :
    (services : Services) (f : InFlight) (now : ℕ) (v : Server) (a : Answer (Unit {0}))
    → IsSound v
    → pass_gates services f.id f.input f.actor now v.store ≡ a
    → KeepsStore v.store (left_by a)
    → Step v (take_off v.in_flight f a)
unfolding take_off left_by
take_off-Step services f now v (Answer.err e t) i h k = Keeps-Step v t i k
take_off-Step services f now v (Answer.ok tt t) i h k =
    let next = Keeps-Step v t i k in
    let found = pass_gates-IsPassed services f.id f.input f.actor now v.store t h in
    record {
      sound = record {
        kept = k.kept;
        permitted = (
          Keeps-IsFlight v.store t f k
              (passed_flight services f.id f.input v.store t found.0 i.kept found.1 found.2),
          next.sound.permitted,
        );
      };
      grown = k.grown;
    }

get_flight-IsFlight :
    (s : Store) (fs : List InFlight) (k : ℕ) (f : InFlight)
    → All (IsFlight s) fs
    → get_flight fs k ≡ some f
    → IsFlight s f
unfolding get_flight
get_flight-IsFlight s [] k f a e = absurd (cc)
get_flight-IsFlight s (g ∷ fs) zero f a e = let same : g ≡ f = cc in subst (IsFlight s) same a.0
get_flight-IsFlight s (g ∷ fs) (suc k) f a e = get_flight-IsFlight s fs k f a.1 e

land-Step :
    (now : ℕ) (v : Server) (o : Option InFlight)
    → IsSound v
    → ((f : InFlight) → o ≡ some f → IsFlight v.store f)
    → Step v (land now v o)
unfolding land
land-Step now v none i p = Keeps-Step v v.store i (Keeps-refl i.kept)
land-Step now v (some f) i p =
    Keeps-Step v _ i (settle-Keeps f.id f.input f.actor now v.store (p f refl) i.kept)

pub step-Step :
    (services : Services) (now : ℕ) (call : Call) (v : Server)
    → IsSound v
    → Step v (step services now call v)
unfolding step
step-Step services now (Call.creates random input actor) v i =
    Keeps-Step v _ i (create_approval_request-Keeps random input actor now v.store i.kept)
step-Step services now (Call.starts id input actor) v i =
    take_off-Step services (record { id = id; input = input; actor = actor }) now v _ i refl
      (pass_gates-Keeps services id input actor now v.store i.kept)
step-Step services now (Call.finishes k) v i =
    land-Step now v (get_flight v.in_flight k) i
      (λ f e. get_flight-IsFlight v.store v.in_flight k f i.permitted e)
step-Step services now (Call.binds text task_id id d actor) v i =
    Keeps-Step v _ i (bind_message_to_approval-Keeps text task_id id d actor v.store i.kept)
step-Step services now Call.expires v i =
    Keeps-Step v _ i (expire_stale_requests-Keeps now v.store i.kept)
step-Step services now (Call.cancels run_id) v i =
    Keeps-Step v _ i (cancel_requests_for_run-Keeps run_id now v.store i.kept)
step-Step services now (Call.delivers before id channel) v i =
    Keeps-Step v _ i (note_delivered-Keeps before id channel now v.store i.kept)
step-Step services now (Call.runs call) v i = Keeps-Step v _ i (Keeps-refl i.kept)

-- Every history of calls, whatever the times, the random numbers and the state of the other
-- services, and however decisions overlap, takes a sound server to a sound one: no two requests
-- share a key, no two pending requests share a code or a task and kind of subject, no request is
-- approved whose authority a person cannot grant to Mac, and no decision in flight would do so.
pub history-IsSound :
    (calls : List (Services × ℕ × Call)) (v : Server) → IsSound v → IsSound (history calls v)
unfolding history
history-IsSound [] v i = i
history-IsSound ((services, now, call) ∷ rest) v i =
    history-IsSound rest (step services now call v) (step-Step services now call v i).sound

-- From a sound server, no history of calls loses or reorders a request, or changes what it asks
-- for: its code, subject and version, task, run, authority and expiry. A request that is no
-- longer pending keeps its state, its decision with time, person, channel and notes, and its
-- successor for ever; new requests only come at the end.
pub history-Grows :
    (calls : List (Services × ℕ × Call)) (v : Server)
    → IsSound v
    → Grows v.store.requests (history calls v).store.requests
unfolding history
history-Grows [] v i = (Keeps-Step v v.store i (Keeps-refl i.kept)).grown
history-Grows ((services, now, call) ∷ rest) v i =
    let first = step-Step services now call v i in
    Grows-trans first.grown (history-Grows rest (step services now call v) first.sound)
