-- ===== src/Approvals/Decided.antt =====
-- What a decision has checked and written, with what others do between its two transactions.
pub mod Refused
use mac_bennet.Prelude.{
  ℕ, ◌≡◌, ◌⊎◌, refl, sym, ap, ◌∙◌, subst, Bool, true, false, inl, inr, List, [], ◌∷◌, Option, none,
  some, codes, or_else, Bool-cases, Option-cases, ◌≢◌, ==_iff, not, ◌&&◌, arith, ◌==◌,
  if◌then◌else◌,
}
use mac_bennet.Runs.Db.{Run, Db, Actor, Text, Outcome}
use mac_bennet.Runs.Service.{Services}
use mac_bennet.Runs.Service.Approval.{approve_run, reject_run}
use mac_bennet.Approvals.{Decision, is_conversationally_approvable}
use mac_bennet.Approvals.Store.{
  Request, Store, Answer, ApprovalError, on_db, get_request, update_where, log_event, left_by,
}
use mac_bennet.Approvals.Service.{is_pending, expire_requests}
use mac_bennet.Approvals.Service.Decide.{
  DecideInput, via_note, note_or, and_then, done, run_gate, gates, gates_on, pass_gates, is_approve,
  has_expired, decide_patch, is_open_id, find_where, settle, settle_found, decide_approval_request,
}
use mac_bennet.Approvals.Invariant.Gates.{pass_gates-IsPassed, run_gate_requests}

-- The run behind the request, decided by the run service.
pub data RunGate (services : Services) (code : Text) (input : DecideInput) (actor : Actor) (now : ℕ)
    (db : Db) : Decision → Option ℕ → Db → Type 0 where
  no_run : (d : Decision) → RunGate services code input actor now db d none db
  approved_run :
      (id : ℕ) (run : Run) (after : Db)
      → approve_run services id
          (some (or_else input.notes (via_note (codes "Approved") input.channel code)))
          input.accept_below_threshold
          actor
          now
          db
        ≡ Outcome.ok run after
      → RunGate services code input actor now db Decision.approve (some id) after
  rejected_run :
      (id : ℕ) (run : Run) (after : Db)
      → reject_run id
          (note_or input.notes (via_note (codes "Rejected") input.channel code))
          actor
          now
          db
        ≡ Outcome.ok run after
      → RunGate services code input actor now db Decision.reject (some id) after

on_db-ok :
    {A : Type 0} (o : Outcome A) (s t : Store)
    → and_then (on_db o s) done ≡ Answer.ok tt t
    → (a : A) × (o ≡ Outcome.ok a t.db)
unfolding on_db and_then
on_db-ok (Outcome.ok a d) s t h = (a, cc)
on_db-ok (Outcome.err e l) s t h = absurd (cc)

pub run_gate-RunGate :
    (services : Services) (code : Text) (input : DecideInput) (actor : Actor) (now : ℕ)
    (s t : Store) (d : Decision) (run : Option ℕ)
    → run_gate services code input actor now s d run ≡ Answer.ok tt t
    → RunGate services code input actor now s.db d run t.db
unfolding run_gate
run_gate-RunGate services code input actor now s t d none h =
    subst (λ x. RunGate services code input actor now s.db d none x) (cc) (no_run d)
run_gate-RunGate services code input actor now s t Decision.approve (some id) h =
    let o = on_db-ok _ s t h in approved_run id o.0 t.db o.1
run_gate-RunGate services code input actor now s t Decision.reject (some id) h =
    let o = on_db-ok _ s t h in rejected_run id o.0 t.db o.1

pub find_where-open :
    (id : ℕ) (rs : List Request) (r : Request)
    → get_request id rs ≡ some r
    → is_pending r ≡ true
    → find_where (is_open_id id) rs ≡ some r
unfolding find_where get_request is_open_id
find_where-open id [] r e o = absurd (cc)
find_where-open id (x ∷ rs) r e o = elim (Bool-cases (x.id == id)) [
  | inl hit ↦ let same : x ≡ r = ground arith in ground (arith, ap is_pending same)
  | inr miss ↦ ground (arith, find_where-open id rs r (ground arith) o)
]

get_request-decided :
    (input : DecideInput) (actor : Actor) (now id : ℕ) (rs : List Request) (r : Request)
    → get_request id rs ≡ some r
    → is_pending r ≡ true
    → get_request id (update_where (is_open_id id) (decide_patch input actor now) rs)
      ≡ some (decide_patch input actor now r)
unfolding get_request update_where is_open_id
get_request-decided input actor now id [] r e o = absurd (cc)
get_request-decided input actor now id (x ∷ rs) r e o = elim (Bool-cases (x.id == id)) [
  | inl hit ↦
      let same : x ≡ r = ground arith in
      let open_x : is_pending x ≡ true = ap is_pending same ∙ o in
      rw (hit, open_x) (unfold decide_patch in rw (hit, same) refl)
  | inr miss ↦ rw (miss, miss) (get_request-decided input actor now id rs r (ground arith) o)
]

find_where-hit :
    (p : Request → Bool) (rs : List Request) (r : Request) → find_where p rs ≡ some r → p r ≡ true
unfolding find_where
find_where-hit p [] r e = absurd (cc)
find_where-hit p (x ∷ rs) r e = elim (Bool-cases (p x)) [
  | inl hit ↦ let same : x ≡ r = ground arith in subst (λ y. p y ≡ true) same hit
  | inr miss ↦ find_where-hit p rs r (ground arith)
]

-- The row that is updated is found under its key, unless another row of that key stands before it.
stored_under :
    (input : DecideInput) (actor : Actor) (now id : ℕ) (rs : List Request) (r : Request)
    → find_where (is_open_id id) rs ≡ some r
    → (get_request id (update_where (is_open_id id) (decide_patch input actor now) rs)
        ≡ some (decide_patch input actor now r))
      ⊎ (get_request id rs ≢ some r)
unfolding is_open_id
stored_under input actor now id rs r e = elim (Option-cases (get_request id rs)) [
  | inl none_there ↦ inr (λ h. absurd (cc (h, none_there)))
  | inr (x, found) ↦ elim (Bool-cases (is_pending x)) [
    | inl open_x ↦
        let same : some x ≡ some r = sym (find_where-open id rs x found open_x) ∙ e in
        inl (
          get_request-decided input actor now id rs x found open_x
          ∙ ap (λ o. elim o [ none ↦ none | some y ↦ some (decide_patch input actor now y) ]) same)
    | inr closed ↦ inr (λ h.
        let same : some x ≡ some r = sym found ∙ h in
        let open_r : is_pending r ≡ true = ground (arith, find_where-hit (is_open_id id) rs r e) in
        absurd
          (cc (closed, open_r, ap (λ o. elim o [ none ↦ false | some y ↦ is_pending y ]) same)))
  ]
]

-- What a decision rests on, and what it leaves: `gated` is the store after the gates.
pub record IsDecision (services : Services) (id : ℕ) (input : DecideInput) (actor : Actor) (now : ℕ)
    (between : Store → Store) (later : ℕ) (s : Store) (row : Request) (t : Store) : Type 0 where
  pub before : Request
  pub found : get_request id s.requests ≡ some before
  pub pending : is_pending before ≡ true
  pub in_time : has_expired now before.expires_at ≡ false
  pub permitted :
      (is_approve input.decision ≡ false) ⊎ (is_conversationally_approvable before.authority ≡ true)
  pub gated : Store
  pub run : RunGate services before.code input actor now s.db input.decision before.run_id gated.db
  pub same : gated.requests ≡ s.requests
  pub met : Request
  pub met_found : find_where (is_open_id id) (between gated).requests ≡ some met
  pub runs : t.db.runs ≡ (between gated).db.runs
  pub written : row ≡ decide_patch input actor later met
  pub stored :
      (get_request id t.requests ≡ some row) ⊎ (get_request id (between gated).requests ≢ some met)

settled :
    (id : ℕ) (input : DecideInput) (actor : Actor) (now : ℕ) (s : Store) (row : Request) (t : Store)
    → settle id input actor now s ≡ Answer.ok row t
    → (r : Request) × (find_where (is_open_id id) s.requests ≡ some r)
      × (row ≡ decide_patch input actor now r)
      × (t.db.runs ≡ s.db.runs)
      × (t.requests ≡ update_where (is_open_id id) (decide_patch input actor now) s.requests)
unfolding settle settle_found log_event left_by
settled id input actor now s row t h = found _ refl
  where
    found :
        (o : Option Request)
        → find_where (is_open_id id) s.requests ≡ o
        → (r : Request) × (find_where (is_open_id id) s.requests ≡ some r)
          × (row ≡ decide_patch input actor now r)
          × (t.db.runs ≡ s.db.runs)
          × (t.requests ≡ update_where (is_open_id id) (decide_patch input actor now) s.requests)
    found none e = absurd (cc (h, ap (settle_found id input actor now s) e))
    found (some r) e =
        let both = sym h ∙ ap (settle_found id input actor now s) e in
        let t_is = ap left_by both in
        (r, e, cc both, ap (λ x. x.db.runs) t_is, ap (λ x. x.requests) t_is)

decide_of :
    (services : Services) (id : ℕ) (input : DecideInput) (actor : Actor) (now : ℕ)
    (between : Store → Store) (later : ℕ) (s : Store) (a : Answer (Unit {0})) (row : Request)
    (t : Store)
    → pass_gates services id input actor now s ≡ a
    → decide_approval_request services id input actor now between later s ≡ Answer.ok row t
    → IsDecision services id input actor now between later s row t
unfolding decide_approval_request and_then left_by
decide_of services id input actor now between later s (Answer.err e m) row t p h =
    absurd (cc (h, ap (λ a. and_then a (λ _ x. settle id input actor later (between x))) p))
decide_of services id input actor now between later s (Answer.ok tt m) row t p h =
    let (r, e, passed) = pass_gates-IsPassed services id input actor now s m p in
    let gate = run_gate_requests services r.code input actor now s input.decision r.run_id in
    let done_of =
      sym (ap (λ a. and_then a (λ _ x. settle id input actor later (between x))) p) ∙ h in
    let (q, found, row_is, runs, requests) =
      settled id input actor later (between m) row t done_of in
    record {
      before = r;
      found = e;
      pending = passed.pending;
      in_time = passed.in_time;
      permitted = passed.permitted;
      gated = m;
      run =
          run_gate-RunGate services r.code input actor now s m input.decision r.run_id passed.gated;
      same = sym (ap (λ a. (left_by a).requests) passed.gated) ∙ gate.0;
      met = q;
      met_found = found;
      runs = runs;
      written = row_is;
      stored = elim (stored_under input actor later id (between m).requests q found) [
        | inl x ↦ inl (ap (get_request id) requests ∙ x ∙ ap some (sym row_is))
        | inr x ↦ inr x
      ];
    }

-- If a decision returns, whatever others do between its two transactions, then the request with that
-- key was pending, had not expired, and, to be approved, asked for something that a person may
-- approve; if it has a run, the run service has approved or rejected the run with the given notes and
-- acknowledgement, and the runs are as that and the others left them; when the update came, the
-- request was still pending; the row returned is that request with the decision written, and it is
-- stored, and found under its key unless others have put another row of that key before it.
pub decide_approval_request-ok :
    (services : Services) (id : ℕ) (input : DecideInput) (actor : Actor) (now : ℕ)
    (between : Store → Store) (later : ℕ) (s : Store) (row : Request) (t : Store)
    → decide_approval_request services id input actor now between later s ≡ Answer.ok row t
    → IsDecision services id input actor now between later s row t
decide_approval_request-ok services id input actor now between later s row t h =
    decide_of services id input actor now between later s _ row t refl h
