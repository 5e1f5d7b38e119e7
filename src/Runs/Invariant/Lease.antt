-- ===== src/Runs/Invariant/Lease.antt =====
-- Leases: a run is handed out once, in time, and its lease ends with the work.
use mac_bennet.Prelude.{
  ℕ, ◌≡◌, ◌⊎◌, inl, inr, given, ◌≤◌, refl, true, false, Bool, is_some, Option, none, some, List, [],
  ◌∷◌, All, arith, ap, ◌∙◌, sym,
}
use mac_bennet.Protocol.Enums.{RunStatus, includes_status, is_terminal_run_status}
use mac_bennet.Runs.Lifecycle.{can_transition, requires_worker_cancel}
use mac_bennet.Runs.Guardrails.{is_past_deadline}
use mac_bennet.Runs.Db.{Run, Db}
use mac_bennet.Runs.Moves.{IsNew, IsDispatchable, Move}
use mac_bennet.Runs.Moves.Fields.{patches}
use mac_bennet.Runs.Moves.Targets.{
  completion_target-terminal, cancel_target-terminal, refuse_target-terminal,
}
use mac_bennet.Runs.Service.{Services, moved}
use mac_bennet.Runs.Service.Dispatch.{dispatch_patch}
use mac_bennet.Runs.Service.Calls.{Call, history}
use mac_bennet.Runs.Refine.{HasKeys}
use mac_bennet.Runs.Invariant.{history-All}

-- With a worker.
abbrev pub is_leased_status : RunStatus → Bool
is_leased_status s = includes_status (RunStatus.running ∷ RunStatus.self_review ∷ []) s

-- Before its dispatch.
abbrev pub is_early_status : RunStatus → Bool
is_early_status s =
    includes_status
      (RunStatus.draft ∷ RunStatus.discovery ∷ RunStatus.ready_for_approval ∷ RunStatus.approved
        ∷ RunStatus.queued ∷ [])
      s

abbrev pub IsInTime : Option ℕ → Option ℕ → Type 0
IsInTime started deadline = elim started [
  | none ↦ Unit {0}
  | some t ↦ is_past_deadline t deadline ≡ false
]

abbrev pub IsUntouched : Run → Type 0
IsUntouched r =
    (r.worker_id ≡ none)
    × (r.lease_expires_at ≡ none)
    × (r.started_at ≡ none)
    × (r.cancel_requested_at ≡ none)
    × (r.attempt ≡ 0)

pub record IsLeased (r : Run) : Type 0 where
  pub leased : is_some r.lease_expires_at ≡ is_leased_status r.status
  pub assigned : (is_leased_status r.status ≡ false) ⊎ (is_some r.worker_id ≡ true)
  pub untouched : (is_early_status r.status ≡ false) ⊎ IsUntouched r
  pub once : r.attempt ≤ 1
  pub in_time : IsInTime r.started_at r.overnight_deadline_at

early-edge :
    (s t : RunStatus)
    → can_transition s t ≡ true
    → is_early_status t ≡ true
    → is_early_status s ≡ true
unfolding can_transition
early-edge RunStatus.draft t c e = refl
early-edge s t c e = ground arith

early-unleased : (s : RunStatus) → is_early_status s ≡ true → is_leased_status s ≡ false
early-unleased RunStatus.draft e = refl
early-unleased s e = ground arith

terminal-unleased : (s : RunStatus) → is_terminal_run_status s ≡ true → is_leased_status s ≡ false
unfolding is_terminal_run_status
terminal-unleased RunStatus.draft e = refl
terminal-unleased s e = ground arith

terminal-late : (s : RunStatus) → is_terminal_run_status s ≡ true → is_early_status s ≡ false
unfolding is_terminal_run_status
terminal-late RunStatus.draft e = cc
terminal-late s e = ground arith

review-edge :
    (s : RunStatus) → can_transition s RunStatus.self_review ≡ true → is_leased_status s ≡ true
unfolding can_transition
review-edge RunStatus.draft c = cc
review-edge s c = ground arith

in_flight-late :
    (s : RunStatus) → includes_status requires_worker_cancel s ≡ true → is_early_status s ≡ false
in_flight-late RunStatus.draft e = cc
in_flight-late s e = ground arith

early-IsLeased : (s : Run) → is_early_status s.status ≡ true → IsUntouched s → IsLeased s
early-IsLeased s e u = record {
  leased = ap is_some u.1 ∙ sym (early-unleased s.status e);
  assigned = inl (early-unleased s.status e);
  untouched = inr u;
  once = omega (arith, u.4);
  in_time = rw (u.2) tt;
}

ended-IsLeased :
    (s : Run)
    → is_terminal_run_status s.status ≡ true
    → s.lease_expires_at ≡ none
    → s.attempt ≤ 1
    → IsInTime s.started_at s.overnight_deadline_at
    → IsLeased s
ended-IsLeased s e none_left once in_time = record {
  leased = ap is_some none_left ∙ sym (terminal-unleased s.status e);
  assigned = inl (terminal-unleased s.status e);
  untouched = inl (terminal-late s.status e);
  once = once;
  in_time = in_time;
}

dispatch-IsLeased :
    (r : Run) (t w : ℕ)
    → IsDispatchable t r
    → IsUntouched r
    → IsLeased (moved (dispatch_patch w t r) RunStatus.running t r)
unfolding dispatch_patch
dispatch-IsLeased r t w d u = record {
  leased = refl;
  assigned = inr refl;
  untouched = inl refl;
  once = omega (arith, u.4);
  in_time = rw (u.2) (d.in_time);
}

early-keep :
    (r s : Run)
    → IsLeased r
    → can_transition r.status s.status ≡ true
    → is_early_status s.status ≡ true
    → (IsUntouched r → IsUntouched s)
    → IsLeased s
early-keep r s h c e k =
    early-IsLeased s e (k (given h.untouched (early-edge r.status s.status c e)))

IsLeased-keep : (r s : Run) → Move r s → IsLeased r → IsLeased s
unfolding patches is_terminal_run_status
IsLeased-keep r s (Move.submit t c) h = early-keep r _ h c refl (λ u. u)
IsLeased-keep r s (Move.approve t p a b band o g c) h = early-keep r _ h c refl (λ u. u)
IsLeased-keep r s (Move.queue t d c) h = early-keep r _ h c refl (λ u. u)
IsLeased-keep r s (Move.reject t c) h = early-keep r _ h c refl (λ u. u)
IsLeased-keep r s (Move.dispatch t w d c) h =
    dispatch-IsLeased r t w d (given h.untouched (ap is_early_status d.queued))
IsLeased-keep r s (Move.refuse t reason to e q c) h =
    let u = given h.untouched (ap is_early_status q) in
    ended-IsLeased _ (refuse_target-terminal e) (u.1) h.once h.in_time
IsLeased-keep r s (Move.progress t i e) h = record {
  leased = sym (ap is_leased_status e);
  assigned = h.assigned;
  untouched = inl (ap is_early_status e);
  once = h.once;
  in_time = h.in_time;
}
IsLeased-keep r s (Move.assess t a) h = record {
  leased = h.leased;
  assigned = h.assigned;
  untouched = h.untouched;
  once = h.once;
  in_time = h.in_time;
}
IsLeased-keep r s (Move.complete t sv i c) h =
    ended-IsLeased _ (completion_target-terminal sv r i.outcome) refl h.once h.in_time
IsLeased-keep r s (Move.review t c) h = record {
  leased = h.leased ∙ review-edge r.status c;
  assigned = inr (given h.assigned (review-edge r.status c));
  untouched = inl refl;
  once = h.once;
  in_time = h.in_time;
}
IsLeased-keep r s (Move.cancel t actor reason c e) h =
    ended-IsLeased _ (cancel_target-terminal reason) (given h.untouched e).1 h.once h.in_time
IsLeased-keep r s (Move.flag t actor reason e f) h = record {
  leased = h.leased;
  assigned = h.assigned;
  untouched = inl (in_flight-late r.status e);
  once = h.once;
  in_time = h.in_time;
}
IsLeased-keep r s (Move.force t actor c) h = ended-IsLeased _ refl refl h.once h.in_time
IsLeased-keep r s (Move.submit_by_policy t c) h = early-keep r _ h c refl (λ u. u)
IsLeased-keep r s (Move.approve_by_policy t e c) h = early-keep r _ h c refl (λ u. u)
IsLeased-keep r s (Move.queue_by_policy t c) h = early-keep r _ h c refl (λ u. u)

IsNew-IsLeased : (r : Run) → IsNew r → IsLeased r
IsNew-IsLeased r n =
    early-IsLeased r (ap is_early_status n.drafted)
      (n.not_assigned, n.not_leased, n.not_started, n.not_cancelled, n.first_attempt)

-- Let the run keys be in order, and let the following hold of each run: it has a lease exactly
-- while it is running or in self-review, and then a worker; before its dispatch it has no
-- worker, lease, start time, cancel request or attempt; it is attempted at most once; and if it
-- was started, that was before its overnight deadline. Then this is so after every history of
-- calls.
pub history-IsLeased :
    (calls : List (Services × ℕ × Call)) (db : Db)
    → HasKeys db
    → All IsLeased db.runs
    → All IsLeased (history calls db).runs
history-IsLeased calls db keys h = history-All IsLeased IsNew-IsLeased IsLeased-keep calls db keys h
