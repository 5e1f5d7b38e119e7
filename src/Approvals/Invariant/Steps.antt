-- ===== src/Approvals/Invariant/Steps.antt =====
-- Each operation on the approval requests keeps the invariants.
use mac_bennet.Prelude.{
  ℕ, suc, zero, ◌+◌, ◌≡◌, refl, subst, sym, Bool, true, false, inl, inr, List, [], ◌∷◌, arith,
  Option, none, some, Bool-cases, Option-cases, map, take, keep,
}
use mac_bennet.Runs.Db.{Text, Actor, get_task}
use mac_bennet.Approvals.Store.{
  Request, Store, Channel, left_by, update_where, includes_id, log_event,
}
use mac_bennet.Approvals.Service.{
  is_pending, CreateApprovalRequest, allocate_code, drawn_code, clashes, create_with_code,
  create_approval_request, new_request, supersede, supersede_patch, insert_request, expire_patch,
  expire_requests, expire_found, expire_stale_requests, cancel_patch, cancel_requests_for_run,
  is_about, deliver_patch, note_delivered, is_stale,
}
use mac_bennet.Approvals.Rows.{IsLater}
use mac_bennet.Approvals.Invariant.{IsKept, Keeps, Keeps-refl, update_where-Keeps, is_granted}
use mac_bennet.Approvals.Invariant.Create.{create_Keeps, update_where_none}

abbrev pub IsKeptStore : Store → Type 0
IsKeptStore s = IsKept s.next_request_id s.requests

abbrev pub KeepsStore : Store → Store → Type 0
KeepsStore s t = Keeps s.next_request_id s.requests t.next_request_id t.requests

allocate_code-clashes :
    (random : ℕ → ℕ) (rs : List Request) (n k : ℕ) (code : Text)
    → allocate_code random rs n k ≡ some code
    → clashes code rs ≡ false
unfolding allocate_code
allocate_code-clashes random rs zero k code e = absurd (cc)
allocate_code-clashes random rs (suc n) k code e =
    elim (Bool-cases (clashes (drawn_code random k) rs)) [
      | inl hit ↦ allocate_code-clashes random rs n (k + 4) code (ground arith)
      | inr free ↦
          let same : drawn_code random k ≡ code = ground arith in
          subst (λ c. clashes c rs ≡ false) same free
    ]

supersede_requests :
    (ids : List ℕ) (by : ℕ) (actor : Actor) (now : ℕ) (s : Store)
    → (supersede ids by actor now s).requests
      ≡ update_where (λ r. includes_id ids r.id) (supersede_patch by now) s.requests
unfolding supersede log_event
supersede_requests [] by actor now s = sym (update_where_none (supersede_patch by now) s.requests)
supersede_requests (id ∷ ids) by actor now s = refl

supersede_next :
    (ids : List ℕ) (by : ℕ) (actor : Actor) (now : ℕ) (s : Store)
    → (supersede ids by actor now s).next_request_id ≡ s.next_request_id
unfolding supersede log_event
supersede_next [] by actor now s = refl
supersede_next (id ∷ ids) by actor now s = refl

create_with_code-Keeps :
    (input : CreateApprovalRequest) (actor : Actor) (now : ℕ) (s : Store) (o : Option Text)
    → ((code : Text) → o ≡ some code → clashes code s.requests ≡ false)
    → IsKeptStore s
    → KeepsStore s (left_by (create_with_code input actor now s o))
unfolding create_with_code left_by log_event
create_with_code-Keeps input actor now s none free k = Keeps-refl k
create_with_code-Keeps input actor now s (some code) free k =
    rw (supersede_requests, supersede_next)
      (unfold insert_request new_request in
        create_Keeps input code now s.next_request_id s.requests k (free code refl))

pub create_approval_request-Keeps :
    (random : ℕ → ℕ) (input : CreateApprovalRequest) (actor : Actor) (now : ℕ) (s : Store)
    → IsKeptStore s
    → KeepsStore s (left_by (create_approval_request random input actor now s))
unfolding create_approval_request left_by
create_approval_request-Keeps random input actor now s k =
    elim (Option-cases (get_task input.task_id s.db.tasks)) [
      | inl e ↦ rw (e, create_approval_request) (Keeps-refl k)
      | inr (t, e) ↦
          rw (e, create_approval_request)
            (create_with_code-Keeps input actor now s (allocate_code random s.requests 12 0)
              (λ code f. allocate_code-clashes random s.requests 12 0 code f) k)
    ]

expire_patch-IsLater :
    (now : ℕ) (r : Request) → is_pending r ≡ true → IsLater r (expire_patch now r)
unfolding expire_patch
expire_patch-IsLater now r e = record {
  same_id = refl;
  same_code = refl;
  same_kind = refl;
  same_version = refl;
  same_task = refl;
  same_run = refl;
  same_authority = refl;
  same_expiry = refl;
  frozen = inl e;
}

pub expire_requests-Keeps :
    (ids : List ℕ) (now : ℕ) (s : Store) → IsKeptStore s → KeepsStore s (expire_requests ids now s)
unfolding expire_requests log_event is_granted
expire_requests-Keeps ids now s k =
    update_where-Keeps _ (expire_patch now) k (λ r e. expire_patch-IsLater now r (ground arith))
      (λ r e g. unfold expire_patch in refl)

pub expire_stale_requests-Keeps :
    (now : ℕ) (s : Store) → IsKeptStore s → KeepsStore s (left_by (expire_stale_requests now s))
unfolding expire_stale_requests
expire_stale_requests-Keeps now s k =
    found (map (λ r. r.id) (take 200 (keep (is_stale now) s.requests)))
  where
    found : (ids : List ℕ) → KeepsStore s (left_by (expire_found ids now s))
    found [] = unfold expire_found left_by in Keeps-refl k
    found (id ∷ ids) = unfold expire_found left_by in expire_requests-Keeps (id ∷ ids) now s k

cancel_patch-IsLater :
    (now : ℕ) (r : Request) → is_pending r ≡ true → IsLater r (cancel_patch now r)
unfolding cancel_patch
cancel_patch-IsLater now r e = record {
  same_id = refl;
  same_code = refl;
  same_kind = refl;
  same_version = refl;
  same_task = refl;
  same_run = refl;
  same_authority = refl;
  same_expiry = refl;
  frozen = inl e;
}

pub cancel_requests_for_run-Keeps :
    (run_id now : ℕ) (s : Store)
    → IsKeptStore s
    → KeepsStore s (cancel_requests_for_run run_id now s)
unfolding cancel_requests_for_run is_about is_granted
cancel_requests_for_run-Keeps run_id now s k =
    update_where-Keeps _ (cancel_patch now) k (λ r e. cancel_patch-IsLater now r (ground arith))
      (λ r e g. unfold cancel_patch in refl)

pub note_delivered-Keeps :
    (before : Channel → Channel → Bool) (id : ℕ) (channel : Channel) (now : ℕ) (s : Store)
    → IsKeptStore s
    → KeepsStore s (note_delivered before id channel now s)
unfolding note_delivered deliver_patch is_granted
note_delivered-Keeps before id channel now s k =
    update_where-Keeps _ (deliver_patch before channel now) k
      (λ r e. record {
        same_id = refl;
        same_code = refl;
        same_kind = refl;
        same_version = refl;
        same_task = refl;
        same_run = refl;
        same_authority = refl;
        same_expiry = refl;
        frozen = inr (refl, refl, refl, refl, refl, refl);
      })
      (λ r e g. g)
