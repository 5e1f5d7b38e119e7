-- ===== src/Approvals/Service.antt =====
-- apps/server/src/services/approval-requests.ts: creation with supersession, expiry, cancellation
-- and delivery. `random` gives the results of `randomInt(32)` in order. The event feed is left out.
pub mod Decide
pub mod Calls
use mac_bennet.Prelude.{
  ℕ, zero, suc, ◌+◌, ◌*◌, Bool, true, false, ◌&&◌, List, [], ◌∷◌, ◌++◌, Option, none, some, ◌==◌,
  ltb, if◌then◌else◌, any, keep, take, map, length, codes, same_text,
}
use mac_bennet.Runs.Confidence.{Confidence, to_fixed3}
use mac_bennet.Runs.Db.{Text, Actor, system_actor, get_task}
use mac_bennet.Approvals.{SubjectKind, RequestState, AuthorityClass, is_open_approval_state}
use mac_bennet.Approvals.Codes.{code_alphabet, code_prefix, code_length}
use mac_bennet.Approvals.Binding.{Outstanding}
use mac_bennet.Approvals.Store.{
  Risk, Channel, Request, Store, ApprovalError, Answer, update_where, includes_id, log_event,
}

pub record CreateApprovalRequest : Type 0 where
  pub task_id : ℕ
  pub run_id : Option ℕ
  pub brief_id : Option ℕ
  pub subject_kind : SubjectKind
  pub subject_version : ℕ
  pub title : Text
  pub detail : Text
  pub recommendation : Text
  pub risk : Risk
  pub authority : AuthorityClass
  pub confidence : Option Confidence
  pub expires_in_hours : Option ℕ

unfoldable pub is_pending : Request → Bool
is_pending r = is_open_approval_state r.state

abbrev pub same_kind : SubjectKind → SubjectKind → Bool
same_kind SubjectKind.run SubjectKind.run = true
same_kind SubjectKind.brief SubjectKind.brief = true
same_kind SubjectKind.action SubjectKind.action = true
same_kind _ _ = false

-- `APPROVAL_CODE_ALPHABET[i]`, appended to a string: `undefined` out of range.
unfoldable pub letter_at : Text → ℕ → Text
letter_at [] i = codes "undefined"
letter_at (c ∷ cs) zero = c ∷ []
letter_at (c ∷ cs) (suc i) = letter_at cs i

unfoldable pub draw_letters : (ℕ → ℕ) → ℕ → ℕ → Text
draw_letters random zero k = []
draw_letters random (suc n) k = letter_at code_alphabet (random k) ++ draw_letters random n (k + 1)

unfoldable pub drawn_code : (ℕ → ℕ) → ℕ → Text
drawn_code random k = code_prefix ++ draw_letters random code_length k

-- A pending request has this code.
unfoldable pub clashes : Text → List Request → Bool
clashes code rs = any (λ r. same_text r.code code && is_pending r) rs

-- `allocateCode`: at most `attempts` draws, from the `k`-th random number on.
unfoldable pub allocate_code : (ℕ → ℕ) → List Request → ℕ → ℕ → Option Text
allocate_code random rs zero k = none
allocate_code random rs (suc attempts) k =
    let later = allocate_code random rs attempts (k + code_length) in
    if clashes (drawn_code random k) rs then later else some (drawn_code random k)

-- A pending request for the same subject.
unfoldable pub is_same_subject : ℕ → SubjectKind → Request → Bool
is_same_subject task_id kind r =
    (r.task_id == task_id && same_kind r.subject_kind kind) && is_pending r

unfoldable pub expiry : ℕ → Option ℕ → Option ℕ
expiry now none = none
expiry now (some hours) = if hours == 0 then none else some (now + hours * 3600000)

unfoldable pub fixed_confidence : Option Confidence → Option ℕ
fixed_confidence none = none
fixed_confidence (some c) = some (to_fixed3 c)

-- The row that `createApprovalRequest` inserts.
unfoldable pub new_request : CreateApprovalRequest → Text → ℕ → ℕ → Request
new_request input code now id = record {
  id = id;
  code = code;
  state = RequestState.pending;
  subject_kind = input.subject_kind;
  subject_version = input.subject_version;
  task_id = input.task_id;
  run_id = input.run_id;
  brief_id = input.brief_id;
  title = take 300 input.title;
  detail = take 8000 input.detail;
  recommendation = take 4000 input.recommendation;
  risk = input.risk;
  authority = input.authority;
  confidence = fixed_confidence input.confidence;
  requested_at = now;
  expires_at = expiry now input.expires_in_hours;
  delivered_channels = [];
  decided_at = none;
  decided_by_user_id = none;
  decided_via_channel = none;
  decided_via_message_id = none;
  decision_notes = none;
  superseded_by_request_id = none;
  created_at = now;
  updated_at = now;
}

unfoldable pub supersede_patch : ℕ → ℕ → Request → Request
supersede_patch by now r = record r {
  state = RequestState.superseded;
  superseded_by_request_id = some by;
  updated_at = now;
}

-- The update and the audit event of the requests that a new one replaces, if there are any.
unfoldable pub supersede : List ℕ → ℕ → Actor → ℕ → Store → Store
supersede [] by actor now s = s
supersede (id ∷ ids) by actor now s = log_event actor "approval_request.superseded" none (record s {
  requests = update_where (λ r. includes_id (id ∷ ids) r.id) (supersede_patch by now) s.requests;
})

unfoldable pub same_subject_ids : CreateApprovalRequest → List Request → List ℕ
same_subject_ids input rs =
    map (λ r. r.id) (keep (is_same_subject input.task_id input.subject_kind) rs)

unfoldable pub insert_request : Request → Store → Store
insert_request row s = record s {
  requests = s.requests ++ (row ∷ []);
  next_request_id = s.next_request_id + 1;
}

unfoldable pub create_with_code :
    CreateApprovalRequest → Actor → ℕ → Store → Option Text → Answer Request
create_with_code input actor now s none = Answer.err ApprovalError.code_exhausted s
create_with_code input actor now s (some code) =
    let row = new_request input code now s.next_request_id in
    Answer.ok row (
      log_event actor "approval_request.created" input.run_id
        (supersede (same_subject_ids input s.requests) row.id actor now (insert_request row s)))

unfoldable pub create_approval_request :
    (ℕ → ℕ) → CreateApprovalRequest → Actor → ℕ → Store → Answer Request
create_approval_request random input actor now s = elim (get_task input.task_id s.db.tasks) [
  | none ↦ Answer.err ApprovalError.not_found s
  | some task ↦ create_with_code input actor now s (allocate_code random s.requests 12 0)
]

-- `pendingForConversation`: the 20 most recent of those pending, of one task or of all.
unfoldable pub by_recency : Request → List Request → List Request
by_recency r [] = r ∷ []
by_recency r (x ∷ xs) =
    let rest = by_recency r xs in if ltb x.requested_at r.requested_at then r ∷ x ∷ xs else x ∷ rest

unfoldable pub most_recent_first : List Request → List Request
most_recent_first [] = []
most_recent_first (r ∷ rs) = by_recency r (most_recent_first rs)

unfoldable pub for_conversation : Option ℕ → Request → Bool
for_conversation none r = is_pending r
for_conversation (some task_id) r = is_pending r && r.task_id == task_id

unfoldable pub pending_for_conversation : Option ℕ → List Request → List Outstanding
pending_for_conversation task_id rs =
    map (λ r. record { id = r.id; code = r.code; title = r.title })
      (take 20 (most_recent_first (keep (for_conversation task_id) rs)))

unfoldable pub expire_patch : ℕ → Request → Request
expire_patch now r = record r { state = RequestState.expired; updated_at = now }

unfoldable pub expire_requests : List ℕ → ℕ → Store → Store
expire_requests ids now s = log_event system_actor "approval_request.expired" none (record s {
  requests = update_where (λ r. includes_id ids r.id && is_pending r) (expire_patch now) s.requests;
})

-- `and(eq(state, 'pending'), lt(expiresAt, now))`: a row without an expiry is not selected.
unfoldable pub before_now : ℕ → Option ℕ → Bool
before_now now none = false
before_now now (some at) = ltb at now

unfoldable pub is_stale : ℕ → Request → Bool
is_stale now r = is_pending r && before_now now r.expires_at

unfoldable pub expire_found : List ℕ → ℕ → Store → Answer ℕ
expire_found [] now s = Answer.ok 0 s
expire_found (id ∷ ids) now s = Answer.ok (length (id ∷ ids)) (expire_requests (id ∷ ids) now s)

unfoldable pub expire_stale_requests : ℕ → Store → Answer ℕ
expire_stale_requests now s =
    expire_found (map (λ r. r.id) (take 200 (keep (is_stale now) s.requests))) now s

unfoldable pub cancel_patch : ℕ → Request → Request
cancel_patch now r = record r { state = RequestState.cancelled; updated_at = now }

-- `eq(column, id)` on a column that may be null.
unfoldable pub is_id : ℕ → Option ℕ → Bool
is_id id none = false
is_id id (some other) = other == id

unfoldable pub is_about : ℕ → Request → Bool
is_about run_id r = is_id run_id r.run_id && is_pending r

unfoldable pub cancel_requests_for_run : ℕ → ℕ → Store → Store
cancel_requests_for_run run_id now s = record s {
  requests = update_where (is_about run_id) (cancel_patch now) s.requests;
}

-- `jsonb_agg(DISTINCT value)`: sorted by the database's order on the channels, without duplicates.
unfoldable pub insert_distinct : (Channel → Channel → Bool) → Channel → List Channel → List Channel
insert_distinct before c [] = c ∷ []
insert_distinct before c (d ∷ ds) =
    let rest = insert_distinct before c ds in
    if before c d then c ∷ d ∷ ds else if before d c then d ∷ rest else d ∷ ds

unfoldable pub distinct_channels : (Channel → Channel → Bool) → List Channel → List Channel
distinct_channels before [] = []
distinct_channels before (c ∷ cs) = insert_distinct before c (distinct_channels before cs)

unfoldable pub deliver_patch : (Channel → Channel → Bool) → Channel → ℕ → Request → Request
deliver_patch before channel now r = record r {
  delivered_channels = distinct_channels before (r.delivered_channels ++ (channel ∷ []));
  updated_at = now;
}

unfoldable pub note_delivered : (Channel → Channel → Bool) → ℕ → Channel → ℕ → Store → Store
note_delivered before id channel now s = record s {
  requests = update_where (λ r. r.id == id) (deliver_patch before channel now) s.requests;
}
