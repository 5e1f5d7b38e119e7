-- ===== src/Credentials/Tokens.antt =====
-- services/worker-credentials.ts: issue, resolution, rotation and revocation of tokens. A worker whose
-- join with its tokens gives several rows is asked to rotate once, since asking again does nothing.
use mac_bennet.Prelude.{
  ℕ, ◌+◌, ◌*◌, Bool, false, not, ◌&&◌, ◌||◌, List, [], ◌∷◌, ◌++◌, Option, none, some, ◌==◌, ltb,
  is_some, if◌then◌else◌, any, keep, length, update_rows, find_row,
}
use mac_bennet.Runs.Db.{Actor, system_actor, worker_actor}
use mac_bennet.Credentials.{
  WorkerToken, TokenStatus, IssueRoute, Account, Registry, CredentialError, Reply, commit,
  log_credential, is_active, is_superseded, is_revoked, is_disabled,
}

unfoldable pub supersede_token : ℕ → ℕ → WorkerToken → WorkerToken
supersede_token now overlap_seconds t = record t {
  status = TokenStatus.superseded;
  superseded_at = some now;
  expires_at = some (now + overlap_seconds * 1000);
}

unfoldable pub replace_token : ℕ → WorkerToken → WorkerToken
replace_token now t = record t { status = TokenStatus.revoked; revoked_at = some now }

unfoldable pub holds_active : ℕ → WorkerToken → Bool
holds_active worker_id t = t.worker_id == worker_id && is_active t.status

-- What becomes of the active token when another is issued.
unfoldable pub retire_active : ℕ → ℕ → ℕ → List WorkerToken → List WorkerToken
retire_active worker_id overlap_seconds now tokens =
    if ltb 0 overlap_seconds
    then update_rows (holds_active worker_id) (supersede_token now overlap_seconds) tokens
    else update_rows (holds_active worker_id) (replace_token now) tokens

unfoldable pub new_token : ℕ → ℕ → IssueRoute → ℕ → ℕ → WorkerToken
new_token hash worker_id route now id = record {
  id = id;
  worker_id = worker_id;
  token_hash = hash;
  status = TokenStatus.active;
  issued_via = route;
  issued_at = now;
  expires_at = none;
  last_used_at = none;
  superseded_at = none;
  revoked_at = none;
  revoked_by = none;
}

unfoldable pub issued_account : IssueRoute → ℕ → Account → Account
issued_account IssueRoute.rotation now w = record w {
  token_issued_at = some now;
  rotation_requested_at = none;
  last_rotated_at = some now;
}
issued_account _ now w = record w { token_issued_at = some now; rotation_requested_at = none }

abbrev pub has_hash : ℕ → WorkerToken → Bool
has_hash hash t = t.token_hash == hash

abbrev pub is_account : ℕ → Account → Bool
is_account id w = w.id == id

unfoldable pub issue_worker_token : ℕ → ℕ → IssueRoute → ℕ → ℕ → Registry → Reply (Unit {0})
issue_worker_token hash worker_id route overlap_seconds now r =
    if any (has_hash hash) r.tokens
    then Reply.err CredentialError.duplicate_hash
    else Reply.ok tt (record r {
      tokens =
          retire_active worker_id overlap_seconds now r.tokens
          ++ (new_token hash worker_id route now r.next_token_id ∷ []);
      next_token_id = r.next_token_id + 1;
      workers = update_rows (is_account worker_id) (issued_account route now) r.workers;
    })

-- `status === 'active' || (status === 'superseded' && expiresAt > now)`
unfoldable pub expires_after : ℕ → Option ℕ → Bool
expires_after now none = false
expires_after now (some at) = ltb now at

unfoldable pub is_usable : ℕ → WorkerToken → Bool
is_usable now t = is_active t.status || (is_superseded t.status && expires_after now t.expires_at)

pub record Resolution : Type 0 where
  pub worker : Account
  pub token : WorkerToken
  pub superseded : Bool

unfoldable pub touch : ℕ → WorkerToken → WorkerToken
touch now t = record t { last_used_at = some now }

-- A token that is found, and its worker. The touch is best effort: `touched` says if it happened.
unfoldable pub resolve_found :
    Bool → ℕ → Registry → WorkerToken → Account → Option Resolution × Registry
resolve_found touched now r t w =
    if is_disabled w.status
    then (none, r)
    else if not (is_usable now t)
    then (none, log_credential (worker_actor w.id) "worker.token_rejected" r)
    else (
      some (record { worker = w; token = t; superseded = is_superseded t.status }),
      if touched
          then record r { tokens = update_rows (λ x. x.id == t.id) (touch now) r.tokens }
          else r,
    )

unfoldable pub resolve_token :
    Bool → ℕ → Registry → Option WorkerToken → Option Resolution × Registry
resolve_token touched now r none = (none, r)
resolve_token touched now r (some t) = elim (find_row (is_account t.worker_id) r.workers) [
  | none ↦ (none, r)
  | some w ↦ resolve_found touched now r t w
]

unfoldable pub resolve_presented_token : Bool → ℕ → ℕ → Registry → Option Resolution × Registry
resolve_presented_token touched hash now r =
    resolve_token touched now r (find_row (has_hash hash) r.tokens)

-- Authenticated with the token that is replaced; `overlap_seconds` is a setting.
unfoldable pub rotate_worker_token : ℕ → ℕ → ℕ → ℕ → Registry → Reply (Unit {0})
rotate_worker_token overlap_seconds hash worker_id now r =
    elim (issue_worker_token hash worker_id IssueRoute.rotation overlap_seconds now r) [
      | Reply.err e ↦ Reply.err e
      | Reply.ok u s ↦
          Reply.ok tt (log_credential (worker_actor worker_id) "worker.token_rotated" s)
    ]

unfoldable pub ask_rotation : ℕ → Account → Account
ask_rotation now w = record w { rotation_requested_at = some now }

unfoldable pub request_rotation : ℕ → Actor → ℕ → Registry → Reply (Unit {0})
request_rotation worker_id actor now r = elim (find_row (is_account worker_id) r.workers) [
  | none ↦ Reply.err CredentialError.not_found
  | some w ↦
      if is_some w.rotation_requested_at
      then Reply.ok tt r
      else Reply.ok tt (
          log_credential actor "worker.token_rotation_requested" (record r {
            workers = update_rows (is_account worker_id) (ask_rotation now) r.workers;
          }))
]

unfoldable pub revoke_token : ℕ → Actor → WorkerToken → WorkerToken
revoke_token now actor t = record t {
  status = TokenStatus.revoked;
  revoked_at = some now;
  revoked_by = actor.id;
  expires_at = none;
}

unfoldable pub holds_open : ℕ → WorkerToken → Bool
holds_open worker_id t = t.worker_id == worker_id && not (is_revoked t.status)

unfoldable pub clear_request : Account → Account
clear_request w = record w { rotation_requested_at = none }

unfoldable pub revoke_worker_tokens : ℕ → Actor → ℕ → Registry → Reply ℕ
revoke_worker_tokens worker_id actor now r = elim (find_row (is_account worker_id) r.workers) [
  | none ↦ Reply.err CredentialError.not_found
  | some w ↦ Reply.ok (length (keep (holds_open worker_id) r.tokens)) (
      log_credential actor "worker.token_revoked" (record r {
        tokens = update_rows (holds_open worker_id) (revoke_token now actor) r.tokens;
        workers = update_rows (is_account worker_id) clear_request r.workers;
      }))
]

-- Workers whose active token was issued before the cutoff, each asked in a transaction of its own.
-- An age of the clock's start or more leaves no token older than the cutoff.
unfoldable pub is_aged : ℕ → ℕ → List WorkerToken → Account → Bool
is_aged now max_age_hours tokens w =
    (not (is_some w.rotation_requested_at) && not (is_disabled w.status))
    && any (λ t. holds_active w.id t && ltb (t.issued_at + max_age_hours * 3600000) now) tokens

unfoldable pub request_each : ℕ → List Account → Registry → Registry
request_each now [] r = r
request_each now (w ∷ ws) r =
    request_each now ws (commit (request_rotation w.id system_actor now r) r)

unfoldable pub request_rotation_for_aged_tokens : ℕ → ℕ → Registry → Registry
request_rotation_for_aged_tokens max_age_hours now r =
    request_each now (keep (is_aged now max_age_hours r.tokens) r.workers) r
