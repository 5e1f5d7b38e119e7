-- ===== src/Credentials.antt =====
-- Worker credentials: apps/server/src/services/worker-credentials.ts, with the registration of
-- services/workers.ts that issues the first one. A token is known by its hash; `hash` is that of a
-- token that `generateToken` has just made, and the unique index on the hashes refuses a second.
-- The display prefix, the sandbox columns and the texts of reasons are left out.
pub mod Tokens
pub mod Enrolment
pub mod Calls
pub mod Invariant
mod Examples
use mac_bennet.Prelude.{
  ℕ, ◌+◌, ◌-◌, ◌*◌, String, Bool, true, false, not, ◌&&◌, ◌||◌, List, [], ◌∷◌, ◌++◌, Option, none,
  some, ◌==◌, ltb, leb, is_some, if◌then◌else◌, any, keep, length, same_text, update_rows, find_row,
}
use mac_bennet.Protocol.Enums.{WorkerStatus}
use mac_bennet.Runs.Db.{Text, Actor, AuditEvent, system_actor, worker_actor}
use mac_bennet.Runs.Db.Text.{trim}

-- WORKER_TOKEN_STATUSES
pub data TokenStatus : Type 0 where
  active superseded revoked : TokenStatus

-- WORKER_TOKEN_ISSUE_ROUTES
pub data IssueRoute : Type 0 where
  enrollment rotation admin_reset : IssueRoute

pub record WorkerToken : Type 0 where
  pub id : ℕ
  pub worker_id : ℕ
  pub token_hash : ℕ
  pub status : TokenStatus
  pub issued_via : IssueRoute
  pub issued_at : ℕ
  pub expires_at : Option ℕ
  pub last_used_at : Option ℕ
  pub superseded_at : Option ℕ
  pub revoked_at : Option ℕ
  pub revoked_by : Option ℕ

-- The columns of a worker that credentials read or write.
pub record Account : Type 0 where
  pub id : ℕ
  pub name : Text
  pub status : WorkerStatus
  pub rotation_requested_at : Option ℕ
  pub token_issued_at : Option ℕ
  pub last_rotated_at : Option ℕ

pub record Enrollment : Type 0 where
  pub id : ℕ
  pub token_hash : ℕ
  pub expires_at : ℕ
  pub used_at : Option ℕ
  pub used_by_worker_id : Option ℕ

pub record Registry : Type 0 where
  pub tokens : List WorkerToken
  pub workers : List Account
  pub enrollments : List Enrollment
  pub next_token_id : ℕ
  pub next_worker_id : ℕ
  pub next_enrollment_id : ℕ
  pub audit : List AuditEvent

pub data CredentialError : Type 0 where
  not_found invalid_enrollment worker_disabled duplicate_hash : CredentialError

-- A transaction, which leaves the registry as it was if it throws.
pub data Reply (A : Type 0) : Type 0 where
  ok : A → Registry → Reply A
  err : CredentialError → Reply A

unfoldable pub commit : {A : Type 0} → Reply A → Registry → Registry
commit (Reply.ok a r) old = r
commit (Reply.err e) old = old

unfoldable pub log_credential : Actor → String → Registry → Registry
log_credential actor event_type r = record r {
  audit =
      r.audit
      ++ (record {
        actor = actor;
        event_type = event_type;
        run_id = none;
        from_status = none;
        to_status = none;
      }
          ∷ []);
}

unfoldable pub is_active : TokenStatus → Bool
is_active TokenStatus.active = true
is_active _ = false

unfoldable pub is_superseded : TokenStatus → Bool
is_superseded TokenStatus.superseded = true
is_superseded _ = false

unfoldable pub is_revoked : TokenStatus → Bool
is_revoked TokenStatus.revoked = true
is_revoked _ = false

unfoldable pub is_disabled : WorkerStatus → Bool
is_disabled WorkerStatus.disabled = true
is_disabled _ = false
