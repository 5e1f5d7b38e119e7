-- ===== src/Credentials/Enrolment.antt =====
-- services/workers.ts: enrollment tokens, the registration of a worker, and disabling it.
use mac_bennet.Prelude.{
  ℕ, ◌+◌, ◌*◌, Bool, not, ◌&&◌, [], ◌∷◌, ◌++◌, Option, none, some, ◌==◌, leb, is_some,
  if◌then◌else◌, any, same_text, update_rows, find_row,
}
use mac_bennet.Protocol.Enums.{WorkerStatus}
use mac_bennet.Runs.Db.{Text, Actor, worker_actor}
use mac_bennet.Runs.Db.Text.{trim}
use mac_bennet.Credentials.{
  IssueRoute, Account, Enrollment, Registry, CredentialError, Reply, log_credential, is_disabled,
}
use mac_bennet.Credentials.Tokens.{issue_worker_token, is_account}

unfoldable pub create_enrollment_token : ℕ → ℕ → Actor → ℕ → Registry → Reply (Unit {0})
create_enrollment_token hash expires_in_hours actor now r =
    if any (λ e. e.token_hash == hash) r.enrollments
    then Reply.err CredentialError.duplicate_hash
    else Reply.ok tt (
        log_credential actor "worker.enrollment_token_created" (record r {
          enrollments =
              r.enrollments
              ++ (record {
                id = r.next_enrollment_id;
                token_hash = hash;
                expires_at = now + expires_in_hours * 3600000;
                used_at = none;
                used_by_worker_id = none;
              }
                  ∷ []);
          next_enrollment_id = r.next_enrollment_id + 1;
        }))

unfoldable pub registered_again : Account → Account
registered_again w = record w { status = WorkerStatus.registered }

unfoldable pub new_account : Text → ℕ → Account
new_account name id = record {
  id = id;
  name = name;
  status = WorkerStatus.registered;
  rotation_requested_at = none;
  token_issued_at = none;
  last_rotated_at = none;
}

-- The worker of that name: re-registered, or inserted; a disabled one is refused.
unfoldable pub enrol_worker : Text → Registry → Option Account → Reply ℕ
enrol_worker name r none = Reply.ok r.next_worker_id (record r {
  workers = r.workers ++ (new_account name r.next_worker_id ∷ []);
  next_worker_id = r.next_worker_id + 1;
})
enrol_worker name r (some w) =
    if is_disabled w.status
    then Reply.err CredentialError.worker_disabled
    else Reply.ok w.id
        (record r { workers = update_rows (is_account w.id) registered_again r.workers })

unfoldable pub mark_used : ℕ → ℕ → Enrollment → Enrollment
mark_used worker_id now e = record e { used_at = some now; used_by_worker_id = some worker_id }

unfoldable pub finish_registration : Enrollment → ℕ → ℕ → ℕ → Registry → Reply ℕ
finish_registration e hash now worker_id r =
    elim (issue_worker_token hash worker_id IssueRoute.enrollment 0 now r) [
      | Reply.err x ↦ Reply.err x
      | Reply.ok u s ↦ Reply.ok worker_id (
          log_credential (worker_actor worker_id) "worker.registered" (record s {
            enrollments = update_rows (λ x. x.id == e.id) (mark_used worker_id now) s.enrollments;
          }))
    ]

-- An enrollment token that is unknown, used or expired is refused alike.
unfoldable pub is_valid_enrollment : ℕ → Enrollment → Bool
is_valid_enrollment now e = not (is_some e.used_at) && not (leb e.expires_at now)

unfoldable pub register_found : ℕ → Text → ℕ → Registry → Option Enrollment → Reply ℕ
register_found hash name now r none = Reply.err CredentialError.invalid_enrollment
register_found hash name now r (some e) =
    if not (is_valid_enrollment now e)
    then Reply.err CredentialError.invalid_enrollment
    else (elim (enrol_worker (trim name) r
        (find_row (λ w. same_text w.name (trim name)) r.workers)) [
          | Reply.err x ↦ Reply.err x
          | Reply.ok id s ↦ finish_registration e hash now id s
        ])

unfoldable pub register_worker : ℕ → ℕ → Text → ℕ → Registry → Reply ℕ
register_worker enrollment_hash hash name now r =
    register_found hash name now r (find_row (λ e. e.token_hash == enrollment_hash) r.enrollments)

unfoldable pub enabled_account : Bool → Account → Account
enabled_account enabled w = record w {
  status = if enabled then WorkerStatus.offline else WorkerStatus.disabled;
}

unfoldable pub set_worker_enabled : ℕ → Bool → Actor → Registry → Reply (Unit {0})
set_worker_enabled id enabled actor r = elim (find_row (is_account id) r.workers) [
  | none ↦ Reply.err CredentialError.not_found
  | some w ↦ Reply.ok tt (
      log_credential actor (if enabled then "worker.online" else "worker.offline")
        (record r { workers = update_rows (is_account id) (enabled_account enabled) r.workers }))
]
