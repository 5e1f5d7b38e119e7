-- ===== src/Credentials/Examples.antt =====
-- One worker whose token is rotated, revoked and replaced.
use mac_bennet.Prelude.{
  ℕ, ◌≡◌, refl, true, false, List, [], ◌∷◌, none, some, codes, map, is_some, same_text, Pairwise,
  find_row, update_rows,
}
use mac_bennet.Protocol.Enums.{WorkerStatus}
use mac_bennet.Runs.Db.Text.{trim}
use mac_bennet.Credentials.{
  WorkerToken, TokenStatus, IssueRoute, Registry, commit, is_active, is_superseded, is_revoked,
  is_disabled, log_credential,
}
use mac_bennet.Credentials.Tokens.{
  new_token, is_usable, expires_after, resolve_presented_token, resolve_token, resolve_found,
  holds_active, retire_active, supersede_token, replace_token, issue_worker_token, issued_account,
  rotate_worker_token,
}
use mac_bennet.Credentials.Enrolment.{
  register_worker, register_found, enrol_worker, finish_registration, is_valid_enrollment,
  registered_again, mark_used,
}
use mac_bennet.Credentials.Calls.{Call, step, history}
use mac_bennet.Credentials.Invariant.{clash}
use mac_bennet.Credentials.Invariant.Calls.{history-Pairwise}
use mac_bennet.Credentials.Invariant.Retired.{resolve_presented_token-retired}

abbrev first_token : WorkerToken
first_token = record {
  id = 0;
  worker_id = 0;
  token_hash = 10;
  status = TokenStatus.active;
  issued_via = IssueRoute.enrollment;
  issued_at = 0;
  expires_at = none;
  last_used_at = none;
  superseded_at = none;
  revoked_at = none;
  revoked_by = none;
}

abbrev revoked_token : WorkerToken
revoked_token = record first_token { status = TokenStatus.revoked; revoked_at = some 5 }

abbrev registry : WorkerToken → Registry
registry t = record {
  tokens = t ∷ [];
  workers =
      record {
        id = 0;
        name = codes "vm";
        status = WorkerStatus.idle;
        rotation_requested_at = none;
        token_issued_at = some 0;
        last_rotated_at = none;
      }
      ∷ [];
  enrollments =
      record {
        id = 0;
        token_hash = 50;
        expires_at = 9000;
        used_at = none;
        used_by_worker_id = none;
      }
      ∷ [];
  next_token_id = 1;
  next_worker_id = 1;
  next_enrollment_id = 1;
  audit = [];
}

-- The worker rotates with an overlap of a minute, and its machine is then enrolled again.
abbrev calls : List (ℕ × Call)
calls = (1000, Call.rotates 60 11 0) ∷ (2000, Call.registers 50 12 (codes "vm")) ∷ []

history-Pairwise_example : Pairwise clash (history calls (registry first_token)).tokens
history-Pairwise_example = history-Pairwise calls (registry first_token) (tt, tt)

resolve_presented_token-retired_example :
    (resolve_presented_token true 10 3000 (history calls (registry revoked_token))).0 ≡ none
unfolding find_row is_active is_superseded is_usable
resolve_presented_token-retired_example =
    resolve_presented_token-retired calls (registry revoked_token) 10 3000 true revoked_token
      (tt, tt) refl refl refl

-- The token that was rotated away is still accepted after the enrollment, to the end of its overlap.
statuses : List TokenStatus
statuses = map (λ t. t.status) (history calls (registry first_token)).tokens

statuses_test :
    (statuses ≡ TokenStatus.superseded ∷ TokenStatus.revoked ∷ TokenStatus.active ∷ [])
    × (is_some (resolve_presented_token false 10 3000 (history calls (registry first_token))).0
        ≡ true)
unfolding statuses history step commit is_active is_superseded is_revoked is_disabled log_credential
    new_token is_usable expires_after resolve_presented_token resolve_token resolve_found
    holds_active retire_active supersede_token replace_token issue_worker_token issued_account
    rotate_worker_token register_worker register_found enrol_worker finish_registration
    is_valid_enrollment registered_again mark_used find_row update_rows same_text trim
statuses_test = (refl, refl)
