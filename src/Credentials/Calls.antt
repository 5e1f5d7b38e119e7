-- ===== src/Credentials/Calls.antt =====
-- The operations on credentials as calls, each in its transaction, and histories of calls.
use mac_bennet.Prelude.{ℕ, Bool, List, [], ◌∷◌}
use mac_bennet.Runs.Db.{Text, Actor}
use mac_bennet.Credentials.{Registry, commit}
use mac_bennet.Credentials.Tokens.{
  resolve_presented_token, rotate_worker_token, request_rotation, revoke_worker_tokens,
  request_rotation_for_aged_tokens,
}
use mac_bennet.Credentials.Enrolment.{create_enrollment_token, register_worker, set_worker_enabled}

pub data Call : Type 0 where
  enrols : ℕ → ℕ → Actor → Call
  registers : ℕ → ℕ → Text → Call
  presents : Bool → ℕ → Call
  rotates : ℕ → ℕ → ℕ → Call
  requests revokes : ℕ → Actor → Call
  ages : ℕ → Call
  enables : ℕ → Bool → Actor → Call

unfoldable pub step : ℕ → Call → Registry → Registry
step now (Call.enrols hash hours actor) r =
    commit (create_enrollment_token hash hours actor now r) r
step now (Call.registers enrollment hash name) r =
    commit (register_worker enrollment hash name now r) r
step now (Call.presents touched hash) r = (resolve_presented_token touched hash now r).1
step now (Call.rotates overlap hash worker_id) r =
    commit (rotate_worker_token overlap hash worker_id now r) r
step now (Call.requests id actor) r = commit (request_rotation id actor now r) r
step now (Call.revokes id actor) r = commit (revoke_worker_tokens id actor now r) r
step now (Call.ages max_age_hours) r = request_rotation_for_aged_tokens max_age_hours now r
step now (Call.enables id enabled actor) r = commit (set_worker_enabled id enabled actor r) r

-- Each call with its time.
unfoldable pub history : List (ℕ × Call) → Registry → Registry
history [] r = r
history ((now, call) ∷ rest) r = history rest (step now call r)
