-- ===== src/Runs/Service.antt =====
-- apps/server/src/services/runs.ts: the transition primitive and what the operations share.
-- `Services` holds what they are given by other parts of the server at the time of the call.
-- The run log, the event feed for other systems and the DTO returned to a client are left out.
pub mod Approval
pub mod Night
pub mod Dispatch
pub mod Acceptance
pub mod Progress
pub mod Cancel
pub mod Calls
use mac_bennet.Prelude.{
  ℕ, ◌+◌, ◌++◌, String, Bool, List, [], ◌∷◌, Option, none, some, if◌then◌else◌,
}
use mac_bennet.Protocol.Enums.{RunStatus, AcceptanceState}
use mac_bennet.Protocol.Jobs.{SafeParse}
use mac_bennet.Runs.Lifecycle.{can_transition}
use mac_bennet.Runs.Confidence.{ConfidencePolicy}
use mac_bennet.Runs.Db.{
  Run, Actor, AuditEvent, Db, Error, Outcome, Tx, ◌>>=◌, ◌>>◌, return, require_run, update_run,
  record_event,
}

-- What `reviewAcceptance` finds: the state and the number of unmet criteria, and whether the run log
-- can be written after they are stored.
pub record Review : Type 0 where
  pub state : AcceptanceState
  pub unmet : ℕ
  pub logged : Bool

-- How `buildGeneralAssignment` ends: `MODEL_PROVIDER_REQUIRED` is told from any other error.
pub data GeneralBuild : Type 0 where
  built provider_required build_failed : GeneralBuild

pub record Settings : Type 0 where
  pub policy : ConfidencePolicy
  pub nightly_budget_cents : ℕ
  pub budget_stop_pct : ℕ
  pub require_sandbox : Bool

pub record Services : Type 0 where
  pub safe_parse : SafeParse
  pub settings : Settings
  pub recorded_spend_cents : ℕ  -- recordedSpendForWindow
  pub next_cutoff_after : ℕ → ℕ  -- domain/overnight.ts, at the configured cutoff
  pub active_revision : Option (Option ℕ)  -- requireActiveRevision: none is a throw
  pub builds_coding : Run → Bool  -- buildCodingAssignment: false is a throw
  pub builds_general : Run → GeneralBuild  -- buildGeneralAssignment
  pub review : ℕ → Option Review  -- the evidence and criteria of a run: none is a throw
  pub is_locked : ℕ → Bool  -- a row that another transaction has locked

-- 120 seconds.
abbrev pub lease_ms : ℕ
lease_ms = 120000

unfoldable pub set_runs : (List Run → List Run) → Tx (Unit {0})
set_runs f db = Outcome.ok tt (record db { runs = f db.runs })

-- `assertTransition`, with the rejection recorded outside the transaction.
unfoldable pub assert_transition : Run → RunStatus → Actor → Tx (Unit {0})
assert_transition current to actor db =
    if can_transition current.status to
    then Outcome.ok tt db
    else Outcome.err (Error.invalid_transition current.status to) (
        record {
          actor = actor;
          event_type = "run.transition_rejected";
          run_id = some current.id;
          from_status = some current.status;
          to_status = some to;
        }
        ∷ [])

-- The row after `set({ ...patch, status: to, updatedAt: now })`.
abbrev pub moved : (Run → Run) → RunStatus → ℕ → Run → Run
moved patch to now r = record (patch r) { status = to; updated_at = now }

unfoldable pub transition : ℕ → RunStatus → Actor → String → (Run → Run) → ℕ → Tx Run
transition id to actor event_type patch now = do
  current ← require_run id
  assert_transition current to actor
  set_runs (update_run id (moved patch to now))
  record_event (record {
    actor = actor;
    event_type = event_type;
    run_id = some current.id;
    from_status = some current.status;
    to_status = some to;
  })
  return (moved patch to now current)
