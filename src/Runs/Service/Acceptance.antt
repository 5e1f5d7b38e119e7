-- ===== src/Runs/Service/Acceptance.antt =====
-- `reviewAcceptance` of services/acceptance.ts: what it writes to the run, in a transaction of its own,
-- whoever asks and whatever has become of the run. The evidence, the criteria and the rows of
-- `run_acceptance` are left out; the review of a run is given by `Services`.
use mac_bennet.Prelude.{
  ℕ, zero, suc, String, List, [], ◌∷◌, ◌++◌, Option, none, some, if◌then◌else◌, ◌==◌, not, ◌&&◌,
}
use mac_bennet.Protocol.Enums.{AcceptanceState, RunOutcome}
use mac_bennet.Runs.Db.{Run, Actor, AuditEvent, Db, system_actor, get_run, update_run}
use mac_bennet.Runs.Service.{Services, Review}

unfoldable pub assess_patch : AcceptanceState → ℕ → Run → Run
assess_patch state now r = record r { acceptance_state = state; updated_at = now }

unfoldable pub acceptance_event : Actor → String → ℕ → AuditEvent
acceptance_event actor type id = record {
  actor = actor;
  event_type = type;
  run_id = some id;
  from_status = none;
  to_status = none;
}

unfoldable pub unmet_events : Actor → ℕ → ℕ → List AuditEvent
unmet_events actor zero id = []
unmet_events actor (suc n) id =
    acceptance_event actor "acceptance.gap_recorded" id ∷ unmet_events actor n id

-- A run without criteria leaves no event.
unfoldable pub review_events : Actor → AcceptanceState → ℕ → List AuditEvent
review_events actor AcceptanceState.not_assessed id = []
review_events actor state id = acceptance_event actor "acceptance.reviewed" id ∷ []

-- `persist`
unfoldable pub persist_review : Actor → ℕ → Review → ℕ → Db → Db
persist_review actor id v now db = record db {
  runs = update_run id (assess_patch v.state now) db.runs;
  audit = db.audit ++ (review_events actor v.state id ++ unmet_events actor v.unmet id);
}

-- After the transaction the gaps, if there are any, are written to the run log, which may throw.
unfoldable pub answered_state : Review → AcceptanceState
answered_state v =
    if not (v.unmet == 0) && not v.logged then AcceptanceState.not_assessed else v.state

unfoldable pub review_found : Actor → ℕ → ℕ → Db → Option Review → Option Run → AcceptanceState × Db
review_found actor id now db (some v) (some r) =
    (answered_state v, persist_review actor id v now db)
review_found actor id now db v o = (AcceptanceState.not_assessed, db)

-- With the catch of the caller: a throw is `not_assessed`.
unfoldable pub review_acceptance : Services → Actor → ℕ → ℕ → Db → AcceptanceState × Db
review_acceptance services actor id now db =
    review_found actor id now db (services.review id) (get_run id db.runs)

unfoldable pub assess_completion : Services → ℕ → RunOutcome → ℕ → Db → AcceptanceState × Db
assess_completion services id RunOutcome.succeeded now db =
    review_acceptance services system_actor id now db
assess_completion services id _ now db = (AcceptanceState.not_assessed, db)
