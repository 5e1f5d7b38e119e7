-- ===== src/Runs/Invariant.antt =====
-- What holds of the runs table after any history of calls.
pub mod Status
pub mod Approval
pub mod Records
pub mod Closing
pub mod Lease
use mac_bennet.Prelude.{ℕ, List, All}
use mac_bennet.Runs.Db.{Run, Db}
use mac_bennet.Runs.Moves.{IsNew, Move}
use mac_bennet.Runs.Moves.Evolve.{Evolves-All}
use mac_bennet.Runs.Service.{Services}
use mac_bennet.Runs.Service.Calls.{Call, history}
use mac_bennet.Runs.Refine.{HasKeys}
use mac_bennet.Runs.Refine.Calls.{history-moves}

-- A predicate of rows that new rows have and moves keep is an invariant of the service.
pub history-All {κ} :
    (P : Run → Type κ)
    → ((r : Run) → IsNew r → P r)
    → ((r s : Run) → Move r s → P r → P s)
    → (calls : List (Services × ℕ × Call)) (db : Db) → HasKeys db
    → All P db.runs
    → All P (history calls db).runs
history-All P new keep calls db keys h =
    Evolves-All P new keep (history-moves calls db keys).evolved h
