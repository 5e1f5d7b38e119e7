-- ===== src/Approvals/Decided/Refused.antt =====
-- What a decision that is refused leaves behind.
use mac_bennet.Prelude.{ℕ, ◌≡◌, ◌⊎◌, ◌≢◌, [], ◌∷◌, none, some}
use mac_bennet.Runs.Db.{Actor}
use mac_bennet.Runs.Service.{Services}
use mac_bennet.Approvals.Store.{Request, Store, Answer, ApprovalError, get_request}
use mac_bennet.Approvals.Service.{expire_requests}
use mac_bennet.Approvals.Service.Decide.{DecideInput, find_where, is_open_id}
use mac_bennet.Approvals.Decided.{RunGate}

-- What a refusal leaves: the runs, and the requests but for one that is found to have expired.
abbrev pub IsRefusal : {A : Type 0} → Store → ℕ → ℕ → Answer A → Type 0
IsRefusal s id now (Answer.ok a t) = Unit
IsRefusal s id now (Answer.err e t) =
    (t.db.runs ≡ s.db.runs)
    × ((t.requests ≡ s.requests)
        ⊎ ((e ≡ ApprovalError.expired) × (t.requests ≡ (expire_requests (id ∷ []) now s).requests)))

-- The gates had passed, and the run has been decided, but the request was not pending any more when
-- the update came: others had changed the requests.
pub record IsOvertaken (services : Services) (id : ℕ) (input : DecideInput) (actor : Actor)
    (now : ℕ) (between : Store → Store) (s : Store) (e : ApprovalError) (t : Store) : Type 0 where
  pub before : Request
  pub found : get_request id s.requests ≡ some before
  pub gated : Store
  pub run : RunGate services before.code input actor now s.db input.decision before.run_id gated.db
  pub first : e ≡ ApprovalError.decided_first
  pub nothing_more : t ≡ between gated
  pub not_pending : find_where (is_open_id id) t.requests ≡ none
  pub changed : t.requests ≢ s.requests
