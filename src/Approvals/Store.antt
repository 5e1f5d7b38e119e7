-- ===== src/Approvals/Store.antt =====
-- The approval_requests table of apps/server/src/db/schema.ts beside the rest of the database, and
-- the answer of an operation. An operation is not one transaction, so an error carries the state
-- that it leaves behind. The names of the project and of the people are left out.
use mac_bennet.Prelude.{
  ℕ, String, Bool, List, [], ◌∷◌, ◌++◌, Option, none, some, ◌==◌, if◌then◌else◌, any,
}
use mac_bennet.Runs.Db.{Db, Text, Error, Outcome, Actor}
use mac_bennet.Approvals.{SubjectKind, RequestState, AuthorityClass}

pub data Risk : Type 0 where
  low medium high : Risk

-- CONVERSATION_CHANNELS of packages/protocol/src/conversation.ts
pub data Channel : Type 0 where
  web teams forja voice email system : Channel

pub record Request : Type 0 where
  pub id : ℕ
  pub code : Text
  pub state : RequestState
  pub subject_kind : SubjectKind
  pub subject_version : ℕ
  pub task_id : ℕ
  pub run_id : Option ℕ
  pub brief_id : Option ℕ
  pub title : Text
  pub detail : Text
  pub recommendation : Text
  pub risk : Risk
  pub authority : AuthorityClass
  pub confidence : Option ℕ
  pub requested_at : ℕ
  pub expires_at : Option ℕ
  pub delivered_channels : List Channel
  pub decided_at : Option ℕ
  pub decided_by_user_id : Option ℕ
  pub decided_via_channel : Option Channel
  pub decided_via_message_id : Option ℕ
  pub decision_notes : Option Text
  pub superseded_by_request_id : Option ℕ
  pub created_at : ℕ
  pub updated_at : ℕ

pub record Store : Type 0 where
  pub db : Db
  pub requests : List Request
  pub next_request_id : ℕ

pub data ApprovalError : Type 0 where
  not_found code_exhausted expired decided_first : ApprovalError
  not_pending : RequestState → ApprovalError
  authority_refused : AuthorityClass → ApprovalError
  run_error : Error → ApprovalError

pub data Answer (A : Type 0) : Type 0 where
  ok : A → Store → Answer A
  err : ApprovalError → Store → Answer A

-- The state after an operation.
unfoldable pub left_by : {A : Type 0} → Answer A → Store
left_by (Answer.ok a s) = s
left_by (Answer.err e s) = s

-- A transaction on the rest of the database, run on its own.
unfoldable pub on_db : {A : Type 0} → Outcome A → Store → Answer A
on_db (Outcome.ok a d) s = Answer.ok a (record s { db = d })
on_db (Outcome.err e l) s =
    Answer.err (ApprovalError.run_error e)
      (record s { db = record s.db { audit = s.db.audit ++ l } })

unfoldable pub get_request : ℕ → List Request → Option Request
get_request id [] = none
get_request id (r ∷ rs) = if r.id == id then some r else get_request id rs

-- `update(approvalRequests).set(...).where(...)`
unfoldable pub update_where : (Request → Bool) → (Request → Request) → List Request → List Request
update_where p f [] = []
update_where p f (r ∷ rs) = (if p r then f r else r) ∷ update_where p f rs

-- `inArray(approvalRequests.id, ids)`
unfoldable pub includes_id : List ℕ → ℕ → Bool
includes_id ids id = any (λ i. i == id) ids

-- `record(tx, ...)` and `recordRejection`
unfoldable pub log_event : Actor → String → Option ℕ → Store → Store
log_event actor event_type run_id s = record s {
  db = record s.db {
    audit =
        s.db.audit
        ++ (record {
          actor = actor;
          event_type = event_type;
          run_id = run_id;
          from_status = none;
          to_status = none;
        }
            ∷ []);
  };
}
