-- ===== src/Monday.antt =====
-- The outbox of writes to monday.com: apps/server/src/services/monday/outbox.ts and guard.ts. The
-- provider is a client that a call is sent to; `World` is what it keeps, with the time. A payload is
-- its fields, and the texts of errors are left out.
pub mod Guard
pub mod Perform
pub mod Queue
pub mod Delivery
pub mod Calls
pub mod Permitted
pub mod Invariant
mod Examples
use mac_bennet.Prelude.{
  ℕ, Bool, true, false, ◌&&◌, ◌||◌, List, [], ◌∷◌, Option, none, some, ◌==◌, ltb, leb,
}
use mac_bennet.Runs.Db.{Text, AuditEvent}

-- MONDAY_WRITE_KINDS
pub data WriteKind : Type 0 where
  assign_to_mac set_status post_update post_blocker attach_pull_request : WriteKind

-- MONDAY_STATUS_INTENTS
pub data StatusIntent : Type 0 where
  in_progress blocked ready_for_review done : StatusIntent

-- MONDAY_WRITE_STATUSES
pub data WriteStatus : Type 0 where
  pending sending delivered failed refused dead : WriteStatus

pub record Payload : Type 0 where
  pub intent : Option StatusIntent
  pub body : Option Text
  pub blocked : Option Text
  pub needs : Option Text
  pub continuing : Bool
  pub url : Option Text
  pub title : Option Text
  pub summary : Option Text

-- The columns of a board that the outbox reads.
pub record Board : Type 0 where
  pub id : ℕ
  pub board_id : Text
  pub status_column_id : Text
  pub assignee_column_id : Option Text
  pub priority_column_id : Option Text
  pub due_date_column_id : Option Text
  pub pull_request_column_id : Option Text
  pub status_labels : StatusIntent → Option Text
  pub may_complete : Bool
  pub mac_user_id : Option Text
  pub is_approved : Bool

pub record Item : Type 0 where
  pub item_id : Text
  pub board_row_id : ℕ
  pub task_id : Option ℕ

pub record Write : Type 0 where
  pub id : ℕ
  pub board_row_id : ℕ
  pub monday_item_id : Text
  pub run_id : Option ℕ
  pub task_id : Option ℕ
  pub kind : WriteKind
  pub payload : Payload
  pub status : WriteStatus
  pub attempts : ℕ
  pub next_attempt_at : ℕ
  pub provider_message_id : Option Text
  pub created_at : ℕ
  pub delivered_at : Option ℕ

pub record Outbox : Type 0 where
  pub boards : List Board
  pub items : List Item
  pub writes : List Write
  pub next_write_id : ℕ
  pub audit : List AuditEvent

-- The writing methods of `MondayClient`.
pub data ProviderCall : Type 0 where
  assign_to_mac : Text → Text → Text → Text → ProviderCall
  set_status : Text → Text → Text → Text → ProviderCall
  post_update : Text → Text → ProviderCall
  set_pull_request_link : Text → Text → Text → Text → Text → ProviderCall

-- What a method returns, an error of the provider that says if it may be retried, or another error.
pub data Answer : Type 0 where
  ok : Option Text → Answer
  api_error : Bool → Answer
  threw : Answer

pub record Client (World : Type 0) : Type 0 where
  pub send : ProviderCall → World → Answer × World
  pub time : World → ℕ

-- MONDAY_WRITE_REFUSALS
pub data WriteRefusal : Type 0 where
  column_is_due_date column_is_priority column_not_writable board_not_approved : WriteRefusal
  no_assignee_column no_pull_request_column no_mac_identity : WriteRefusal
  status_label_not_configured completion_not_permitted : WriteRefusal

-- `status IN ('pending', 'failed')`
unfoldable pub is_waiting : WriteStatus → Bool
is_waiting WriteStatus.pending = true
is_waiting WriteStatus.failed = true
is_waiting _ = false

abbrev pub max_attempts : ℕ
max_attempts = 5

-- The condition on a write of the query for what is due.
unfoldable pub is_due : ℕ → Write → Bool
is_due now w = (is_waiting w.status && leb w.next_attempt_at now) && ltb w.attempts max_attempts
