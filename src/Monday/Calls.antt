-- ===== src/Monday/Calls.antt =====
-- The use of the outbox as calls, and histories of calls. A board may be changed between them in any
-- way, and a sweep may be cut off while it waits for the provider.
use mac_bennet.Prelude.{ℕ, zero, suc, ◌+◌, List, [], ◌∷◌, Option}
use mac_bennet.Runs.Db.{Text, Actor}
use mac_bennet.Monday.{Board, Write, Outbox, Client}
use mac_bennet.Monday.Queue.{EnqueueInput, enqueue_monday_write}
use mac_bennet.Monday.Delivery.{
  due_writes, update_write, claim_write, deliver_one, deliver_pending_monday_writes,
}

pub data Call : Type 0 where
  enqueues : EnqueueInput → Call
  delivers : Actor → Call
  dies : ℕ → Actor → Call
  edits_boards : List Board → Call

module _ {W : Type 0} (client : Client W) (configured : Option Text) where
  -- The process dies after `n` writes, when the next has been claimed and its call
  -- is not made.
  unfoldable pub deliver_until : ℕ → Actor → ℕ → List (Write × Board) → Outbox → W → Outbox × W
  deliver_until n actor now [] o w = (o, w)
  deliver_until zero actor now (x ∷ xs) o w =
      (update_write x.0.id (claim_write (x.0.attempts + 1)) o, w)
  deliver_until (suc n) actor now (x ∷ xs) o w =
      let r = deliver_one client configured actor now x.0 x.1 o w in
      deliver_until n actor now xs r.1 r.2

  unfoldable pub step : ℕ → Call → Outbox → W → Outbox × W
  step now (Call.enqueues input) o w = (enqueue_monday_write input now o, w)
  step now (Call.delivers actor) o w =
      let r = deliver_pending_monday_writes client configured actor now o w in (r.1, r.2)
  step now (Call.dies n actor) o w = deliver_until n actor now (due_writes now o) o w
  step now (Call.edits_boards boards) o w = (record o { boards = boards }, w)

  unfoldable pub history : List (ℕ × Call) → Outbox → W → Outbox × W
  history [] o w = (o, w)
  history ((now, call) ∷ rest) o w = let r = step now call o w in history rest r.0 r.1
