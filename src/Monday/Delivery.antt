-- ===== src/Monday/Delivery.antt =====
-- services/monday/outbox.ts: the sweep that delivers what is due. A board that is missing leaves its
-- writes out of the join.
use mac_bennet.Prelude.{
  ℕ, ◌+◌, ◌*◌, String, Bool, true, not, ◌||◌, List, [], ◌∷◌, ◌++◌, Option, none, some, ◌==◌, leb,
  if◌then◌else◌, take, update_rows, find_row,
}
use mac_bennet.Runs.Db.{Text, Actor}
use mac_bennet.Monday.{Board, Write, WriteKind, WriteStatus, Outbox, Client, is_due, max_attempts}
use mac_bennet.Monday.Perform.{Performed, perform_write}

-- BACKOFF_SECONDS, the last of them for every later attempt, by `attempts - 1`.
unfoldable pub backoff_seconds : ℕ → ℕ
backoff_seconds attempts =
    if leb attempts 1
    then 15
    else if leb attempts 2
    then 60
    else if leb attempts 3
    then 300
    else 900

unfoldable pub claim_write : ℕ → Write → Write
claim_write attempts w = record w { status = WriteStatus.sending; attempts = attempts }

unfoldable pub mark_delivered : Option Text → ℕ → Write → Write
mark_delivered message_id at w = record w {
  status = WriteStatus.delivered;
  delivered_at = some at;
  provider_message_id = message_id;
}

unfoldable pub mark_refused : Write → Write
mark_refused w = record w { status = WriteStatus.refused }

unfoldable pub mark_failed : Bool → ℕ → ℕ → Write → Write
mark_failed exhausted attempts now w = record w {
  status = if exhausted then WriteStatus.dead else WriteStatus.failed;
  next_attempt_at = now + backoff_seconds attempts * 1000;
}

unfoldable pub is_exhausted : Bool → ℕ → Bool
is_exhausted retryable attempts = not retryable || leb max_attempts attempts

-- The second update of the row, by what the call gave.
unfoldable pub settle_write : ℕ → ℕ → ℕ → Performed → Write → Write
settle_write attempts now at (Performed.sent message_id) = mark_delivered message_id at
settle_write attempts now at (Performed.refused x) = mark_refused
settle_write attempts now at (Performed.api_error retryable) =
    mark_failed (is_exhausted retryable attempts) attempts now
settle_write attempts now at Performed.threw = mark_failed (is_exhausted true attempts) attempts now

unfoldable pub audit_event_for : WriteKind → String
audit_event_for WriteKind.assign_to_mac = "monday.assigned"
audit_event_for WriteKind.set_status = "monday.status_changed"
audit_event_for WriteKind.post_update = "monday.update_posted"
audit_event_for WriteKind.post_blocker = "monday.blocker_posted"
audit_event_for WriteKind.attach_pull_request = "monday.pull_request_attached"

unfoldable pub log_write : Actor → String → Write → Outbox → Outbox
log_write actor event_type write o = record o {
  audit =
      o.audit
      ++ (record {
        actor = actor;
        event_type = event_type;
        run_id = write.run_id;
        from_status = none;
        to_status = none;
      }
          ∷ []);
}

unfoldable pub log_settled : Actor → ℕ → Performed → Write → Outbox → Outbox
log_settled actor attempts (Performed.sent u) write o =
    log_write actor (audit_event_for write.kind) write o
log_settled actor attempts (Performed.refused x) write o =
    log_write actor "monday.write_refused" write o
log_settled actor attempts (Performed.api_error retryable) write o =
    if is_exhausted retryable attempts then log_write actor "monday.write_failed" write o else o
log_settled actor attempts Performed.threw write o =
    if is_exhausted true attempts then log_write actor "monday.write_failed" write o else o

unfoldable pub update_write : ℕ → (Write → Write) → Outbox → Outbox
update_write id f o = record o { writes = update_rows (λ w. w.id == id) f o.writes }

-- The join of the writes with their boards.
unfoldable pub join_board : Write → Option Board → List (Write × Board) → List (Write × Board)
join_board w none rest = rest
join_board w (some b) rest = (w, b) ∷ rest

unfoldable pub due_rows : ℕ → List Board → List Write → List (Write × Board)
due_rows now boards [] = []
due_rows now boards (w ∷ ws) =
    let rest = due_rows now boards ws in
    if is_due now w then join_board w (find_row (λ b. b.id == w.board_row_id) boards) rest else rest

-- `orderBy(asc(createdAt))`
unfoldable pub insert_row : Write × Board → List (Write × Board) → List (Write × Board)
insert_row x [] = x ∷ []
insert_row x (y ∷ ys) =
    let rest = insert_row x ys in if leb x.0.created_at y.0.created_at then x ∷ y ∷ ys else y ∷ rest

unfoldable pub order_rows : List (Write × Board) → List (Write × Board)
order_rows [] = []
order_rows (x ∷ xs) = insert_row x (order_rows xs)

unfoldable pub due_writes : ℕ → Outbox → List (Write × Board)
due_writes now o = take 50 (order_rows (due_rows now o.boards o.writes))

pub record DeliveryOutcome : Type 0 where
  pub delivered : ℕ
  pub failed : ℕ
  pub refused : ℕ
  pub dead : ℕ

abbrev pub no_deliveries : DeliveryOutcome
no_deliveries = record { delivered = 0; failed = 0; refused = 0; dead = 0 }

unfoldable pub count_failure : Bool → DeliveryOutcome → DeliveryOutcome
count_failure exhausted c =
    if exhausted then record c { dead = c.dead + 1 } else record c { failed = c.failed + 1 }

unfoldable pub count_result : ℕ → Performed → DeliveryOutcome → DeliveryOutcome
count_result attempts (Performed.sent u) c = record c { delivered = c.delivered + 1 }
count_result attempts (Performed.refused x) c = record c { refused = c.refused + 1 }
count_result attempts (Performed.api_error retryable) c =
    count_failure (is_exhausted retryable attempts) c
count_result attempts Performed.threw c = count_failure (is_exhausted true attempts) c

unfoldable pub settle_one : Actor → ℕ → ℕ → Write → Performed → Outbox → Outbox
settle_one actor now at write x o =
    log_settled actor (write.attempts + 1) x write
      (update_write write.id (settle_write (write.attempts + 1) now at x) o)

module _ {W : Type 0} (client : Client W) (configured : Option Text) where
  -- The state after the call, and what the call gave.
  unfoldable pub deliver_one : Actor → ℕ → Write → Board → Outbox → W → Performed × Outbox × W
  deliver_one actor now write board o w =
      let claimed = update_write write.id (claim_write (write.attempts + 1)) o in
      let x = perform_write client configured write board w in
      (x.0, settle_one actor now (client.time x.1) write x.0 claimed, x.1)

  unfoldable pub deliver_each :
      Actor → ℕ → List (Write × Board) → DeliveryOutcome → Outbox → W → DeliveryOutcome × Outbox × W
  deliver_each actor now [] c o w = (c, o, w)
  deliver_each actor now (x ∷ xs) c o w =
      let r = deliver_one actor now x.0 x.1 o w in
      deliver_each actor now xs (count_result (x.0.attempts + 1) r.0 c) r.1 r.2

  unfoldable pub deliver_pending_monday_writes :
      Actor → ℕ → Outbox → W → DeliveryOutcome × Outbox × W
  deliver_pending_monday_writes actor now o w =
      deliver_each actor now (due_writes now o) no_deliveries o w
