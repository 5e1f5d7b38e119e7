-- ===== src/Monday/Queue.antt =====
-- services/monday/outbox.ts: what is queued. A board that is missing leaves its items out of the join.
use mac_bennet.Prelude.{
  ℕ, ◌+◌, Bool, false, not, [], ◌∷◌, ◌++◌, Option, none, some, ◌==◌, if◌then◌else◌, take, find_row,
}
use mac_bennet.Runs.Db.{Text}
use mac_bennet.Monday.{Board, Item, Write, WriteKind, WriteStatus, StatusIntent, Payload, Outbox}

pub record EnqueueInput : Type 0 where
  pub task_id : ℕ
  pub run_id : Option ℕ
  pub kind : WriteKind
  pub payload : Payload

abbrev pub empty_payload : Payload
empty_payload = record {
  intent = none;
  body = none;
  blocked = none;
  needs = none;
  continuing = false;
  url = none;
  title = none;
  summary = none;
}

unfoldable pub is_item_of : ℕ → Item → Bool
is_item_of task_id i = elim i.task_id [ none ↦ false | some t ↦ t == task_id ]

unfoldable pub new_write : EnqueueInput → ℕ → ℕ → Item → Board → Write
new_write input now id item board = record {
  id = id;
  board_row_id = board.id;
  monday_item_id = item.item_id;
  run_id = input.run_id;
  task_id = some input.task_id;
  kind = input.kind;
  payload = input.payload;
  status = WriteStatus.pending;
  attempts = 0;
  next_attempt_at = now;
  provider_message_id = none;
  created_at = now;
  delivered_at = none;
}

unfoldable pub enqueue_linked : EnqueueInput → ℕ → Outbox → Item → Option Board → Outbox
enqueue_linked input now o item none = o
enqueue_linked input now o item (some board) = if not board.is_approved then o else record o {
  writes = o.writes ++ (new_write input now o.next_write_id item board ∷ []);
  next_write_id = o.next_write_id + 1;
}

unfoldable pub enqueue_found : EnqueueInput → ℕ → Outbox → Option Item → Outbox
enqueue_found input now o none = o
enqueue_found input now o (some item) =
    enqueue_linked input now o item (find_row (λ b. b.id == item.board_row_id) o.boards)

-- Nothing is queued for a task without an item or on a board that is not approved.
unfoldable pub enqueue_monday_write : EnqueueInput → ℕ → Outbox → Outbox
enqueue_monday_write input now o =
    enqueue_found input now o (find_row (is_item_of input.task_id) o.items)

unfoldable pub queue_assign_to_mac : ℕ → Option ℕ → ℕ → Outbox → Outbox
queue_assign_to_mac task_id run_id = enqueue_monday_write (record {
  task_id = task_id;
  run_id = run_id;
  kind = WriteKind.assign_to_mac;
  payload = empty_payload;
})

unfoldable pub queue_status : ℕ → Option ℕ → StatusIntent → ℕ → Outbox → Outbox
queue_status task_id run_id intent = enqueue_monday_write (record {
  task_id = task_id;
  run_id = run_id;
  kind = WriteKind.set_status;
  payload = record empty_payload { intent = some intent };
})

unfoldable pub queue_update : ℕ → Option ℕ → Text → ℕ → Outbox → Outbox
queue_update task_id run_id body = enqueue_monday_write (record {
  task_id = task_id;
  run_id = run_id;
  kind = WriteKind.post_update;
  payload = record empty_payload { body = some (take 8000 body) };
})

unfoldable pub queue_blocker : ℕ → Option ℕ → Text → Text → Bool → ℕ → Outbox → Outbox
queue_blocker task_id run_id blocked needs continuing = enqueue_monday_write (record {
  task_id = task_id;
  run_id = run_id;
  kind = WriteKind.post_blocker;
  payload = record empty_payload {
    blocked = some blocked;
    needs = some needs;
    continuing = continuing;
  };
})

unfoldable pub queue_pull_request : ℕ → Option ℕ → Text → Text → Text → ℕ → Outbox → Outbox
queue_pull_request task_id run_id url title summary = enqueue_monday_write (record {
  task_id = task_id;
  run_id = run_id;
  kind = WriteKind.attach_pull_request;
  payload = record empty_payload { url = some url; title = some title; summary = some summary };
})
