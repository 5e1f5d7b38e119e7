-- ===== src/Monday/Examples.antt =====
-- An outbox with one board, a write that is due and one that failed before, and the theorems there.
use mac_bennet.Prelude.{
  ℕ, ◌+◌, ◌≡◌, refl, true, false, List, [], ◌∷◌, none, some, All, arith, codes, length, map,
  Extends, update_rows, find_row, same_text,
}
use mac_bennet.Runs.Db.{system_actor}
use mac_bennet.Monday.{
  Board, Write, WriteKind, WriteStatus, StatusIntent, Outbox, Client, Answer, ProviderCall,
  is_waiting, is_due,
}
use mac_bennet.Monday.Guard.{
  truthy, is_column, collect, writable_columns, assert_column_writable, is_done, permitted_label,
  status_label_for,
}
use mac_bennet.Monday.Perform.{
  or_else, void_result, update_result, send_void, send_update, send_checked, status_labelled,
  status_write, perform_kind, perform_write,
}
use mac_bennet.Monday.Queue.{empty_payload}
use mac_bennet.Monday.Delivery.{
  backoff_seconds, claim_write, count_result, deliver_each, deliver_one, is_exhausted, log_settled,
  log_write, mark_delivered, mark_failed, mark_refused, settle_one, settle_write, update_write,
  due_writes, due_rows, order_rows, insert_row, join_board, deliver_pending_monday_writes,
}
use mac_bennet.Monday.Calls.{Call, history, step, deliver_until}
use mac_bennet.Monday.Permitted.{traced}
use mac_bennet.Monday.Permitted.Sweep.{IsAllowed, deliver_pending_monday_writes-IsAllowed}
use mac_bennet.Monday.Invariant.{IsKept, IsLater, same_id, is_sound, is_sound_as}
use mac_bennet.Monday.Invariant.Calls.{history-IsKept, history-Extends}
use mac_bennet.Monday.Invariant.Tried.{tried, row_of}
use mac_bennet.Monday.Invariant.Clears.{deliver_pending_monday_writes-clears}

-- The provider: it counts its calls, accepts updates and answers others with an error.
abbrev provider : Client ℕ
provider = record { send = λ call n. (answer call, n + 1); time = λ n. 5000 + n }
  where
    answer : ProviderCall → Answer
    answer (ProviderCall.post_update item body) = Answer.ok (some (codes "u1"))
    answer _ = Answer.api_error true

abbrev board : Board
board = record {
  id = 1;
  board_id = codes "77";
  status_column_id = codes "status";
  assignee_column_id = some (codes "people");
  priority_column_id = some (codes "priority");
  due_date_column_id = some (codes "date");
  pull_request_column_id = none;
  status_labels = λ i. some (codes "Working on it");
  may_complete = false;
  mac_user_id = none;
  is_approved = true;
}

abbrev write : ℕ → WriteKind → WriteStatus → ℕ → ℕ → Write
write id kind status attempts next_attempt_at = record {
  id = id;
  board_row_id = 1;
  monday_item_id = codes "9";
  run_id = some 4;
  task_id = some 3;
  kind = kind;
  payload = record empty_payload {
    intent = some StatusIntent.in_progress;
    body = some (codes "Hi");
  };
  status = status;
  attempts = attempts;
  next_attempt_at = next_attempt_at;
  provider_message_id = none;
  created_at = 100 + id;
  delivered_at = none;
}

abbrev outbox : Outbox
outbox = record {
  boards = board ∷ [];
  items = record { item_id = codes "9"; board_row_id = 1; task_id = some 3 } ∷ [];
  writes =
      write 0 WriteKind.set_status WriteStatus.failed 4 900
      ∷ write 1 WriteKind.post_update WriteStatus.pending 0 200
      ∷ [];
  next_write_id = 2;
  audit = [];
}

outbox-IsKept : IsKept 2 outbox.writes
unfolding is_sound is_sound_as same_id
outbox-IsKept = record {
  keys = (omega arith, (omega arith, tt));
  single = ((refl, tt), (tt, tt));
  sound = (refl, (refl, tt));
}

abbrev calls : List (ℕ × Call)
calls =
    (1000, Call.dies 1 system_actor)
    ∷ (2000, Call.edits_boards (record board { is_approved = false } ∷ []))
    ∷ (3000, Call.delivers system_actor)
    ∷ []

deliver_pending_monday_writes-IsAllowed_example :
    All
      (IsAllowed none (board ∷ []))
      (deliver_pending_monday_writes (traced provider) none system_actor 1000 outbox ([], 0)).2.0
deliver_pending_monday_writes-IsAllowed_example =
    deliver_pending_monday_writes-IsAllowed provider none system_actor 1000 outbox 0

history-IsKept_example :
    let p = (history provider none calls outbox 0).0 in IsKept p.next_write_id p.writes
history-IsKept_example = history-IsKept provider none calls outbox 0 outbox-IsKept

history-Extends_example :
    Extends IsLater outbox.writes (history provider none calls outbox 0).0.writes
history-Extends_example = history-Extends provider none calls outbox 0 outbox-IsKept

two_due : length (due_rows 1000 outbox.boards outbox.writes) ≡ 2
unfolding due_rows join_board is_due is_waiting find_row
two_due = refl

deliver_pending_monday_writes-clears_example :
    let end = deliver_pending_monday_writes provider none system_actor 1000 outbox 0 in
    let each =
      tried provider none 1000 (order_rows (due_rows 1000 outbox.boards outbox.writes)) 0 in
    (end.2 ≡ each.1)
    × All (λ r. row_of r.id end.1.writes ≡ some r) each.0
    × (due_writes 1000 end.1 ≡ [])
deliver_pending_monday_writes-clears_example =
    deliver_pending_monday_writes-clears provider none system_actor 1000 outbox 0
      outbox-IsKept.single (omega (arith, two_due))

-- The first write is dead after its fifth attempt; the second stays as it was claimed.
calls_statuses :
    map (λ w. w.status) (history provider none calls outbox 0).0.writes
    ≡ WriteStatus.dead ∷ WriteStatus.sending ∷ []
unfolding history step deliver_until deliver_one settle_one update_write claim_write settle_write
    mark_failed mark_delivered mark_refused is_exhausted log_settled log_write due_writes due_rows
    join_board is_due is_waiting find_row order_rows insert_row update_rows
    deliver_pending_monday_writes deliver_each count_result perform_write perform_kind status_write
    status_labelled status_label_for permitted_label truthy is_done send_checked send_void
    void_result assert_column_writable is_column writable_columns collect same_text backoff_seconds
calls_statuses = refl

-- A board whose approval was revoked after the writes were queued: its status is not set, and the
-- update is posted all the same.
abbrev revoked_outbox : Outbox
revoked_outbox = record outbox { boards = record board { is_approved = false } ∷ [] }

revoked_calls :
    (deliver_pending_monday_writes
      (traced provider)
      none
      system_actor
      1000
      revoked_outbox
      ([], 0)).2.0
    ≡ ProviderCall.post_update (codes "9") (codes "Hi") ∷ []
unfolding deliver_pending_monday_writes deliver_each deliver_one perform_write perform_kind
    status_write status_labelled status_label_for permitted_label truthy is_done send_checked
    assert_column_writable send_update update_result or_else due_writes due_rows join_board is_due
    is_waiting find_row order_rows insert_row traced
revoked_calls = refl
