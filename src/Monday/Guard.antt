-- ===== src/Monday/Guard.antt =====
-- services/monday/guard.ts: the columns that may be written and the label of a status.
use mac_bennet.Prelude.{
  Bool, true, false, not, ◌&&◌, List, [], ◌∷◌, Option, none, some, ◌⊎◌, inl, inr, if◌then◌else◌,
  any, same_text,
}
use mac_bennet.Runs.Db.{Text}
use mac_bennet.Monday.{Board, StatusIntent, WriteRefusal}

-- A text that is neither missing nor empty.
unfoldable pub truthy : Option Text → Option Text
truthy none = none
truthy (some []) = none
truthy (some (c ∷ t)) = some (c ∷ t)

unfoldable pub is_column : Option Text → Text → Bool
is_column none column_id = false
is_column (some id) column_id = same_text column_id id

-- `.filter(Boolean)`
unfoldable pub collect : List (Option Text) → List Text
collect [] = []
collect (none ∷ os) = collect os
collect (some t ∷ os) = t ∷ collect os

unfoldable pub writable_columns : Board → List Text
writable_columns board = collect (
    truthy (some board.status_column_id)
    ∷ truthy board.assignee_column_id
    ∷ truthy board.pull_request_column_id
    ∷ [])

-- The refusal that is thrown, if any.
unfoldable pub assert_column_writable : Board → Text → Option WriteRefusal
assert_column_writable board column_id =
    if not board.is_approved
    then some WriteRefusal.board_not_approved
    else if is_column (truthy board.due_date_column_id) column_id
    then some WriteRefusal.column_is_due_date
    else if is_column (truthy board.priority_column_id) column_id
    then some WriteRefusal.column_is_priority
    else if not (any (same_text column_id) (writable_columns board))
    then some WriteRefusal.column_not_writable
    else none

unfoldable pub is_done : StatusIntent → Bool
is_done StatusIntent.done = true
is_done _ = false

unfoldable pub permitted_label : Board → StatusIntent → Option Text → WriteRefusal ⊎ Text
permitted_label board intent none = inl WriteRefusal.status_label_not_configured
permitted_label board intent (some label) =
    if is_done intent && not board.may_complete
    then inl WriteRefusal.completion_not_permitted
    else inr label

-- A payload without an intent has no label.
unfoldable pub status_label_for : Board → Option StatusIntent → WriteRefusal ⊎ Text
status_label_for board none = inl WriteRefusal.status_label_not_configured
status_label_for board (some intent) =
    permitted_label board intent (truthy (board.status_labels intent))
