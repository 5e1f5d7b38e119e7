-- ===== src/Monday/Perform.antt =====
-- services/monday/outbox.ts: a queued intent as calls of the provider.
use mac_bennet.Prelude.{
  String, Bool, List, [], ◌∷◌, ◌++◌, Option, none, some, ◌⊎◌, inl, inr, if◌then◌else◌, codes, take,
}
use mac_bennet.Runs.Db.{Text}
use mac_bennet.Monday.{Board, Write, WriteKind, Payload, ProviderCall, Answer, Client, WriteRefusal}
use mac_bennet.Monday.Guard.{truthy, assert_column_writable, status_label_for}

-- What `performWrite` returns or throws.
pub data Performed : Type 0 where
  sent : Option Text → Performed
  refused : WriteRefusal → Performed
  api_error : Bool → Performed
  threw : Performed

unfoldable pub or_else : Option Text → String → Text
or_else none s = codes s
or_else (some t) s = t

unfoldable pub join_lines : List Text → Text
join_lines [] = []
join_lines (t ∷ []) = t
join_lines (t ∷ u ∷ ts) = t ++ (10 ∷ join_lines (u ∷ ts))

unfoldable pub render_blocker : Payload → Text
render_blocker p = join_lines (
    codes "**Blocked**"
    ∷ []
    ∷ or_else p.blocked "Something is blocked."
    ∷ []
    ∷ (codes "**What Mac needs:** " ++ or_else p.needs "A decision from a human.")
    ∷ []
    ∷ (if p.continuing
        then codes
            "_Mac has moved on to other eligible work and will not touch this again tonight._"
        else codes "_This was the last eligible work; Mac is idle until someone unblocks it._")
    ∷ [])

unfoldable pub render_pull_request : Payload → Text
render_pull_request p = take 8000 (
    codes "**Ready for review** — "
    ++ (or_else p.title "Pull request"
        ++ (10 ∷ 10 ∷ (or_else p.url "" ++ (10 ∷ 10 ∷ or_else p.summary "")))))

-- Of a method that returns nothing, and of `postUpdate`.
unfoldable pub void_result : Answer → Performed
void_result (Answer.ok u) = Performed.sent none
void_result (Answer.api_error retryable) = Performed.api_error retryable
void_result Answer.threw = Performed.threw

unfoldable pub update_result : Answer → Performed
update_result (Answer.ok u) = Performed.sent u
update_result (Answer.api_error retryable) = Performed.api_error retryable
update_result Answer.threw = Performed.threw

unfoldable pub with_update_id : Option Text → Performed → Performed
with_update_id u (Performed.sent v) = Performed.sent u
with_update_id u (Performed.refused x) = Performed.refused x
with_update_id u (Performed.api_error retryable) = Performed.api_error retryable
with_update_id u Performed.threw = Performed.threw

-- `macUserIdFor`, where the configuration is an argument.
unfoldable pub mac_user_id_for : Option Text → Board → Option Text
mac_user_id_for configured board = elim board.mac_user_id [ none ↦ configured | some id ↦ some id ]

module _ {W : Type 0} (client : Client W) where
  unfoldable pub send_void : ProviderCall → W → Performed × W
  send_void call w = let a = client.send call w in (void_result a.0, a.1)

  unfoldable pub send_update : ProviderCall → W → Performed × W
  send_update call w = let a = client.send call w in (update_result a.0, a.1)

  -- The column guard, and then the call.
  unfoldable pub send_checked : Option WriteRefusal → ProviderCall → W → Performed × W
  send_checked (some refusal) call w = (Performed.refused refusal, w)
  send_checked none call w = send_void call w

  unfoldable pub assign_as : Write → Board → Text → Option Text → W → Performed × W
  assign_as write board column none w = (Performed.refused WriteRefusal.no_mac_identity, w)
  assign_as write board column (some mac) w =
      send_checked (assert_column_writable board column)
        (ProviderCall.assign_to_mac write.monday_item_id board.board_id column mac) w

  unfoldable pub assign_on : Option Text → Write → Board → Option Text → W → Performed × W
  assign_on configured write board none w = (Performed.refused WriteRefusal.no_assignee_column, w)
  assign_on configured write board (some column) w =
      assign_as write board column (truthy (mac_user_id_for configured board)) w

  unfoldable pub status_labelled : Write → Board → WriteRefusal ⊎ Text → W → Performed × W
  status_labelled write board (inl refusal) w = (Performed.refused refusal, w)
  status_labelled write board (inr label) w =
      send_checked (assert_column_writable board board.status_column_id)
        (ProviderCall.set_status write.monday_item_id board.board_id board.status_column_id label) w

  unfoldable pub status_write : Write → Board → W → Performed × W
  status_write write board w =
      status_labelled write board (status_label_for board write.payload.intent) w

  unfoldable pub link_on : Option Text → Write → Board → Option Text → W → Performed × W
  link_on u write board none w = (Performed.sent u, w)
  link_on u write board (some column) w =
      let linked =
        send_checked (assert_column_writable board column)
          (ProviderCall.set_pull_request_link write.monday_item_id board.board_id column
            (or_else write.payload.url "") (or_else write.payload.title "Pull request"))
          w in
      (with_update_id u linked.0, linked.1)

  unfoldable pub link_after : Write → Board → Performed → W → Performed × W
  link_after write board (Performed.sent u) w =
      link_on u write board (truthy board.pull_request_column_id) w
  link_after write board x w = (x, w)

  unfoldable pub perform_kind : Option Text → WriteKind → Write → Board → W → Performed × W
  perform_kind configured WriteKind.assign_to_mac write board w =
      assign_on configured write board (truthy board.assignee_column_id) w
  perform_kind configured WriteKind.set_status write board w = status_write write board w
  perform_kind configured WriteKind.post_update write board w =
      send_update (ProviderCall.post_update write.monday_item_id (or_else write.payload.body "")) w
  perform_kind configured WriteKind.post_blocker write board w =
      send_update (ProviderCall.post_update write.monday_item_id (render_blocker write.payload)) w
  perform_kind configured WriteKind.attach_pull_request write board w =
      let posted =
        send_update
          (ProviderCall.post_update write.monday_item_id (render_pull_request write.payload)) w in
      link_after write board posted.0 posted.1

  unfoldable pub perform_write : Option Text → Write → Board → W → Performed × W
  perform_write configured write board w = perform_kind configured write.kind write board w
