-- ===== src/Monday/Permitted/Kinds.antt =====
-- The calls that a write of each kind becomes.
use mac_bennet.Prelude.{
  ◌≡◌, ◌⊎◌, refl, inl, inr, List, [], ◌∷◌, Option, none, some, All, All-append,
}
use mac_bennet.Runs.Db.{Text}
use mac_bennet.Monday.{Board, Write, WriteKind, ProviderCall, Client, WriteRefusal}
use mac_bennet.Monday.Guard.{truthy, status_label_for}
use mac_bennet.Monday.Perform.{
  Performed, send_void, send_update, send_checked, assign_as, assign_on, status_write,
  status_labelled, link_on, link_after, perform_kind, mac_user_id_for,
}
use mac_bennet.Monday.Permitted.{
  traced, IsPermitted, truthy-some, assert_column_writable-IsWritable, status_label_for-IsLabel,
}

module _ {W : Type 0} (client : Client W) (configured : Option Text) (board : Board)
    (Allowed : ProviderCall → Type 0)
    (allow : (call : ProviderCall) → IsPermitted configured board call → Allowed call) where
  abbrev AllPermitted : List ProviderCall × W → Type 0
  AllPermitted s = All Allowed s.0

  send-AllPermitted :
      (call : ProviderCall) (s : List ProviderCall × W)
      → IsPermitted configured board call
      → AllPermitted s
      → AllPermitted ((traced client).send call s).1
  unfolding traced
  send-AllPermitted call s h a = All-append _ s.0 (call ∷ []) a (allow call h, tt)

  send_checked-AllPermitted :
      (o : Option WriteRefusal) (call : ProviderCall) (s : List ProviderCall × W)
      → (o ≡ none → IsPermitted configured board call)
      → AllPermitted s
      → AllPermitted (send_checked (traced client) o call s).1
  unfolding send_checked send_void
  send_checked-AllPermitted none call s h a = send-AllPermitted call s (h refl) a
  send_checked-AllPermitted (some x) call s h a = a

  assign_on-AllPermitted :
      (write : Write) (o : Option Text) (s : List ProviderCall × W)
      → AllPermitted s
      → AllPermitted (assign_on (traced client) configured write board o s).1
  unfolding assign_on assign_as
  assign_on-AllPermitted write none s a = a
  assign_on-AllPermitted write (some column) s a = identity _ refl
    where
      identity :
          (m : Option Text)
          → truthy (mac_user_id_for configured board) ≡ m
          → AllPermitted (assign_as (traced client) write board column m s).1
      identity none e = a
      identity (some mac) e =
          send_checked-AllPermitted _ _ s
            (λ free. (assert_column_writable-IsWritable board column free, truthy-some _ mac e)) a

  status_write-AllPermitted :
      (write : Write) (s : List ProviderCall × W)
      → AllPermitted s
      → AllPermitted (status_write (traced client) write board s).1
  unfolding status_write status_labelled
  status_write-AllPermitted write s a = labelled _ refl
    where
      labelled :
          (l : WriteRefusal ⊎ Text)
          → status_label_for board write.payload.intent ≡ l
          → AllPermitted (status_labelled (traced client) write board l s).1
      labelled (inl refusal) e = a
      labelled (inr label) e =
          send_checked-AllPermitted _ _ s
            (λ free. (
              assert_column_writable-IsWritable board _ free,
              status_label_for-IsLabel board _ label e,
            ))
            a

  link_on-AllPermitted :
      (u : Option Text) (write : Write) (o : Option Text) (s : List ProviderCall × W)
      → AllPermitted s
      → AllPermitted (link_on (traced client) u write board o s).1
  unfolding link_on
  link_on-AllPermitted u write none s a = a
  link_on-AllPermitted u write (some column) s a =
      send_checked-AllPermitted _ _ s (assert_column_writable-IsWritable board column) a

  link_after-AllPermitted :
      (write : Write) (x : Performed) (s : List ProviderCall × W)
      → AllPermitted s
      → AllPermitted (link_after (traced client) write board x s).1
  unfolding link_after
  link_after-AllPermitted write (Performed.sent u) s a = link_on-AllPermitted u write _ s a
  link_after-AllPermitted write (Performed.refused x) s a = a
  link_after-AllPermitted write (Performed.api_error retryable) s a = a
  link_after-AllPermitted write Performed.threw s a = a

  pub perform_kind-AllPermitted :
      (kind : WriteKind) (write : Write) (s : List ProviderCall × W)
      → AllPermitted s
      → AllPermitted (perform_kind (traced client) configured kind write board s).1
  unfolding perform_kind send_update
  perform_kind-AllPermitted WriteKind.assign_to_mac write s a = assign_on-AllPermitted write _ s a
  perform_kind-AllPermitted WriteKind.set_status write s a = status_write-AllPermitted write s a
  perform_kind-AllPermitted WriteKind.post_update write s a = send-AllPermitted _ s tt a
  perform_kind-AllPermitted WriteKind.post_blocker write s a = send-AllPermitted _ s tt a
  perform_kind-AllPermitted WriteKind.attach_pull_request write s a =
      link_after-AllPermitted write _ _ (send-AllPermitted _ s tt a)
