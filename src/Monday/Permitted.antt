-- ===== src/Monday/Permitted.antt =====
-- What a sweep asks of the provider, as the trace of its calls.
pub mod Kinds
pub mod Sweep
use mac_bennet.Prelude.{
  ℕ, ◌+◌, ◌≡◌, ◌⊎◌, ◌≢◌, refl, ap, sym, subst, Bool, true, false, not, ◌&&◌, inl, inr, List, [],
  ◌∷◌, ◌++◌, Option, none, some, ◌==◌, All, All-append, Any, any, arith, Bool-cases, if◌then◌else◌,
  same_text, same_text_iff, same_text_refl, find_row, take,
}
use mac_bennet.Runs.Db.{Text, Actor}
use mac_bennet.Monday.{
  Board, Write, WriteKind, Outbox, ProviderCall, Client, StatusIntent, WriteRefusal, Answer,
}
use mac_bennet.Monday.Guard.{
  truthy, is_column, collect, writable_columns, assert_column_writable, is_done, permitted_label,
  status_label_for,
}
use mac_bennet.Monday.Perform.{
  Performed, send_void, send_update, send_checked, assign_as, assign_on, status_write,
  status_labelled, link_on, link_after, perform_kind, perform_write, mac_user_id_for,
  with_update_id,
}

-- The client with the calls that it has been sent.
unfoldable pub traced : {W : Type 0} → Client W → Client (List ProviderCall × W)
traced client = record {
  send = λ call s. let a = client.send call s.1 in (a.0, (s.0 ++ (call ∷ []), a.1));
  time = λ s. client.time s.1;
}

-- The board is approved, and the column is its status, assignee or pull-request column and neither
-- its due date nor its priority.
pub record IsWritable (board : Board) (column : Text) : Type 0 where
  pub approved : board.is_approved ≡ true
  pub not_due : board.due_date_column_id ≢ some column
  pub not_priority : board.priority_column_id ≢ some column
  pub own_column :
      Any
        (λ o. o ≡ some column)
        (some board.status_column_id ∷ board.assignee_column_id ∷ board.pull_request_column_id ∷ [])

-- The label is the board's for some status, and that is `done` only where Mac may complete.
pub record IsLabel (board : Board) (label : Text) : Type 0 where
  pub intent : StatusIntent
  pub configured : board.status_labels intent ≡ some label
  pub completes : (is_done intent ≡ false) ⊎ (board.may_complete ≡ true)

abbrev pub IsPermitted : Option Text → Board → ProviderCall → Type 0
IsPermitted configured board (ProviderCall.assign_to_mac item on column mac) =
    IsWritable board column × mac_user_id_for configured board ≡ some mac
IsPermitted configured board (ProviderCall.set_status item on column label) =
    IsWritable board column × IsLabel board label
IsPermitted configured board (ProviderCall.post_update item body) = Unit
IsPermitted configured board (ProviderCall.set_pull_request_link item on column url title) =
    IsWritable board column

pub truthy-some : (o : Option Text) (t : Text) → truthy o ≡ some t → o ≡ some t
unfolding truthy
truthy-some none t e = e
truthy-some (some []) t e = absurd (cc)
truthy-some (some (c ∷ u)) t e = e

-- A text of the code is not empty.
truthy_again : (o : Option Text) (t : Text) → truthy o ≡ some t → truthy (some t) ≡ some t
unfolding truthy
truthy_again none t e = absurd (cc)
truthy_again (some []) t e = absurd (cc)
truthy_again (some (c ∷ u)) [] e = absurd (cc)
truthy_again (some (c ∷ u)) (d ∷ t) e = refl

not_column :
    (o : Option Text) (column : Text)
    → truthy (some column) ≡ some column
    → is_column (truthy o) column ≡ false
    → o ≢ some column
not_column o column whole miss same =
    let hit : is_column (truthy o) column ≡ true =
      subst (λ p. is_column (truthy p) column ≡ true) (sym same)
        (subst (λ p. is_column p column ≡ true) (sym whole)
          (unfold is_column in same_text_refl column)) in
    ground arith

any-collect :
    (column : Text) (os : List (Option Text))
    → any (same_text column) (collect os) ≡ true
    → Any (λ o. o ≡ some column) os
unfolding collect
any-collect column [] e = absurd (cc)
any-collect column (none ∷ os) e = inr (any-collect column os e)
any-collect column (some t ∷ os) e = elim (Bool-cases (same_text column t)) [
  | inl hit ↦ inl (ap some (sym ((same_text_iff column t).0 hit)))
  | inr miss ↦ inr (any-collect column os (ground arith))
]

writable_columns-own :
    (board : Board) (column : Text)
    → any (same_text column) (writable_columns board) ≡ true
    → (truthy (some column) ≡ some column)
      × Any
          (λ o. o ≡ some column)
          (some board.status_column_id
            ∷ board.assignee_column_id
            ∷ board.pull_request_column_id
            ∷ [])
unfolding writable_columns
writable_columns-own board column e = elim (any-collect column _ e) [
  | inl h ↦ (truthy_again _ column h, inl (truthy-some _ column h))
  | inr (inl h) ↦ (truthy_again _ column h, inr (inl (truthy-some _ column h)))
  | inr (inr (inl h)) ↦ (truthy_again _ column h, inr (inr (inl (truthy-some _ column h))))
  | inr (inr (inr x)) ↦ elim x [ ]
]

assert_column_writable-none :
    (board : Board) (column : Text)
    → assert_column_writable board column ≡ none
    → (board.is_approved ≡ true)
      × (is_column (truthy board.due_date_column_id) column ≡ false)
      × (is_column (truthy board.priority_column_id) column ≡ false)
      × (any (same_text column) (writable_columns board) ≡ true)
unfolding assert_column_writable
assert_column_writable-none board column e = ground arith

pub assert_column_writable-IsWritable :
    (board : Board) (column : Text)
    → assert_column_writable board column ≡ none
    → IsWritable board column
assert_column_writable-IsWritable board column e =
    let (approved, due, priority, own) = assert_column_writable-none board column e in
    let (whole, own_column) = writable_columns-own board column own in
    record {
      approved = approved;
      not_due = not_column board.due_date_column_id column whole due;
      not_priority = not_column board.priority_column_id column whole priority;
      own_column = own_column;
    }

permitted_label-IsLabel :
    (board : Board) (intent : StatusIntent) (o : Option Text) (label : Text)
    → o ≡ truthy (board.status_labels intent)
    → permitted_label board intent o ≡ inr label
    → IsLabel board label
unfolding permitted_label
permitted_label-IsLabel board intent none label same e = absurd (cc)
permitted_label-IsLabel board intent (some l) label same e = elim (Bool-cases (is_done intent)) [
  | inr other ↦ record {
    intent = intent;
    configured = truthy-some _ label (ground arith);
    completes = inl other;
  }
  | inl done ↦ record {
    intent = intent;
    configured = truthy-some _ label (ground arith);
    completes = inr (ground arith);
  }
]

pub status_label_for-IsLabel :
    (board : Board) (o : Option StatusIntent) (label : Text)
    → status_label_for board o ≡ inr label
    → IsLabel board label
unfolding status_label_for
status_label_for-IsLabel board none label e = absurd (cc)
status_label_for-IsLabel board (some intent) label e =
    permitted_label-IsLabel board intent _ label refl e
