-- ===== src/Runs/Invariant/Closing.antt =====
-- A run has an end time exactly when its status is terminal, and then also a reason.
use mac_bennet.Prelude.{ℕ, ◌≡◌, ◌⊎◌, inl, inr, refl, true, false, is_some, List, All, ap, ◌∙◌, sym}
use mac_bennet.Protocol.Enums.{is_terminal_run_status}
use mac_bennet.Runs.Db.{Run, Db}
use mac_bennet.Runs.Moves.{Move}
use mac_bennet.Runs.Moves.Fields.{patches}
use mac_bennet.Runs.Moves.Targets.{
  completion_target-terminal, cancel_target-terminal, refuse_target-terminal,
}
use mac_bennet.Runs.Service.{Services}
use mac_bennet.Runs.Service.Calls.{Call, history}
use mac_bennet.Runs.Refine.{HasKeys}
use mac_bennet.Runs.Invariant.{history-All}
use mac_bennet.Runs.Invariant.Status.{can_transition-open}

pub record IsClosed (r : Run) : Type 0 where
  pub ended : is_some r.completed_at ≡ is_terminal_run_status r.status
  pub explained : (is_terminal_run_status r.status ≡ false) ⊎ (is_some r.stop_reason ≡ true)

IsClosed-keep : (r s : Run) → Move r s → IsClosed r → IsClosed s
unfolding patches is_terminal_run_status
IsClosed-keep r s (Move.submit t c) h = record {
  ended = h.ended ∙ can_transition-open r.status _ c;
  explained = inl refl;
}
IsClosed-keep r s (Move.approve t p a b band o g c) h = record {
  ended = h.ended ∙ can_transition-open r.status _ c;
  explained = inl refl;
}
IsClosed-keep r s (Move.queue t d c) h = record {
  ended = h.ended ∙ can_transition-open r.status _ c;
  explained = inl refl;
}
IsClosed-keep r s (Move.reject t c) h = record {
  ended = h.ended ∙ can_transition-open r.status _ c;
  explained = inl refl;
}
IsClosed-keep r s (Move.dispatch t w d c) h = record {
  ended = h.ended ∙ can_transition-open r.status _ c;
  explained = inl refl;
}
IsClosed-keep r s (Move.refuse t reason to e q c) h = record {
  ended = sym (refuse_target-terminal e);
  explained = inr refl;
}
IsClosed-keep r s (Move.progress t i e) h = record { ended = h.ended; explained = h.explained }
IsClosed-keep r s (Move.assess t a) h = record { ended = h.ended; explained = h.explained }
IsClosed-keep r s (Move.complete t sv i c) h = record {
  ended = sym (completion_target-terminal sv r i.outcome);
  explained = inr refl;
}
IsClosed-keep r s (Move.review t c) h = record {
  ended = h.ended ∙ can_transition-open r.status _ c;
  explained = inl refl;
}
IsClosed-keep r s (Move.cancel t actor reason c e) h = record {
  ended = sym (cancel_target-terminal reason);
  explained = inr refl;
}
IsClosed-keep r s (Move.flag t actor reason e f) h = record {
  ended = h.ended;
  explained = inr refl;
}
IsClosed-keep r s (Move.force t actor c) h = record { ended = refl; explained = inr refl }
IsClosed-keep r s (Move.submit_by_policy t c) h = record {
  ended = h.ended ∙ can_transition-open r.status _ c;
  explained = inl refl;
}
IsClosed-keep r s (Move.approve_by_policy t e c) h = record {
  ended = h.ended ∙ can_transition-open r.status _ c;
  explained = inl refl;
}
IsClosed-keep r s (Move.queue_by_policy t c) h = record {
  ended = h.ended ∙ can_transition-open r.status _ c;
  explained = inl refl;
}

-- Let the run keys be in order, and let each run have a completion time exactly when its status
-- is terminal, and then a stop reason. Then this is so after every history of calls.
pub history-IsClosed :
    (calls : List (Services × ℕ × Call)) (db : Db)
    → HasKeys db
    → All IsClosed db.runs
    → All IsClosed (history calls db).runs
unfolding is_terminal_run_status
history-IsClosed calls db keys h =
    history-All IsClosed
      (λ r new. record {
        ended = ap is_some new.not_completed ∙ sym (ap is_terminal_run_status new.drafted);
        explained = inl (ap is_terminal_run_status new.drafted);
      })
      IsClosed-keep calls db keys h
