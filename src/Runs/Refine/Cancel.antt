-- ===== src/Runs/Refine/Cancel.antt =====
-- Cancellation by request, by force, and by the cutoff sweep.
use mac_bennet.Prelude.{
  ℕ, ◌≡◌, true, false, subst, inl, inr, Bool-cases, refl, List, [], ◌∷◌, Option, none, some,
  is_some,
}
use mac_bennet.Protocol.Enums.{StopReason, includes_status}
use mac_bennet.Runs.Lifecycle.{immediately_cancellable}
use mac_bennet.Runs.Db.{Run, Actor, Db, get_run, system_actor}
use mac_bennet.Runs.Moves.{cancel, flag, force}
use mac_bennet.Runs.Moves.Evolve.{Evolves-trans}
use mac_bennet.Runs.Service.Cancel.{
  cancel_now_patch, cancel_flag_patch, cancel_now, flag_cancel, cancel_in_flight, cancel_any,
  request_cancel, force_patch, free_worker, force_cancel, stop_each,
  stop_runs_past_overnight_cutoff,
}
use mac_bennet.Runs.Refine.{
  Ensures, done, From, HasKeys, from_start, bind_rule, require_run_rule, require_that_rule,
  transition_rule, return_rule, record_event_rule, set_runs_rule, found_same, commit_rule,
}

cancel_now-moves :
    (id : ℕ) (actor : Actor) (reason : StopReason) (now : ℕ) (db : Db) (run : Run)
    → HasKeys db
    → get_run id db.runs ≡ some run
    → includes_status immediately_cancellable run.status ≡ true
    → Ensures (From db.runs) (cancel_now id actor reason now db)
unfolding cancel_now
cancel_now-moves id actor reason now db run keys found early =
    bind_rule (From db.runs) _ _ _
      (transition_rule _ _ _ _ _ (cancel_now_patch actor reason now) _ _
        (λ q e c. cancel now actor reason c (
          subst (λ x. includes_status immediately_cancellable x.status ≡ true)
            (found_same _ _ found e) early))
        (from_start keys))
      λ _ _ h. return_rule _ _ h

none_of_is_some : (o : Option ℕ) → is_some o ≡ false → o ≡ none
none_of_is_some none e = refl
none_of_is_some (some a) e = cc

cancel_in_flight-moves :
    (id : ℕ) (actor : Actor) (reason : StopReason) (now : ℕ) (db : Db) (run : Run)
    → HasKeys db
    → get_run id db.runs ≡ some run
    → Ensures (From db.runs) (cancel_in_flight run id actor reason now db)
unfolding cancel_in_flight flag_cancel
cancel_in_flight-moves id actor reason now db run keys found =
    require_that_rule _ _ _ _ λ in_flight. elim (Bool-cases (is_some run.cancel_requested_at)) [
      | inl e ↦ rw e (return_rule _ _ (from_start keys))
      | inr e ↦ rw e (
          bind_rule (From db.runs) _ _ _
            (set_runs_rule _ _ (cancel_flag_patch actor reason now) _ run (from_start keys) found
              (flag now actor reason in_flight (none_of_is_some run.cancel_requested_at e)))
            λ _ _ h. record_event_rule _ _ _ h)
    ]

pub request_cancel-moves :
    (id : ℕ) (actor : Actor) (reason : StopReason) (now : ℕ) (db : Db)
    → HasKeys db
    → Ensures (From db.runs) (request_cancel id actor reason now db)
unfolding request_cancel cancel_any
request_cancel-moves id actor reason now db keys = require_run_rule _ _ _ λ run found.
    require_that_rule _ _ _ _ λ _.
      elim (Bool-cases (includes_status immediately_cancellable run.status)) [
        | inl e ↦ rw (e, cancel_any) (cancel_now-moves id actor reason now db run keys found e)
        | inr e ↦ rw (e, cancel_any) (cancel_in_flight-moves id actor reason now db run keys found)
      ]

free_worker_rule :
    (rs : List Run) (w : Option ℕ) (db : Db) → From rs db → Ensures (From rs) (free_worker w db)
unfolding free_worker
free_worker_rule rs none db h = done tt h
free_worker_rule rs (some w) db h = done tt (record { evolved = h.evolved; keyed = h.keyed })

pub force_cancel-moves :
    (id : ℕ) (actor : Actor) (now : ℕ) (db : Db)
    → HasKeys db
    → Ensures (From db.runs) (force_cancel id actor now db)
unfolding force_cancel
force_cancel-moves id actor now db keys =
    let R = From db.runs in
    require_run_rule _ _ _ λ run found. require_that_rule _ _ _ _ λ _.
      bind_rule R _ _ _
        (transition_rule _ _ _ _ _ (force_patch actor now) _ _ (λ q _ c. force now actor c)
          (from_start keys))
        λ _ _ h. bind_rule R _ _ _ (free_worker_rule _ _ _ h) λ _ _ k. return_rule _ _ k

pub stop_each-moves :
    (l : List Run) (now : ℕ) (db : Db) → HasKeys db → From db.runs (stop_each l now db)
unfolding stop_each
stop_each-moves [] now db keys = from_start keys
stop_each-moves (r ∷ l) now db keys =
    let first =
      commit_rule _ db keys
        (request_cancel-moves r.id system_actor StopReason.overnight_cutoff now db keys) in
    let rest = stop_each-moves l now _ first.keyed in
    record { evolved = Evolves-trans first.evolved rest.evolved; keyed = rest.keyed }

pub stop_runs_past_overnight_cutoff-moves :
    (now : ℕ) (db : Db) → HasKeys db → From db.runs (stop_runs_past_overnight_cutoff now db)
unfolding stop_runs_past_overnight_cutoff
stop_runs_past_overnight_cutoff-moves now db keys = stop_each-moves _ now db keys
