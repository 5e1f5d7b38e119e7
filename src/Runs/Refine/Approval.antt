-- ===== src/Runs/Refine/Approval.antt =====
-- Creation, submission, approval, rejection, and the night shift's approval by policy.
use mac_bennet.Protocol.Jobs.{JobSpec}
use mac_bennet.Prelude.{
  subst, sym, ℕ, ◌⊎◌, inl, inr, ◌≡◌, refl, Option, none, some, Bool, arith, List, [], ◌∷◌, ◌++◌,
  not, is_some, ◌||◌, ◌&&◌,
}
use mac_bennet.Protocol.Enums.{RunStatus}
use mac_bennet.Runs.Confidence.{
  ApprovalCode, ConfidenceBand, parse_confidence, check_approval_confidence, ApprovalCheck,
}
use mac_bennet.Runs.Db.{
  Run, Approval, Actor, Db, Text, Outcome, Tx, ◌>>=◌, get_run, get_task, system_actor,
}
use mac_bennet.Runs.Moves.{
  IsNew, submit, approve, queue, reject, submit_by_policy, approve_by_policy, queue_by_policy,
}
use mac_bennet.Runs.Db.Rows.{IsKeyed-append, get_run-append}
use mac_bennet.Runs.Moves.Evolve.{insert}
use mac_bennet.Runs.Service.{Services}
use mac_bennet.Runs.Service.Approval.{
  CreateRunRequest, create_run, submit_for_approval, approve_run, reject_run, submit_patch,
  insert_run, insert_approval, approve_patch, queue_patch, reject_patch, confidence_gate, has_text,
  new_run,
}
use mac_bennet.Runs.Service.Night.{
  NightSelection, needs_repository, night_run, start_with_brief, start_in_context,
  start_selected_task,
}
use mac_bennet.Runs.Refine.{
  Ensures, done, threw, From, HasKeys, from_start, bind_rule, require_run_rule, require_task_rule,
  require_that_rule, or_throw_rule, transition_rule, transition_found_rule, return_rule,
  record_event_rule, found_same, if_outcome_rule, option_rule,
}

-- A new row is found under its key, by all that follows in the transaction.
insert_run_rule :
    {B : Type 0} {R : Db → Type 0} (rs : List Run) (row : ℕ → Run) (f : Run → Tx B) (db : Db)
    → IsNew (row db.next_run_id)
    → (row db.next_run_id).id ≡ db.next_run_id
    → From rs db
    → ((d : Db)
        → From rs d
        → get_run (row db.next_run_id).id d.runs ≡ some (row db.next_run_id)
        → Ensures R (f (row db.next_run_id) d))
    → Ensures R ((insert_run row >>= f) db)
unfolding insert_run ◌>>=◌
insert_run_rule rs row f db n e h k =
    k _
      (record {
        evolved = insert _ h.evolved n;
        keyed = IsKeyed-append 0 db.runs db.next_run_id (row db.next_run_id) h.keyed e;
      })
      (subst (λ i. get_run i (db.runs ++ (row db.next_run_id ∷ [])) ≡ some (row db.next_run_id))
        (sym e) (get_run-append 0 db.runs db.next_run_id (row db.next_run_id) h.keyed e))

insert_approval_rule :
    (rs : List Run) (a : Approval) (db : Db) → From rs db → Ensures (From rs) (insert_approval a db)
unfolding insert_approval
insert_approval_rule rs a db h = done tt (record { evolved = h.evolved; keyed = h.keyed })

-- The same, with a row that is found before and after.
insert_approval_kept :
    (rs : List Run) (a : Approval) (db : Db) (row : Run)
    → From rs db
    → get_run row.id db.runs ≡ some row
    → Ensures (λ x. From rs x × (get_run row.id x.runs ≡ some row)) (insert_approval a db)
unfolding insert_approval
insert_approval_kept rs a db row h e = done tt (record { evolved = h.evolved; keyed = h.keyed }, e)

new_run-IsNew :
    (input : CreateRunRequest) (job : JobSpec) (context : Option ℕ) (actor : Actor) (now id : ℕ)
    → IsNew (new_run input job context actor now id)
unfolding new_run
new_run-IsNew input job context actor now id = ground arith

pub create_run-moves :
    (s : Services) (input : CreateRunRequest) (actor : Actor) (now : ℕ) (db : Db)
    → HasKeys db
    → Ensures (From db.runs) (create_run s input actor now db)
unfolding create_run new_run
create_run-moves s input actor now db keys =
    let R = From db.runs in
    or_throw_rule _ _ _ _ λ job _. or_throw_rule _ _ _ _ λ context _.
      require_task_rule _ _ _ λ task. require_that_rule _ _ _ _ λ _.
        insert_run_rule _ _ _ _ (new_run-IsNew input job context actor now _) refl (from_start keys)
          λ _ h _. bind_rule R _ _ _ (record_event_rule _ _ _ h) λ _ _ k. return_rule _ _ k

pub submit_for_approval-moves :
    (id : ℕ) (actor : Actor) (now : ℕ) (db : Db)
    → HasKeys db
    → Ensures (From db.runs) (submit_for_approval id actor now db)
unfolding submit_for_approval
submit_for_approval-moves id actor now db keys =
    transition_rule _ _ _ _ _ submit_patch _ _ (λ r _ c. submit now c) (from_start keys)

pub approval_check_cases :
    (c : ApprovalCheck)
    → ((band : ConfidenceBand) × (overridden : Bool) × (c ≡ ApprovalCheck.ok band overridden))
      ⊎ ((code : ApprovalCode) × (band : ConfidenceBand) × (c ≡ ApprovalCheck.refused code band))
approval_check_cases (ApprovalCheck.ok band overridden) = inl (band, overridden, refl)
approval_check_cases (ApprovalCheck.refused code band) = inr (code, band, refl)

-- The gate lets a run through only with a positive answer of the confidence check.
confidence_gate_rule :
    {B : Type 0} {R : Db → Type 0} (s : Services) (r : Run) (notes : Option Text)
    (acknowledge : Bool) (actor : Actor) (f : Bool → Tx B) (db : Db)
    → ((band : ConfidenceBand) (overridden : Bool)
        → check_approval_confidence
            (parse_confidence r.confidence)
            s.settings.policy
            acknowledge
            (has_text notes)
          ≡ ApprovalCheck.ok band overridden
        → Ensures R (f overridden db))
    → Ensures R ((confidence_gate s r notes acknowledge actor >>= f) db)
unfolding confidence_gate ◌>>=◌
confidence_gate_rule s r notes acknowledge actor f db k =
    elim (approval_check_cases (
      check_approval_confidence (parse_confidence r.confidence) s.settings.policy acknowledge
        (has_text notes))) [
          | inl (band, overridden, e) ↦ rw (e, confidence_gate, ◌>>=◌) (k band overridden e)
          | inr (code, band, e) ↦ rw (e, confidence_gate, ◌>>=◌) (threw _ _)
        ]

pub approve_run-moves :
    (s : Services) (id : ℕ) (notes : Option Text) (acknowledge : Bool) (actor : Actor) (now : ℕ)
    (db : Db)
    → HasKeys db
    → Ensures (From db.runs) (approve_run s id notes acknowledge actor now db)
unfolding approve_run
approve_run-moves s id notes acknowledge actor now db keys =
    let R = From db.runs in
    require_run_rule _ _ db λ r found.
      confidence_gate_rule s r notes acknowledge actor _ db λ band overridden granted.
        or_throw_rule _ _ _ _ λ job _.
          bind_rule R _ _ _
            (transition_rule _ _ _ _ _ approve_patch _ _
              (λ q e c.
                approve now _ acknowledge (has_text notes) band overridden
                  (rw (found_same id db.runs found e) at granted) c)
              (from_start keys))
            λ _ _ h.
              bind_rule R _ _ _ (insert_approval_rule _ _ _ h)
                λ _ _ k. transition_rule _ _ _ _ _ (queue_patch _) _ _ (λ q _ c. queue now _ c) k

pub reject_run-moves :
    (id : ℕ) (notes : Text) (actor : Actor) (now : ℕ) (db : Db)
    → HasKeys db
    → Ensures (From db.runs) (reject_run id notes actor now db)
unfolding reject_run
reject_run-moves id notes actor now db keys =
    let R = From db.runs in
    require_run_rule _ _ _ λ r _.
      bind_rule R _ _ _
        (transition_rule _ _ _ _ _ reject_patch _ _ (λ q _ c. reject now c) (from_start keys))
        λ _ _ h. bind_rule R _ _ _ (insert_approval_rule _ _ _ h) λ _ _ k. return_rule _ _ k

night_run-IsNew :
    (n : NightSelection) (context confidence : Option ℕ) (now id : ℕ)
    → IsNew (night_run n context confidence now id)
unfolding night_run
night_run-IsNew n context confidence now id = ground arith

start_with_brief-moves :
    (s : Services) (n : NightSelection) (context confidence : Option ℕ) (now : ℕ) (db : Db)
    → HasKeys db
    → Ensures (From db.runs) (start_with_brief s n context confidence now db)
unfolding start_with_brief night_run
start_with_brief-moves s n context confidence now db keys =
    let R = From db.runs in
    let row : Run = night_run n context confidence now db.next_run_id in
    insert_run_rule db.runs (night_run n context confidence now) _ db
      (night_run-IsNew n context confidence now _) refl (from_start keys)
      λ d h found.
        bind_rule (λ x. From db.runs x × (get_run row.id x.runs ≡ some row)) _ _ _
          (insert_approval_kept _ _ _ row h found)
          λ _ _ a.
            bind_rule _ _ _ _
              (transition_found_rule db.runs row.id RunStatus.ready_for_approval system_actor _
                (λ r. r) now _ row a.1 (submit_by_policy now) a.0)
              λ _ _ b.
                bind_rule _ _ _ _
                  (transition_found_rule db.runs row.id RunStatus.approved system_actor _ (λ r. r)
                    now _ _ b.1 (approve_by_policy now refl) b.0)
                  λ _ _ c. bind_rule R _ _ _ (record_event_rule _ _ _ c.0) λ _ _ e.
                    bind_rule R _ _ _
                      (transition_rule _ _ _ _ _ (λ r. r) _ _ (λ q _ t. queue_by_policy now t) e)
                      λ _ _ g. return_rule _ _ g

start_in_context-moves :
    (s : Services) (n : NightSelection) (context : Option ℕ) (now : ℕ) (db : Db)
    → HasKeys db
    → Ensures (From db.runs) (start_in_context s n now context db)
unfolding start_in_context
start_in_context-moves s n context now db keys =
    let stop =
      not (is_some (get_task n.task_id db.tasks))
      || (needs_repository n && not (is_some n.repository)) in
    let go = elim n.brief_confidence as (λ _. Outcome (Option ℕ)) [
      | none ↦ Outcome.ok none db
      | some confidence ↦ start_with_brief s n context confidence now db
    ] in
    if_outcome_rule stop (Outcome.ok none db) go (λ _. done none (from_start keys))
      λ _.
        option_rule n.brief_confidence _ (λ c. start_with_brief s n context c now db)
          (done none (from_start keys))
          λ confidence _. start_with_brief-moves s n context confidence now db keys

pub start_selected_task-moves :
    (s : Services) (n : NightSelection) (now : ℕ) (db : Db)
    → HasKeys db
    → Ensures (From db.runs) (start_selected_task s n now db)
unfolding start_selected_task
start_selected_task-moves s n now db keys =
    or_throw_rule _ _ _ _ λ context _. start_in_context-moves s n context now db keys
