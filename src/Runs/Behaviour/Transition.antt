-- ===== src/Runs/Behaviour/Transition.antt =====
-- `transition` and the steps of a transaction, evaluated on a row that is found.
use mac_bennet.Prelude.{
  ℕ, ◌≡◌, refl, true, false, String, Bool, List, [], ◌∷◌, ◌++◌, Option, some, none, subst,
  Bool-cases, Option-cases, inl, inr,
}
use mac_bennet.Protocol.Enums.{RunStatus}
use mac_bennet.Runs.Lifecycle.{can_transition}
use mac_bennet.Runs.Db.{
  Run, Actor, AuditEvent, Db, Error, Outcome, Tx, ◌>>=◌, get_run, update_run, require_run,
  record_event, return,
}
use mac_bennet.Runs.Service.Approval.{require_that, or_throw}
use mac_bennet.Runs.Service.{transition, assert_transition, set_runs, moved}

pub transition_event : Run → RunStatus → Actor → String → AuditEvent
transition_event r to actor event_type = record {
  actor = actor;
  event_type = event_type;
  run_id = some r.id;
  from_status = some r.status;
  to_status = some to;
}

module _ {A B : Type 0} where
  pub bind-ok :
      (m : Tx A) (f : A → Tx B) (db : Db) {a : A} {d : Db}
      → m db ≡ Outcome.ok a d
      → (m >>= f) db ≡ f a d
  unfolding ◌>>=◌
  bind-ok m f db e = rw (e, ◌>>=◌) refl

  pub bind-err :
      (m : Tx A) (f : A → Tx B) (db : Db) {x : Error} {l : List AuditEvent}
      → m db ≡ Outcome.err x l
      → (m >>= f) db ≡ Outcome.err x l
  unfolding ◌>>=◌
  bind-err m f db e = rw (e, ◌>>=◌) refl

pub require_run-found :
    (id : ℕ) (db : Db) (r : Run) → get_run id db.runs ≡ some r → require_run id db ≡ Outcome.ok r db
unfolding require_run
require_run-found id db r e = rw (e, require_run) refl

module _ (id : ℕ) (to : RunStatus) (actor : Actor) (event_type : String) (patch : Run → Run)
    (now : ℕ) (db : Db) (r : Run) where
  -- The state after a transition that is permitted.
  abbrev pub after_transition : Db
  after_transition = record db {
    runs = update_run id (moved patch to now) db.runs;
    audit = db.audit ++ (transition_event r to actor event_type ∷ []);
  }

  pub transition-permitted :
      get_run id db.runs ≡ some r
      → can_transition r.status to ≡ true
      → transition id to actor event_type patch now db
        ≡ Outcome.ok (moved patch to now r) after_transition
  unfolding transition assert_transition require_run ◌>>=◌ set_runs record_event return
      transition_event
  transition-permitted e c = rw (e, c, transition, ◌>>=◌) refl

  pub transition-refused :
      get_run id db.runs ≡ some r
      → can_transition r.status to ≡ false
      → transition id to actor event_type patch now db
        ≡ Outcome.err
            (Error.invalid_transition r.status to)
            (transition_event r to actor "run.transition_rejected" ∷ [])
  unfolding transition assert_transition require_run ◌>>=◌ transition_event
  transition-refused e c = rw (e, c, transition, ◌>>=◌) refl

-- What holds of the value and the state if a transaction does not throw.
pub data Returns {A : Type 0} (R : A → Db → Type 0) : Outcome A → Type 0 where
  returned : {a : A} {db : Db} → R a db → Returns R (Outcome.ok a db)
  failed : {e : Error} {l : List AuditEvent} → Returns R (Outcome.err e l)

pub Returns-ok :
    {A : Type 0} {R : A → Db → Type 0} {o : Outcome A} {a : A} {d : Db}
    → Returns R o
    → o ≡ Outcome.ok a d
    → R a d
Returns-ok {R} {a} {d} (returned {a = b} {db} h) e =
    subst (λ o. elim o [ Outcome.ok x y ↦ R x y | Outcome.err x l ↦ Unit {0} ]) e h
Returns-ok failed e = cc

module _ {A B : Type 0} {R : B → Db → Type 0} where
  Returns-cases :
      (Q : A → Db → Type 0) (m : Tx A) (f : A → Tx B) (db : Db) (o : Outcome A)
      → m db ≡ o
      → Returns Q o
      → ((a : A) (d : Db) → Q a d → Returns R (f a d))
      → Returns R ((m >>= f) db)
  unfolding ◌>>=◌
  Returns-cases Q m f db (Outcome.ok a d) e (returned h) k = rw (e, ◌>>=◌) (k a d h)
  Returns-cases Q m f db (Outcome.err x l) e failed k = rw (e, ◌>>=◌) failed

  pub Returns-bind :
      (Q : A → Db → Type 0) (m : Tx A) (f : A → Tx B) (db : Db)
      → Returns Q (m db)
      → ((a : A) (d : Db) → Q a d → Returns R (f a d))
      → Returns R ((m >>= f) db)
  Returns-bind Q m f db h k = Returns-cases Q m f db (m db) refl h k

  pub Returns-equation :
      (m : Tx A) (f : A → Tx B) (db : Db)
      → ((a : A) (d : Db) → m db ≡ Outcome.ok a d → Returns R (f a d))
      → Returns R ((m >>= f) db)
  Returns-equation m f db k = Returns-bind (λ a d. m db ≡ Outcome.ok a d) m f db (itself (m db)) k
    where
      itself : (o : Outcome A) → Returns (λ a d. o ≡ Outcome.ok a d) o
      itself (Outcome.ok a d) = returned refl
      itself (Outcome.err e l) = failed

module _ {B : Type 0} {R : B → Db → Type 0} where
  pub Returns-require_run :
      (id : ℕ) (f : Run → Tx B) (db : Db)
      → ((r : Run) → get_run id db.runs ≡ some r → Returns R (f r db))
      → Returns R ((require_run id >>= f) db)
  unfolding require_run ◌>>=◌
  Returns-require_run id f db k = elim (Option-cases (get_run id db.runs)) [
    | inl e ↦ rw (e, ◌>>=◌) failed
    | inr (r, e) ↦ rw (e, ◌>>=◌) (k r e)
  ]

  pub Returns-require_that :
      (b : Bool) (e : Error) (f : Unit {0} → Tx B) (db : Db)
      → (b ≡ true → Returns R (f tt db))
      → Returns R ((require_that b e >>= f) db)
  unfolding require_that ◌>>=◌
  Returns-require_that true e f db k = k refl
  Returns-require_that false e f db k = failed

  -- A transition of a row that is known, and what follows it.
  pub Returns-transition :
      (id : ℕ) (to : RunStatus) (actor : Actor) (event_type : String) (patch : Run → Run) (now : ℕ)
      (f : Run → Tx B) (db : Db) (r : Run)
      → get_run id db.runs ≡ some r
      → (can_transition r.status to ≡ true
          → Returns R
              (f (moved patch to now r) (after_transition id to actor event_type patch now db r)))
      → Returns R ((transition id to actor event_type patch now >>= f) db)
  Returns-transition id to actor event_type patch now f db r e k =
      elim (Bool-cases (can_transition r.status to)) [
        | inl c ↦
            rw (bind-ok _ f db (transition-permitted id to actor event_type patch now db r e c))
              (k c)
        | inr c ↦
            rw (bind-err _ f db (transition-refused id to actor event_type patch now db r e c))
              failed
      ]

pub Returns-return :
    {A : Type 0} {R : A → Db → Type 0} (a : A) (db : Db) → R a db → Returns R (return a db)
unfolding return
Returns-return a db h = returned h

pub Returns-or_throw :
    {A B : Type 0} {R : B → Db → Type 0} (e : Error) (o : Option A) (f : A → Tx B) (db : Db)
    → ((a : A) → o ≡ some a → Returns R (f a db))
    → Returns R ((or_throw e o >>= f) db)
unfolding or_throw ◌>>=◌
Returns-or_throw e none f db k = failed
Returns-or_throw e (some a) f db k = k a refl

pub Returns-last :
    {R : Run → Db → Type 0} (id : ℕ) (to : RunStatus) (actor : Actor) (event_type : String)
    (patch : Run → Run) (now : ℕ) (db : Db) (r : Run)
    → get_run id db.runs ≡ some r
    → (can_transition r.status to ≡ true
        → R (moved patch to now r) (after_transition id to actor event_type patch now db r))
    → Returns R (transition id to actor event_type patch now db)
Returns-last id to actor event_type patch now db r e k =
    elim (Bool-cases (can_transition r.status to)) [
      | inl c ↦ rw (transition-permitted id to actor event_type patch now db r e c) (returned (k c))
      | inr c ↦ rw (transition-refused id to actor event_type patch now db r e c) failed
    ]
