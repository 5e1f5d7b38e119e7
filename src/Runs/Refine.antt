-- ===== src/Runs/Refine.antt =====
-- The operations refine the abstract machine: whatever an operation writes to the runs table is a
-- sequence of moves. This file has the rules for transactions; the children apply them.
pub mod Approval
pub mod Selection
pub mod Dispatch
pub mod Progress
pub mod Cancel
pub mod Calls
use mac_bennet.Prelude.{
  ℕ, ◌≡◌, ◌∙◌, refl, inl, inr, String, Bool, true, false, List, Option, none, some, arith,
  Bool-cases, Option-cases, if◌then◌else◌,
}
use mac_bennet.Protocol.Enums.{RunStatus}
use mac_bennet.Runs.Lifecycle.{can_transition}
use mac_bennet.Runs.Db.{
  Run, Task, Actor, AuditEvent, Db, Error, Outcome, Tx, ◌>>=◌, ◌>>◌, return, get_run, get_task,
  update_run, require_run, record_event, commit,
}
use mac_bennet.Runs.Moves.{Move}
use mac_bennet.Runs.Moves.Fields.{Move-fields}
use mac_bennet.Runs.Db.Rows.{IsKeyed, IsKeyed-update_run, get_run-id, get_run-update_run}
use mac_bennet.Runs.Moves.Evolve.{Evolves, Evolves-trans, here, change}
use mac_bennet.Runs.Service.{moved, transition, set_runs, assert_transition}
use mac_bennet.Runs.Service.Approval.{require_that, or_throw, require_task}

-- What holds of the state after a transaction that does not throw.
pub data Ensures {A : Type 0} (R : Db → Type 0) : Outcome A → Type 0 where
  done : (a : A) {db : Db} → R db → Ensures R (Outcome.ok a db)
  threw : (e : Error) (l : List AuditEvent) → Ensures R (Outcome.err e l)

-- The keys of the runs table rise, and the next one is free.
abbrev pub HasKeys : Db → Type 0
HasKeys db = IsKeyed 0 db.runs db.next_run_id

-- The runs have moved on from `rs`, and the keys are in order.
pub record From (rs : List Run) (db : Db) : Type 0 where
  pub evolved : Evolves rs db.runs
  pub keyed : HasKeys db

abbrev pub from_start : {db : Db} → HasKeys db → From db.runs db
from_start h = record { evolved = here; keyed = h }

pub From-trans : {rs : List Run} {db d : Db} → From rs db → From db.runs d → From rs d
From-trans h k = record { evolved = Evolves-trans h.evolved k.evolved; keyed = k.keyed }

-- One more move, of the row that was found.
pub change_from :
    (rs : List Run) (id : ℕ) (f : Run → Run) (db d : Db) (r : Run)
    → From rs db
    → get_run id db.runs ≡ some r
    → Move r (f r)
    → d.runs ≡ update_run id f db.runs
    → d.next_run_id ≡ db.next_run_id
    → From rs d
change_from rs id f db d r h e m same next = record {
  evolved = rw same (change id f r h.evolved e m);
  keyed =
      rw (same, next)
        (IsKeyed-update_run 0 id f db.runs db.next_run_id r h.keyed e
          ((Move-fields m).0 ∙ get_run-id id db.runs r e));
}

module _ {A B : Type 0} {R : Db → Type 0} where
  bind_cases :
      (Q : Db → Type 0) (m : Tx A) (f : A → Tx B) (db : Db) (o : Outcome A)
      → m db ≡ o
      → Ensures Q o
      → ((a : A) (d : Db) → Q d → Ensures R (f a d))
      → Ensures R ((m >>= f) db)
  unfolding ◌>>=◌
  bind_cases Q m f db (Outcome.ok a d) e (done b h) k = rw (e, ◌>>=◌) (k a d h)
  bind_cases Q m f db (Outcome.err x l) e h k = rw (e, ◌>>=◌) (threw x l)

  pub bind_rule :
      (Q : Db → Type 0) (m : Tx A) (f : A → Tx B) (db : Db)
      → Ensures Q (m db)
      → ((a : A) (d : Db) → Q d → Ensures R (f a d))
      → Ensures R ((m >>= f) db)
  bind_rule Q m f db h k = bind_cases Q m f db (m db) refl h k

  pub or_throw_rule :
      (e : Error) (o : Option A) (f : A → Tx B) (db : Db)
      → ((a : A) → o ≡ some a → Ensures R (f a db))
      → Ensures R ((or_throw e o >>= f) db)
  unfolding or_throw ◌>>=◌
  or_throw_rule e none f db k = threw _ _
  or_throw_rule e (some a) f db k = k a refl

module _ {B : Type 0} {R : Db → Type 0} where
  pub require_run_rule :
      (id : ℕ) (f : Run → Tx B) (db : Db)
      → ((r : Run) → get_run id db.runs ≡ some r → Ensures R (f r db))
      → Ensures R ((require_run id >>= f) db)
  unfolding require_run ◌>>=◌
  require_run_rule id f db k = elim (Option-cases (get_run id db.runs)) [
    | inl e ↦ rw (e, ◌>>=◌) (threw _ _)
    | inr (r, e) ↦ rw (e, ◌>>=◌) (k r e)
  ]

  pub require_task_rule :
      (id : ℕ) (f : Task → Tx B) (db : Db)
      → ((t : Task) → Ensures R (f t db))
      → Ensures R ((require_task id >>= f) db)
  unfolding require_task ◌>>=◌
  require_task_rule id f db k = elim (Option-cases (get_task id db.tasks)) [
    | inl e ↦ rw (e, ◌>>=◌) (threw _ _)
    | inr (t, e) ↦ rw (e, ◌>>=◌) (k t)
  ]

  pub require_that_rule :
      (b : Bool) (e : Error) (f : Unit {0} → Tx B) (db : Db)
      → (b ≡ true → Ensures R (f tt db))
      → Ensures R ((require_that b e >>= f) db)
  unfolding require_that ◌>>=◌
  require_that_rule true e f db k = k refl
  require_that_rule false e f db k = threw _ _

  pub if_rule :
      (b : Bool) (m k : Tx B) (db : Db)
      → (b ≡ true → Ensures R (m db))
      → (b ≡ false → Ensures R (k db))
      → Ensures R ((if b then m else k) db)
  if_rule true m k db h h' = h refl
  if_rule false m k db h h' = h' refl

module _ {B : Type 0} {R : Db → Type 0} where
  pub if_outcome_rule :
      (b : Bool) (x y : Outcome B)
      → (b ≡ true → Ensures R x)
      → (b ≡ false → Ensures R y)
      → Ensures R (if b then x else y)
  if_outcome_rule true x y h k = h refl
  if_outcome_rule false x y h k = k refl

  pub option_rule :
      {A : Type 0} (o : Option A) (z : Outcome B) (f : A → Outcome B)
      → Ensures R z
      → ((a : A) → o ≡ some a → Ensures R (f a))
      → Ensures R (elim o [ none ↦ z | some a ↦ f a ])
  option_rule none z f h k = h
  option_rule (some a) z f h k = k a refl

pub return_rule : {A : Type 0} {R : Db → Type 0} (a : A) (db : Db) → R db → Ensures R (return a db)
unfolding return
return_rule a db h = done a h

pub record_event_rule :
    (rs : List Run) (e : AuditEvent) (db : Db) → From rs db → Ensures (From rs) (record_event e db)
unfolding record_event
record_event_rule rs e db h = done tt (record { evolved = h.evolved; keyed = h.keyed })

-- A write to the row that was found, which is a move.
pub set_runs_rule :
    (rs : List Run) (id : ℕ) (f : Run → Run) (db : Db) (r : Run)
    → From rs db
    → get_run id db.runs ≡ some r
    → Move r (f r)
    → Ensures (From rs) (set_runs (update_run id f) db)
unfolding set_runs
set_runs_rule rs id f db r h e m = done tt (change_from rs id f db _ r h e m refl refl)

-- Two lookups of one key find one row.
pub found_same :
    (id : ℕ) (rs : List Run) {r q : Run} → get_run id rs ≡ some r → get_run id rs ≡ some q → r ≡ q
found_same id rs e f = cc

-- `transition` makes one move, if the table permits it.
pub transition_rule :
    (rs : List Run) (id : ℕ) (to : RunStatus) (actor : Actor) (event : String) (patch : Run → Run)
    (now : ℕ) (db : Db)
    → ((r : Run)
        → get_run id db.runs ≡ some r
        → can_transition r.status to ≡ true
        → Move r (moved patch to now r))
    → From rs db
    → Ensures (From rs) (transition id to actor event patch now db)
unfolding transition assert_transition require_run ◌>>=◌ record_event set_runs return
transition_rule rs id to actor event patch now db move h =
    elim (Option-cases (get_run id db.runs)) [
      | inl e ↦ rw (e, transition, ◌>>=◌) (threw _ _)
      | inr (r, e) ↦ elim (Bool-cases (can_transition r.status to)) [
        | inl c ↦
            rw (e, c, transition, ◌>>=◌)
              (done _ (change_from rs id (moved patch to now) db _ r h e (move r e c) refl refl))
        | inr c ↦ rw (e, c, transition, ◌>>=◌) (threw _ _)
      ]
    ]

-- The same where the row is known: it is found again as it was written.
pub transition_found_rule :
    (rs : List Run) (id : ℕ) (to : RunStatus) (actor : Actor) (event : String) (patch : Run → Run)
    (now : ℕ) (db : Db) (r : Run)
    → get_run id db.runs ≡ some r
    → (can_transition r.status to ≡ true → Move r (moved patch to now r))
    → From rs db
    → Ensures
        (λ d. From rs d × (get_run id d.runs ≡ some (moved patch to now r)))
        (transition id to actor event patch now db)
unfolding transition assert_transition require_run ◌>>=◌ record_event set_runs return
transition_found_rule rs id to actor event patch now db r e move h =
    elim (Bool-cases (can_transition r.status to)) [
      | inl c ↦
          rw (e, c, transition, ◌>>=◌)
            (done _ (
              change_from rs id (moved patch to now) db _ r h e (move c) refl refl,
              get_run-update_run id (moved patch to now) db.runs r e
                  ((Move-fields (move c)).0 ∙ get_run-id id db.runs r e),
            ))
      | inr c ↦ rw (e, c, transition, ◌>>=◌) (threw _ _)
    ]

-- A transaction that throws leaves the runs as they were.
pub commit_rule :
    {A : Type 0} (o : Outcome A) (db : Db)
    → HasKeys db
    → Ensures (From db.runs) o
    → From db.runs (commit o db)
unfolding commit
commit_rule (Outcome.ok a d) db k (done b h) = h
commit_rule (Outcome.err e l) db k h = record { evolved = here; keyed = k }
