-- ===== src/Runs/Invariant/Records.antt =====
-- The life of one run: it is never lost, moves along the table, keeps what was approved, and is
-- frozen once it has ended.
use mac_bennet.Prelude.{
  ℕ, ◌≡◌, ◌⊎◌, unless, given, ◌++◌, refl, sym, subst, ap, ◌∙◌, true, false, Bool-cases, inl, inr,
  List, [], ◌∷◌, none, some, ◌==◌, ==_iff, arith,
}
use mac_bennet.Protocol.Enums.{is_terminal_run_status}
use mac_bennet.Runs.Lifecycle.Paths.{StatusPath, here, StatusPath-trans, StatusPath-terminal}
use mac_bennet.Runs.Db.{Run, Db, get_run, update_run}
use mac_bennet.Runs.Db.Rows.{get_run-id, get_run-update_run}
use mac_bennet.Runs.Moves.{Move}
use mac_bennet.Runs.Moves.Fields.{Move-fields}
use mac_bennet.Runs.Moves.Evolve.{Evolves, here as same_rows, change, insert}
use mac_bennet.Runs.Service.{Services}
use mac_bennet.Runs.Service.Calls.{Call, history}
use mac_bennet.Runs.Refine.{HasKeys}
use mac_bennet.Runs.Refine.Calls.{history-moves}
use mac_bennet.Runs.Invariant.Status.{IsReviewed, IsReviewed-trans, Move-open, Move-StatusPath}

-- `s` is a later state of the run whose state was `r`.
pub record Continues (r s : Run) : Type 0 where
  pub path : StatusPath r.status s.status
  pub same_task : s.task_id ≡ r.task_id
  pub same_kind : s.job_kind ≡ r.job_kind
  pub same_params : s.job_params ≡ r.job_params
  pub same_context : s.company_context_revision_id ≡ r.company_context_revision_id
  pub frozen : (is_terminal_run_status r.status ≡ false) ⊎ IsReviewed r s

Continues-refl : (r : Run) → Continues r r
Continues-refl r = record {
  path = here;
  same_task = refl;
  same_kind = refl;
  same_params = refl;
  same_context = refl;
  frozen = inr refl;
}

Continues-Move : (r s t : Run) → Continues r s → Move s t → Continues r t
Continues-Move r s t c m =
    let f = Move-fields m in
    record {
      path = StatusPath-trans c.path (Move-StatusPath s t m);
      same_task = f.1 ∙ c.same_task;
      same_kind = f.2 ∙ c.same_kind;
      same_params = f.3 ∙ c.same_params;
      same_context = f.4 ∙ c.same_context;
      frozen =
          unless (is_terminal_run_status r.status)
            λ e. later e (given c.frozen e) (Move-open s t m);
    }
  where
    later :
        is_terminal_run_status r.status ≡ true
        → IsReviewed r s
        → (is_terminal_run_status s.status ≡ false) ⊎ IsReviewed s t
        → IsReviewed r t
    later e h (inl open_s) =
        absurd (cc (e, ap (λ x. is_terminal_run_status x) (StatusPath-terminal e c.path), open_s))
    later e h (inr k) = IsReviewed-trans r s t h k

get_run-append_found :
    (id : ℕ) (rs : List Run) (row r : Run)
    → get_run id rs ≡ some r
    → get_run id (rs ++ (row ∷ [])) ≡ some r
unfolding get_run
get_run-append_found id [] row r e = cc
get_run-append_found id (x ∷ rs) row r e = ground (arith, get_run-append_found id rs row r)

-- A write under another key leaves a row as it was.
get_run-update_other :
    (id other : ℕ) (f : Run → Run) (rs : List Run) (q : Run)
    → get_run other rs ≡ some q
    → (f q).id ≡ other
    → (id == other) ≡ false
    → get_run id (update_run other f rs) ≡ get_run id rs
unfolding get_run update_run
get_run-update_other id other f [] q e k d = refl
get_run-update_other id other f (x ∷ rs) q e k d = elim (Bool-cases (x.id == other)) [
  | inl hit ↦
      let found : some x ≡ some q = rw hit at e in
      let named : (f x).id ≡ other =
        ap (λ o. elim o [ none ↦ other | some y ↦ (f y).id ]) found ∙ k in
      ground arith
  | inr miss ↦
      let rest = get_run-update_other id other f rs q (rw miss at e) k d in rw (miss, rest) refl
]

Evolves-Continues :
    (id : ℕ) (rs ss : List Run) (r : Run)
    → get_run id rs ≡ some r
    → Evolves rs ss
    → (s : Run) × (get_run id ss ≡ some s) × Continues r s
Evolves-Continues id rs ss r e same_rows = (r, e, Continues-refl r)
Evolves-Continues id rs ss r e (change {ss = mid} other f q p found m) =
    let (s, at_mid, c) = Evolves-Continues id rs mid r e p in
    let named = (Move-fields m).0 ∙ get_run-id other mid q found in
    elim (Bool-cases (id == other)) [
      | inl eq ↦
          let same = (==_iff id other).0 eq in
          let found' : get_run id mid ≡ some q =
            subst (λ x. get_run x mid ≡ some q) (sym same) found in
          let is_q : s ≡ q = cc (at_mid, found') in
          (
            f q,
            subst (λ x. get_run x (update_run other f mid) ≡ some (f q)) (sym same)
                (get_run-update_run other f mid q found named),
            Continues-Move r q (f q) (subst (λ x. Continues r x) is_q c) m,
          )
      | inr differ ↦ (s, get_run-update_other id other f mid q found named differ ∙ at_mid, c)
    ]
Evolves-Continues id rs ss r e (insert {ss = mid} row p n) =
    let (s, at_mid, c) = Evolves-Continues id rs mid r e p in
    (s, get_run-append_found id mid row s at_mid, c)

-- In a database whose run keys are in order, after any history of calls each run that was there
-- is still found under its key. Its status has moved along the table of changes only, its task,
-- job and company context are those it had, and if it had ended, no field of it has changed but
-- the state of its acceptance review and the time of its update.
pub history-Continues :
    (calls : List (Services × ℕ × Call)) (db : Db) (id : ℕ) (r : Run)
    → HasKeys db
    → get_run id db.runs ≡ some r
    → (s : Run) × (get_run id (history calls db).runs ≡ some s) × Continues r s
history-Continues calls db id r keys e =
    Evolves-Continues id db.runs _ r e (history-moves calls db keys).evolved
