-- ===== src/Credentials/Invariant/Calls.antt =====
-- Registration and the other calls keep the tokens, and so does every history of calls.
use mac_bennet.Prelude.{
  ℕ, subst, ◌≡◌, refl, sym, Bool, true, false, not, inl, inr, List, [], ◌∷◌, Option, none, some,
  ◌==◌, any, if◌then◌else◌, Option-cases, Pairwise, Extends-trans, update_rows, find_row,
}
use mac_bennet.Runs.Db.{Actor, Text, worker_actor}
use mac_bennet.Credentials.{
  IssueRoute, Account, Enrollment, Registry, Reply, CredentialError, is_disabled, log_credential,
}
use mac_bennet.Credentials.Tokens.{
  resolve_presented_token, is_account, request_rotation_for_aged_tokens,
}
use mac_bennet.Credentials.Enrolment.{
  create_enrollment_token, register_worker, register_found, enrol_worker, finish_registration,
  is_valid_enrollment, set_worker_enabled, mark_used, registered_again,
}
use mac_bennet.Runs.Db.Text.{trim}
use mac_bennet.Credentials.Calls.{Call, step, history}
use mac_bennet.Credentials.Invariant.{IsLater, IsLater-trans, clash, Keeps, Keeps-refl}
use mac_bennet.Credentials.Invariant.Steps.{
  KeepsReply, commit-Keeps, if_KeepsReply, issue_worker_token-Keeps, rotate_worker_token-Keeps,
  request_rotation-Keeps, revoke_worker_tokens-Keeps, request_each-Keeps, resolve_token-Keeps,
}

finish_registration-Keeps :
    (e : Enrollment) (hash now worker_id : ℕ) (r : Registry)
    → Pairwise clash r.tokens
    → KeepsReply r.tokens (finish_registration e hash now worker_id r)
unfolding finish_registration log_credential
finish_registration-Keeps e hash now worker_id r c =
    used _ (issue_worker_token-Keeps hash worker_id IssueRoute.enrollment 0 now r c)
  where
    used :
        (x : Reply (Unit {0}))
        → KeepsReply r.tokens x
        → KeepsReply {A = ℕ} r.tokens (elim x [
          | Reply.err y ↦ Reply.err y
          | Reply.ok u s ↦ Reply.ok worker_id (
              log_credential (worker_actor worker_id) "worker.registered" (record s {
                enrollments =
                    update_rows (λ y. y.id == e.id) (mark_used worker_id now) s.enrollments;
              }))
        ])
    used (Reply.ok u s) h = h
    used (Reply.err y) h = tt

abbrev KeepsTokens : {A : Type 0} → Registry → Reply A → Type 0
KeepsTokens r (Reply.ok a s) = s.tokens ≡ r.tokens
KeepsTokens r (Reply.err e) = Unit

-- The worker is found or inserted, and the tokens are not touched.
enrol_worker_tokens :
    (name : Text) (r : Registry) (o : Option Account) → KeepsTokens r (enrol_worker name r o)
unfolding enrol_worker
enrol_worker_tokens name r none = refl
enrol_worker_tokens name r (some w) = disabled (is_disabled w.status)
  where
    disabled :
        (b : Bool)
        → KeepsTokens r (
            if b
            then Reply.err CredentialError.worker_disabled
            else Reply.ok w.id
                (record r { workers = update_rows (is_account w.id) registered_again r.workers }))
    disabled true = tt
    disabled false = refl

register_found-Keeps :
    (hash : ℕ) (name : Text) (now : ℕ) (r : Registry) (o : Option Enrollment)
    → Pairwise clash r.tokens
    → KeepsReply r.tokens (register_found hash name now r o)
unfolding register_found
register_found-Keeps hash name now r none c = tt
register_found-Keeps hash name now r (some e) c =
    if_KeepsReply r.tokens (not (is_valid_enrollment now e)) _ _ (λ h. tt)
      (λ h. enrolled _ (enrol_worker_tokens (trim name) r _))
  where
    enrolled :
        (x : Reply ℕ)
        → KeepsTokens r x
        → KeepsReply {A = ℕ} r.tokens (elim x [
          | Reply.err y ↦ Reply.err y
          | Reply.ok id s ↦ finish_registration e hash now id s
        ])
    enrolled (Reply.ok id s) h =
        subst (λ ts. KeepsReply ts (finish_registration e hash now id s)) h
          (finish_registration-Keeps e hash now id s (subst (Pairwise clash) (sym h) c))
    enrolled (Reply.err y) h = tt

create_enrollment_token-Keeps :
    (hash hours : ℕ) (actor : Actor) (now : ℕ) (r : Registry)
    → Pairwise clash r.tokens
    → KeepsReply r.tokens (create_enrollment_token hash hours actor now r)
unfolding create_enrollment_token log_credential
create_enrollment_token-Keeps hash hours actor now r c =
    if_KeepsReply r.tokens (any (λ e. e.token_hash == hash) r.enrollments) _ _ (λ h. tt)
      (λ h. Keeps-refl r.tokens c)

set_worker_enabled-Keeps :
    (id : ℕ) (enabled : Bool) (actor : Actor) (r : Registry)
    → Pairwise clash r.tokens
    → KeepsReply r.tokens (set_worker_enabled id enabled actor r)
unfolding set_worker_enabled log_credential
set_worker_enabled-Keeps id enabled actor r c =
    elim (Option-cases (find_row (is_account id) r.workers)) [
      | inl e ↦ rw (e, set_worker_enabled) tt
      | inr (w, e) ↦ rw (e, set_worker_enabled) (Keeps-refl r.tokens c)
    ]

step-Keeps :
    (now : ℕ) (call : Call) (r : Registry)
    → Pairwise clash r.tokens
    → Keeps r.tokens (step now call r).tokens
unfolding step register_worker resolve_presented_token request_rotation_for_aged_tokens
step-Keeps now (Call.enrols hash hours actor) r c =
    commit-Keeps r _ c (create_enrollment_token-Keeps hash hours actor now r c)
step-Keeps now (Call.registers enrollment hash name) r c =
    commit-Keeps r _ c (register_found-Keeps hash name now r _ c)
step-Keeps now (Call.presents touched hash) r c = resolve_token-Keeps touched now r _ c
step-Keeps now (Call.rotates overlap hash worker_id) r c =
    commit-Keeps r _ c (rotate_worker_token-Keeps overlap hash worker_id now r c)
step-Keeps now (Call.requests id actor) r c =
    commit-Keeps r _ c (request_rotation-Keeps id actor now r c)
step-Keeps now (Call.revokes id actor) r c =
    commit-Keeps r _ c (revoke_worker_tokens-Keeps id actor now r c)
step-Keeps now (Call.ages max_age_hours) r c = request_each-Keeps now _ r c
step-Keeps now (Call.enables id enabled actor) r c =
    commit-Keeps r _ c (set_worker_enabled-Keeps id enabled actor r c)

pub history-Keeps :
    (calls : List (ℕ × Call)) (r : Registry)
    → Pairwise clash r.tokens
    → Keeps r.tokens (history calls r).tokens
unfolding history
history-Keeps [] r c = Keeps-refl r.tokens c
history-Keeps ((now, call) ∷ rest) r c =
    let first = step-Keeps now call r c in
    let later = history-Keeps rest (step now call r) first.single in
    record {
      single = later.single;
      extends = Extends-trans IsLater IsLater-trans first.extends later.extends;
    }

-- Whatever is enrolled, registered, presented, rotated, revoked, aged and disabled, in whatever
-- order and at whatever times, a worker never has two active tokens, and no two tokens have the
-- same hash, if this holds at first.
pub history-Pairwise :
    (calls : List (ℕ × Call)) (r : Registry)
    → Pairwise clash r.tokens
    → Pairwise clash (history calls r).tokens
history-Pairwise calls r c = (history-Keeps calls r c).single
