-- ===== src/Credentials/Invariant/Steps.antt =====
-- Each operation keeps the tokens.
use mac_bennet.Prelude.{
  ℕ, ◌≡◌, refl, Bool, true, false, inl, inr, List, [], ◌∷◌, ◌++◌, Option, none, some, ◌==◌, ltb,
  any, All, All-weaken, All-zip, any-All, arith, if◌then◌else◌, Bool-cases, Option-cases, Pairwise,
  Pairwise-append, Follows-All, Extends-append, Extends-trans, update_rows, update_rows-Follows,
  find_row, is_some,
}
use mac_bennet.Runs.Db.{Actor, system_actor, worker_actor}
use mac_bennet.Credentials.{
  WorkerToken, IssueRoute, Account, Registry, Reply, commit, is_active, is_disabled, log_credential,
}
use mac_bennet.Credentials.Tokens.{
  supersede_token, replace_token, holds_active, retire_active, new_token, has_hash, revoke_token,
  holds_open, touch, issue_worker_token, rotate_worker_token, request_rotation,
  revoke_worker_tokens, resolve_found, resolve_token, is_account, is_usable, request_each,
}
use mac_bennet.Credentials.Invariant.{
  IsLater, IsLater-refl, IsLater-trans, clash, Keeps, Keeps-refl, Follows-Keeps,
  retire_active-Follows,
}

-- After an update of the active tokens of a worker that leaves none active, none is.
retired_rows :
    (worker_id : ℕ) (f : WorkerToken → WorkerToken) (ts : List WorkerToken)
    → ((t : WorkerToken) → is_active (f t).status ≡ false)
    → All (λ t. holds_active worker_id t ≡ false) (update_rows (holds_active worker_id) f ts)
unfolding update_rows
retired_rows worker_id f [] h = tt
retired_rows worker_id f (t ∷ ts) h =
    (here (holds_active worker_id t) refl, retired_rows worker_id f ts h)
  where
    here :
        (b : Bool)
        → holds_active worker_id t ≡ b
        → holds_active worker_id (if b then f t else t) ≡ false
    here true e = unfold holds_active in ground (arith, h t)
    here false e = e

retire_active_rows :
    (worker_id overlap now : ℕ) (ts : List WorkerToken)
    → All (λ t. holds_active worker_id t ≡ false) (retire_active worker_id overlap now ts)
unfolding retire_active
retire_active_rows worker_id overlap now ts = elim (Bool-cases (ltb 0 overlap)) [
  | inl overlaps ↦ rw overlaps (
      retired_rows worker_id (supersede_token now overlap) ts
        (λ t. unfold supersede_token is_active in refl))
  | inr cuts ↦
      rw cuts (
        retired_rows worker_id (replace_token now) ts (λ t. unfold replace_token is_active in refl))
]

new_clash :
    (hash worker_id : ℕ) (route : IssueRoute) (now id : ℕ) (t : WorkerToken)
    → has_hash hash t ≡ false
    → holds_active worker_id t ≡ false
    → clash t (new_token hash worker_id route now id) ≡ false
unfolding clash new_token holds_active
new_clash hash worker_id route now id t e f = ground (arith, e, f)

issue_Keeps :
    (hash worker_id : ℕ) (route : IssueRoute) (overlap now id : ℕ) (ts : List WorkerToken)
    → Pairwise clash ts
    → any (has_hash hash) ts ≡ false
    → Keeps ts
        (retire_active worker_id overlap now ts ++ (new_token hash worker_id route now id ∷ []))
issue_Keeps hash worker_id route overlap now id ts c n =
    let us = retire_active worker_id overlap now ts in
    let m = retire_active-Follows worker_id overlap now ts in
    let old = Follows-Keeps ts us c m in
    let hashes =
      Follows-All IsLater (λ t. has_hash hash t ≡ false) (λ t u h e. rw h.same_hash e) m
        (any-All (has_hash hash) ts n) in
    record {
      single = Pairwise-append clash us _ old.single (
          All-weaken _ {Q = λ t. clash t (new_token hash worker_id route now id) ≡ false}
            (λ t e. new_clash hash worker_id route now id t e.0 e.1) us
            (All-zip _ _ us hashes (retire_active_rows worker_id overlap now ts)));
      extends = Extends-append IsLater _ old.extends;
    }

-- The tokens are kept if the transaction returns.
abbrev pub KeepsReply : {A : Type 0} → List WorkerToken → Reply A → Type 0
KeepsReply ts (Reply.ok a s) = Keeps ts s.tokens
KeepsReply ts (Reply.err e) = Unit

pub commit-Keeps :
    {A : Type 0} (r : Registry) (x : Reply A)
    → Pairwise clash r.tokens
    → KeepsReply r.tokens x
    → Keeps r.tokens (commit x r).tokens
unfolding commit
commit-Keeps r (Reply.ok a s) c h = h
commit-Keeps r (Reply.err e) c h = Keeps-refl r.tokens c

pub if_KeepsReply :
    {A : Type 0} (ts : List WorkerToken) (b : Bool) (x y : Reply A)
    → (b ≡ true → KeepsReply ts x)
    → (b ≡ false → KeepsReply ts y)
    → KeepsReply ts (if b then x else y)
if_KeepsReply ts true x y h k = h refl
if_KeepsReply ts false x y h k = k refl

pub issue_worker_token-Keeps :
    (hash worker_id : ℕ) (route : IssueRoute) (overlap now : ℕ) (r : Registry)
    → Pairwise clash r.tokens
    → KeepsReply r.tokens (issue_worker_token hash worker_id route overlap now r)
unfolding issue_worker_token
issue_worker_token-Keeps hash worker_id route overlap now r c =
    if_KeepsReply r.tokens (any (has_hash hash) r.tokens) _ _ (λ e. tt)
      (issue_Keeps hash worker_id route overlap now r.next_token_id r.tokens c)

pub rotate_worker_token-Keeps :
    (overlap hash worker_id now : ℕ) (r : Registry)
    → Pairwise clash r.tokens
    → KeepsReply r.tokens (rotate_worker_token overlap hash worker_id now r)
unfolding rotate_worker_token log_credential
rotate_worker_token-Keeps overlap hash worker_id now r c =
    logged _ (issue_worker_token-Keeps hash worker_id IssueRoute.rotation overlap now r c)
  where
    logged :
        (x : Reply (Unit {0}))
        → KeepsReply r.tokens x
        → KeepsReply {A = Unit {0}} r.tokens (elim x [
          | Reply.err e ↦ Reply.err e
          | Reply.ok u s ↦
              Reply.ok tt (log_credential (worker_actor worker_id) "worker.token_rotated" s)
        ])
    logged (Reply.ok u s) h = h
    logged (Reply.err e) h = tt

pub request_rotation-Keeps :
    (worker_id : ℕ) (actor : Actor) (now : ℕ) (r : Registry)
    → Pairwise clash r.tokens
    → KeepsReply r.tokens (request_rotation worker_id actor now r)
unfolding request_rotation log_credential
request_rotation-Keeps worker_id actor now r c =
    elim (Option-cases (find_row (is_account worker_id) r.workers)) [
      | inl e ↦ rw (e, request_rotation) tt
      | inr (w, e) ↦
          rw (e, request_rotation)
            (if_KeepsReply r.tokens (is_some w.rotation_requested_at) _ _
              (λ h. Keeps-refl r.tokens c) (λ h. Keeps-refl r.tokens c))
    ]

pub revoke_worker_tokens-Keeps :
    (worker_id : ℕ) (actor : Actor) (now : ℕ) (r : Registry)
    → Pairwise clash r.tokens
    → KeepsReply r.tokens (revoke_worker_tokens worker_id actor now r)
unfolding revoke_worker_tokens log_credential revoke_token
revoke_worker_tokens-Keeps worker_id actor now r c =
    elim (Option-cases (find_row (is_account worker_id) r.workers)) [
      | inl e ↦ rw (e, revoke_worker_tokens) tt
      | inr (w, e) ↦
          rw (e, revoke_worker_tokens)
            (Follows-Keeps r.tokens _ c (
              update_rows-Follows IsLater (holds_open worker_id) (revoke_token now actor) r.tokens
                IsLater-refl
                (λ t h. record { same_worker = refl; same_hash = refl; retired = inr (inl refl) })))
    ]

pub request_each-Keeps :
    (now : ℕ) (ws : List Account) (r : Registry)
    → Pairwise clash r.tokens
    → Keeps r.tokens (request_each now ws r).tokens
unfolding request_each
request_each-Keeps now [] r c = Keeps-refl r.tokens c
request_each-Keeps now (w ∷ ws) r c =
    let first = commit-Keeps r _ c (request_rotation-Keeps w.id system_actor now r c) in
    let rest =
      request_each-Keeps now ws (commit (request_rotation w.id system_actor now r) r)
        first.single in
    record {
      single = rest.single;
      extends = Extends-trans IsLater IsLater-trans first.extends rest.extends;
    }

resolve_found-Keeps :
    (touched : Bool) (now : ℕ) (r : Registry) (t : WorkerToken) (w : Account)
    → Pairwise clash r.tokens
    → Keeps r.tokens (resolve_found touched now r t w).1.tokens
unfolding resolve_found log_credential touch
resolve_found-Keeps touched now r t w c = elim (Bool-cases (is_disabled w.status)) [
  | inl off ↦ rw (off, resolve_found) (Keeps-refl r.tokens c)
  | inr on ↦ elim (Bool-cases (is_usable now t)) [
    | inr bad ↦ rw (on, bad) (Keeps-refl r.tokens c)
    | inl good ↦ rw (on, good) (touched_Keeps touched)
  ]
]
  where
    touched_Keeps :
        (b : Bool)
        → Keeps r.tokens
            (if b
              then record r { tokens = update_rows (λ x. x.id == t.id) (touch now) r.tokens }
              else r).tokens
    touched_Keeps true = Follows-Keeps r.tokens _ c (
        update_rows-Follows IsLater (λ x. x.id == t.id) (touch now) r.tokens IsLater-refl
          (λ x h. record {
            same_worker = refl;
            same_hash = refl;
            retired = inr (inr (refl, refl));
          }))
    touched_Keeps false = Keeps-refl r.tokens c

pub resolve_token-Keeps :
    (touched : Bool) (now : ℕ) (r : Registry) (o : Option WorkerToken)
    → Pairwise clash r.tokens
    → Keeps r.tokens (resolve_token touched now r o).1.tokens
unfolding resolve_token
resolve_token-Keeps touched now r none c = Keeps-refl r.tokens c
resolve_token-Keeps touched now r (some t) c =
    elim (Option-cases (find_row (is_account t.worker_id) r.workers)) [
      | inl e ↦ rw (e, resolve_token) (Keeps-refl r.tokens c)
      | inr (w, e) ↦ rw (e, resolve_token) (resolve_found-Keeps touched now r t w c)
    ]
