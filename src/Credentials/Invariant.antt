-- ===== src/Credentials/Invariant.antt =====
-- What is kept of the tokens: one active token for a worker, and no way back for a token that has
-- been replaced or revoked.
pub mod Steps
pub mod Calls
pub mod Retired
use mac_bennet.Prelude.{
  ℕ, ◌+◌, ◌*◌, ◌≡◌, ◌⊎◌, refl, sym, ap, ◌∙◌, Bool, true, false, not, ◌&&◌, ◌||◌, inl, inr, List, [],
  ◌∷◌, ◌++◌, Option, none, some, ◌==◌, ltb, any, All, All-append, arith, if◌then◌else◌, Bool-cases,
  Pairwise, Pairwise-append, Follows, Follows-refl, Follows-Extends, Follows-Pairwise, Extends,
  Extends-append, update_rows, update_rows-Follows,
}
use mac_bennet.Runs.Db.{Actor}
use mac_bennet.Credentials.{
  WorkerToken, TokenStatus, IssueRoute, is_active, is_superseded, is_revoked,
}
use mac_bennet.Credentials.Tokens.{
  supersede_token, replace_token, holds_active, retire_active, new_token, has_hash, revoke_token,
  holds_open, touch,
}

-- A later state of a token: it keeps its worker and its hash, and once it is not active it either
-- stays as it is or is revoked.
pub record IsLater (t u : WorkerToken) : Type 0 where
  pub same_worker : u.worker_id ≡ t.worker_id
  pub same_hash : u.token_hash ≡ t.token_hash
  pub retired :
      (is_active t.status ≡ true)
      ⊎ ((u.status ≡ TokenStatus.revoked) ⊎ ((u.status ≡ t.status) × (u.expires_at ≡ t.expires_at)))

pub IsLater-refl : (t : WorkerToken) → IsLater t t
IsLater-refl t = record { same_worker = refl; same_hash = refl; retired = inr (inr (refl, refl)) }

pub IsLater-is_active :
    (t u : WorkerToken) → IsLater t u → is_active t.status ≡ false → is_active u.status ≡ false
unfolding is_active
IsLater-is_active t u h e = elim h.retired [
  | inl a ↦ absurd (cc)
  | inr r ↦ elim r [ inl gone ↦ rw gone refl | inr same ↦ ap is_active same.0 ∙ e ]
]

pub IsLater-trans : (t u v : WorkerToken) → IsLater t u → IsLater u v → IsLater t v
IsLater-trans t u v h k = record {
  same_worker = k.same_worker ∙ h.same_worker;
  same_hash = k.same_hash ∙ h.same_hash;
  retired = elim (Bool-cases (is_active t.status)) [
    | inl a ↦ inl a
    | inr e ↦ inr (later (IsLater-is_active t u h e) e)
  ];
}
  where
    later :
        is_active u.status ≡ false
        → is_active t.status ≡ false
        → (v.status ≡ TokenStatus.revoked) ⊎ ((v.status ≡ t.status) × (v.expires_at ≡ t.expires_at))
    later n e = elim k.retired [
      | inl a ↦ absurd (cc (a, n))
      | inr r ↦ elim r [
        | inl gone ↦ inl gone
        | inr same ↦ elim h.retired [
          | inl a ↦ absurd (cc (a, e))
          | inr q ↦ elim q [
            | inl gone ↦ inl (same.0 ∙ gone)
            | inr before ↦ inr (same.0 ∙ before.0, same.1 ∙ before.1)
          ]
        ]
      ]
    ]

-- Two tokens with one hash, or two active tokens of one worker.
unfoldable pub clash : WorkerToken → WorkerToken → Bool
clash t u =
    t.token_hash == u.token_hash
    || (t.worker_id == u.worker_id && (is_active t.status && is_active u.status))

pub IsLater-clash :
    (t t' u u' : WorkerToken)
    → IsLater t t'
    → IsLater u u'
    → clash t u ≡ false
    → clash t' u' ≡ false
unfolding clash
IsLater-clash t t' u u' h k e =
    rw (h.same_hash, k.same_hash, h.same_worker, k.same_worker)
      (ground (arith, IsLater-is_active t t' h, IsLater-is_active u u' k))

-- What every operation does to the tokens.
pub record Keeps (ts us : List WorkerToken) : Type 0 where
  pub single : Pairwise clash us
  pub extends : Extends IsLater ts us

pub Follows-Keeps :
    (ts us : List WorkerToken) → Pairwise clash ts → Follows IsLater ts us → Keeps ts us
Follows-Keeps ts us c m = record {
  single = Follows-Pairwise IsLater clash IsLater-clash m c;
  extends = Follows-Extends IsLater m;
}

pub Keeps-refl : (ts : List WorkerToken) → Pairwise clash ts → Keeps ts ts
Keeps-refl ts c = Follows-Keeps ts ts c (Follows-refl IsLater IsLater-refl ts)

-- An update of tokens that are active, or that revokes them, keeps all that is later.
pub active_patch-IsLater :
    (t u : WorkerToken)
    → is_active t.status ≡ true
    → u.worker_id ≡ t.worker_id
    → u.token_hash ≡ t.token_hash
    → IsLater t u
active_patch-IsLater t u a w h = record { same_worker = w; same_hash = h; retired = inl a }

pub retire_active-Follows :
    (worker_id overlap now : ℕ) (ts : List WorkerToken)
    → Follows IsLater ts (retire_active worker_id overlap now ts)
unfolding retire_active holds_active supersede_token replace_token
retire_active-Follows worker_id overlap now ts = elim (Bool-cases (ltb 0 overlap)) [
  | inl yes_overlap ↦ rw yes_overlap (
      update_rows-Follows IsLater (holds_active worker_id) (supersede_token now overlap) ts
        IsLater-refl (λ t e. active_patch-IsLater t _ (ground (arith, e)) refl refl))
  | inr no_overlap ↦ rw no_overlap (
      update_rows-Follows IsLater (holds_active worker_id) (replace_token now) ts IsLater-refl
        (λ t e. active_patch-IsLater t _ (ground (arith, e)) refl refl))
]
