-- ===== src/Credentials/Invariant/Retired.antt =====
-- A token that is retired is never accepted again.
use mac_bennet.Prelude.{
  ℕ, ◌≡◌, refl, subst, Bool, false, inl, inr, List, [], ◌∷◌, none, some, arith, Bool-cases,
  Option-cases, Pairwise, Extends, next, find_row,
}
use mac_bennet.Credentials.{WorkerToken, Account, Registry, is_active, is_superseded, is_disabled}
use mac_bennet.Credentials.Tokens.{
  has_hash, is_usable, is_account, resolve_found, resolve_token, resolve_presented_token,
}
use mac_bennet.Credentials.Calls.{Call, history}
use mac_bennet.Credentials.Invariant.{IsLater, clash}
use mac_bennet.Credentials.Invariant.Calls.{history-Keeps}

find_row-Extends :
    (hash : ℕ) (ts us : List WorkerToken) (t : WorkerToken)
    → Extends IsLater ts us
    → find_row (has_hash hash) ts ≡ some t
    → (u : WorkerToken) × (find_row (has_hash hash) us ≡ some u) × IsLater t u
unfolding find_row
find_row-Extends hash [] us t x e = absurd (cc)
find_row-Extends hash (a ∷ ts) [] t x e = elim x [ ]
find_row-Extends hash (a ∷ ts) (b ∷ us) t (next h x) e = elim (Bool-cases (has_hash hash a)) [
  | inl hit ↦
      let same : a ≡ t = ground arith in
      (b, rw (h.same_hash, hit) refl, subst (λ y. IsLater y b) same h)
  | inr miss ↦
      let (u, f, l) = find_row-Extends hash ts us t x (ground arith) in
      (u, rw (h.same_hash, miss) f, l)
]

retired_unusable :
    (now : ℕ) (t u : WorkerToken)
    → IsLater t u
    → is_active t.status ≡ false
    → is_usable now t ≡ false
    → is_usable now u ≡ false
unfolding is_usable is_superseded is_active
retired_unusable now t u h a e = elim h.retired [
  | inl active ↦ absurd (cc)
  | inr r ↦ elim r [ inl gone ↦ rw gone refl | inr same ↦ rw (same.0, same.1) e ]
]

resolve_found-unusable :
    (touched : Bool) (now : ℕ) (r : Registry) (t : WorkerToken) (w : Account)
    → is_usable now t ≡ false
    → (resolve_found touched now r t w).0 ≡ none
unfolding resolve_found
resolve_found-unusable touched now r t w e = elim (Bool-cases (is_disabled w.status)) [
  | inl off ↦ rw off refl
  | inr on ↦ rw (on, e) refl
]

resolve_token-unusable :
    (touched : Bool) (now : ℕ) (r : Registry) (t : WorkerToken)
    → is_usable now t ≡ false
    → (resolve_token touched now r (some t)).0 ≡ none
unfolding resolve_token
resolve_token-unusable touched now r t e =
    elim (Option-cases (find_row (is_account t.worker_id) r.workers)) [
      | inl missing ↦ rw (missing, resolve_token) refl
      | inr (w, found) ↦ rw (found, resolve_token) (resolve_found-unusable touched now r t w e)
    ]

-- A token that is no longer active, and that is not usable at a time because it is revoked or its
-- overlap has ended by then, is not accepted at that time after any history of calls, whatever
-- is issued, registered, rotated or enabled in it. In particular a revoked token is never accepted
-- again, and a superseded one not from its expiry on.
pub resolve_presented_token-retired :
    (calls : List (ℕ × Call)) (r : Registry) (hash now : ℕ) (touched : Bool) (t : WorkerToken)
    → Pairwise clash r.tokens
    → find_row (has_hash hash) r.tokens ≡ some t
    → is_active t.status ≡ false
    → is_usable now t ≡ false
    → (resolve_presented_token touched hash now (history calls r)).0 ≡ none
unfolding resolve_presented_token
resolve_presented_token-retired calls r hash now touched t c f a e =
    let (u, g, l) =
      find_row-Extends hash r.tokens (history calls r).tokens t (history-Keeps calls r c).extends
        f in
    rw (g, resolve_presented_token)
      (resolve_token-unusable touched now (history calls r) u (retired_unusable now t u l a e))
