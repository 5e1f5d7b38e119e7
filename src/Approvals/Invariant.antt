-- ===== src/Approvals/Invariant.antt =====
-- What is kept of the approval requests by every step, and the two kinds of change to the table:
-- an update and a creation.
pub mod Clear
pub mod Create
pub mod Steps
pub mod Gates
pub mod Update
pub mod Calls
use mac_bennet.Prelude.{
  ℕ, ◌+◌, ◌≡◌, ◌<◌, refl, ap, subst, sym, Bool, true, false, ◌||◌, not, inl, inr, List, [], ◌∷◌,
  ◌++◌, All, All-append, arith, ◌==◌, ltb, Option, some, Bool-cases, if◌then◌else◌,
}
use mac_bennet.Runs.Db.{Text}
use mac_bennet.Approvals.{RequestState, is_conversationally_approvable}
use mac_bennet.Approvals.Store.{Request, get_request, update_where, includes_id}
use mac_bennet.Approvals.Service.{
  is_pending, CreateApprovalRequest, new_request, supersede_patch, same_subject_ids,
  is_same_subject, clashes,
}
use mac_bennet.Approvals.Rows.{
  IsLater, IsLater-refl, Matches, Matches-refl, Matches-All, Matches-Grows, Grows, Grows-append,
  Grows-trans, update_where-Matches, update_where-All,
}
use mac_bennet.Approvals.Invariant.Clear.{
  IsClear, Matches-IsClear, IsClear-append, Chosen, keep-Chosen, keep-Selected, clash,
}

abbrev pub is_approved : RequestState → Bool
is_approved RequestState.approved = true
is_approved _ = false

-- An approved request asked for something that a person may approve.
unfoldable pub is_granted : Request → Bool
is_granted r = not (is_approved r.state) || is_conversationally_approvable r.authority

-- Whether the request with this key, if it is this one, may be approved.
unfoldable pub is_allowed : ℕ → Request → Bool
is_allowed id r = not (r.id == id) || is_conversationally_approvable r.authority

-- The table and its next key.
pub record IsKept (n : ℕ) (rs : List Request) : Type 0 where
  pub keys : All (λ r. r.id < n) rs
  pub clear : IsClear rs
  pub granted : All (λ r. is_granted r ≡ true) rs

pub record Keeps (n : ℕ) (rs : List Request) (m : ℕ) (ss : List Request) : Type 0 where
  pub kept : IsKept m ss
  pub grown : Grows rs ss
  pub permit :
      (id : ℕ)
      → id < n
      → All (λ r. is_allowed id r ≡ true) rs
      → (id < m) × All (λ r. is_allowed id r ≡ true) ss

pub Keeps-refl : {n : ℕ} {rs : List Request} → IsKept n rs → Keeps n rs n rs
Keeps-refl {n} {rs} k = record {
  kept = k;
  grown = Matches-Grows (Matches-refl rs);
  permit = λ id l a. (l, a);
}

IsLater-key : {n : ℕ} (r s : Request) → IsLater r s → r.id < n → s.id < n
IsLater-key r s h l = rw h.same_id l

IsLater-is_allowed :
    (id : ℕ) (r s : Request) → IsLater r s → is_allowed id r ≡ true → is_allowed id s ≡ true
unfolding is_allowed
IsLater-is_allowed id r s h a = rw (h.same_id, h.same_authority) a

-- A table of later states, if what it approves is granted.
pub Matches-Keeps :
    {n : ℕ} {rs ss : List Request}
    → IsKept n rs
    → Matches rs ss
    → All (λ r. is_granted r ≡ true) ss
    → Keeps n rs n ss
Matches-Keeps {n} k m g = record {
  kept = record {
    keys = Matches-All (λ r. r.id < n) IsLater-key m k.keys;
    clear = Matches-IsClear m k.clear;
    granted = g;
  };
  grown = Matches-Grows m;
  permit = λ id l a. (l, Matches-All (λ r. is_allowed id r ≡ true) (IsLater-is_allowed id) m a);
}

pub update_where-Keeps :
    {n : ℕ} {rs : List Request} (p : Request → Bool) (f : Request → Request)
    → IsKept n rs
    → ((r : Request) → p r ≡ true → IsLater r (f r))
    → ((r : Request) → p r ≡ true → is_granted r ≡ true → is_granted (f r) ≡ true)
    → Keeps n rs n (update_where p f rs)
update_where-Keeps {n} {rs} p f k later grant =
    Matches-Keeps k (update_where-Matches p f rs later)
      (update_where-All (λ r. is_granted r ≡ true) p f rs grant k.granted)

permit_others :
    (id : ℕ) (x : Request) (rs : List Request)
    → (x.id == id) ≡ true
    → All (λ s. clash x s ≡ false) rs
    → All (λ s. is_allowed id s ≡ true) rs
unfolding is_allowed clash
permit_others id x [] e c = tt
permit_others id x (s ∷ rs) e c = (ground (arith, c.0), permit_others id x rs e c.1)

-- A request that may be approved is the only one with its key.
pub get_request-permit :
    (n id : ℕ) (rs : List Request) (r : Request)
    → All (λ s. s.id < n) rs
    → IsClear rs
    → get_request id rs ≡ some r
    → is_conversationally_approvable r.authority ≡ true
    → (id < n) × All (λ s. is_allowed id s ≡ true) rs
unfolding get_request is_allowed
get_request-permit n id [] r k c e a = absurd (cc)
get_request-permit n id (x ∷ rs) r k c e a = elim (Bool-cases (x.id == id)) [
  | inl hit ↦
      let same : x ≡ r = ground arith in
      (ground (arith, k.0), (ground arith, permit_others id x rs hit c.0))
  | inr miss ↦
      let rest = get_request-permit n id rs r k.1 c.1 (ground arith) a in
      (rest.0, (ground arith, rest.1))
]
