-- ===== src/Approvals/Rows.antt =====
-- Rows over time: a later state of a request, tables that differ by later states, and tables that
-- have grown.
use mac_bennet.Prelude.{
  ◌≡◌, ◌⊎◌, refl, ap, ◌∙◌, Bool, true, false, Bool-cases, inl, inr, List, [], ◌∷◌, ◌++◌, All,
  if◌then◌else◌, arith, not, ◌||◌,
}
use mac_bennet.Approvals.{is_open_approval_state}
use mac_bennet.Approvals.Store.{Request, update_where}
use mac_bennet.Approvals.Service.{is_pending}

-- Of the fields of a request, those that say what it is about never change, and those that say how
-- it ended do not change once it has ended.
pub record IsLater (r s : Request) : Type 0 where
  pub same_id : s.id ≡ r.id
  pub same_code : s.code ≡ r.code
  pub same_kind : s.subject_kind ≡ r.subject_kind
  pub same_version : s.subject_version ≡ r.subject_version
  pub same_task : s.task_id ≡ r.task_id
  pub same_run : s.run_id ≡ r.run_id
  pub same_authority : s.authority ≡ r.authority
  pub same_expiry : s.expires_at ≡ r.expires_at
  pub frozen :
      (is_pending r ≡ true)
      ⊎ ((s.state ≡ r.state)
          × (s.decided_at ≡ r.decided_at)
          × (s.decided_by_user_id ≡ r.decided_by_user_id)
          × (s.decided_via_channel ≡ r.decided_via_channel)
          × (s.decision_notes ≡ r.decision_notes)
          × (s.superseded_by_request_id ≡ r.superseded_by_request_id))

pub IsLater-refl : (r : Request) → IsLater r r
IsLater-refl r = record {
  same_id = refl;
  same_code = refl;
  same_kind = refl;
  same_version = refl;
  same_task = refl;
  same_run = refl;
  same_authority = refl;
  same_expiry = refl;
  frozen = inr (refl, refl, refl, refl, refl, refl);
}

-- What was not pending never is again.
pub IsLater-is_pending : {r s : Request} → IsLater r s → is_pending r ≡ false → is_pending s ≡ false
unfolding is_pending is_open_approval_state
IsLater-is_pending h e = elim h.frozen [
  | inl o ↦ absurd (cc)
  | inr f ↦ ap is_open_approval_state f.0 ∙ e
]

pub IsLater-trans : {r s t : Request} → IsLater r s → IsLater s t → IsLater r t
IsLater-trans {r} {s} {t} h k = record {
  same_id = k.same_id ∙ h.same_id;
  same_code = k.same_code ∙ h.same_code;
  same_kind = k.same_kind ∙ h.same_kind;
  same_version = k.same_version ∙ h.same_version;
  same_task = k.same_task ∙ h.same_task;
  same_run = k.same_run ∙ h.same_run;
  same_authority = k.same_authority ∙ h.same_authority;
  same_expiry = k.same_expiry ∙ h.same_expiry;
  frozen = elim h.frozen [
    | inl o ↦ inl o
    | inr f ↦ elim k.frozen [
      | inl o ↦ elim (Bool-cases (is_pending r)) [
        | inl e ↦ inl e
        | inr e ↦ absurd (cc (o, IsLater-is_pending h e))
      ]
      | inr g ↦ inr (g.0 ∙ f.0, g.1 ∙ f.1, g.2 ∙ f.2, g.3 ∙ f.3, g.4 ∙ f.4, g.5 ∙ f.5)
    ]
  ];
}

-- Row by row.
pub data Matches : List Request → List Request → Type 0 where
  none_left : Matches [] []
  row :
      {r s : Request} {rs ss : List Request}
      → IsLater r s
      → Matches rs ss
      → Matches (r ∷ rs) (s ∷ ss)

-- Row by row, with new rows at the end.
pub data Grows : List Request → List Request → Type 0 where
  added : (ss : List Request) → Grows [] ss
  kept :
      {r s : Request} {rs ss : List Request} → IsLater r s → Grows rs ss → Grows (r ∷ rs) (s ∷ ss)

pub Matches-Grows : {rs ss : List Request} → Matches rs ss → Grows rs ss
Matches-Grows none_left = added []
Matches-Grows (row h m) = kept h (Matches-Grows m)

pub Grows-append : {rs ss : List Request} (ts : List Request) → Grows rs ss → Grows rs (ss ++ ts)
Grows-append ts (added ss) = added (ss ++ ts)
Grows-append ts (kept h g) = kept h (Grows-append ts g)

pub Grows-trans : {rs ss ts : List Request} → Grows rs ss → Grows ss ts → Grows rs ts
Grows-trans (added ss) k = added _
Grows-trans (kept h g) (kept h' k) = kept (IsLater-trans h h') (Grows-trans g k)

pub Matches-refl : (rs : List Request) → Matches rs rs
Matches-refl [] = none_left
Matches-refl (r ∷ rs) = row (IsLater-refl r) (Matches-refl rs)

-- What later states keep holds of all rows of a matching table.
pub Matches-All {κ} :
    (P : Request → Type κ)
    → ((r s : Request) → IsLater r s → P r → P s)
    → {rs ss : List Request} → Matches rs ss
    → All P rs
    → All P ss
Matches-All P keep none_left h = h
Matches-All P keep (row l m) h = (keep _ _ l h.0, Matches-All P keep m h.1)

pub update_where-Matches :
    (p : Request → Bool) (f : Request → Request) (rs : List Request)
    → ((r : Request) → p r ≡ true → IsLater r (f r))
    → Matches rs (update_where p f rs)
unfolding update_where
update_where-Matches p f [] later = none_left
update_where-Matches p f (r ∷ rs) later = row (here (p r) refl) (update_where-Matches p f rs later)
  where
    here : (b : Bool) → p r ≡ b → IsLater r (if b then f r else r)
    here true e = later r e
    here false e = IsLater-refl r

-- The same where all that is updated is pending.
pub update_where-pending :
    (p : Request → Bool) (f : Request → Request) (rs : List Request)
    → ((r : Request) → is_pending r ≡ true → IsLater r (f r))
    → All (λ r. not (p r) || is_pending r ≡ true) rs
    → Matches rs (update_where p f rs)
unfolding update_where
update_where-pending p f [] later a = none_left
update_where-pending p f (r ∷ rs) later a =
    row (here (p r) refl) (update_where-pending p f rs later a.1)
  where
    here : (b : Bool) → p r ≡ b → IsLater r (if b then f r else r)
    here true e = later r (ground (arith, a.0))
    here false e = IsLater-refl r

-- What an update keeps where it is made holds of all rows.
pub update_where-All {κ} :
    (P : Request → Type κ) (p : Request → Bool) (f : Request → Request) (rs : List Request)
    → ((r : Request) → p r ≡ true → P r → P (f r))
    → All P rs
    → All P (update_where p f rs)
unfolding update_where
update_where-All P p f [] keep h = h
update_where-All P p f (r ∷ rs) keep h = (here (p r) refl, update_where-All P p f rs keep h.1)
  where
    here : (b : Bool) → p r ≡ b → P (if b then f r else r)
    here true e = keep r e h.0
    here false e = h.0
