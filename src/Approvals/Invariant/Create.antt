-- ===== src/Approvals/Invariant/Create.antt =====
-- The creation of a request keeps the invariants.
use mac_bennet.Prelude.{
  ℕ, ◌+◌, ◌≡◌, ◌<◌, refl, ap, subst, sym, Bool, true, false, inl, List, [], ◌∷◌, ◌++◌, All,
  All-append, All-weaken, arith, if◌then◌else◌,
}
use mac_bennet.Runs.Db.{Text}
use mac_bennet.Approvals.{is_open_approval_state}
use mac_bennet.Approvals.Store.{Request, update_where, includes_id}
use mac_bennet.Approvals.Service.{
  is_pending, CreateApprovalRequest, new_request, supersede_patch, same_subject_ids,
  is_same_subject, clashes,
}
use mac_bennet.Approvals.Rows.{
  IsLater, IsLater-refl, Grows-append, update_where-pending, update_where-All,
}
use mac_bennet.Approvals.Invariant.{IsKept, Keeps, Matches-Keeps, is_granted, is_allowed}
use mac_bennet.Approvals.Invariant.Clear.{
  IsClear-append, keep-Chosen, keep-Selected, clash, IsLater-clash, created_clash,
  update_where-append,
}

pub supersede_patch-IsLater :
    (by now : ℕ) (r : Request) → is_pending r ≡ true → IsLater r (supersede_patch by now r)
unfolding supersede_patch
supersede_patch-IsLater by now r e = record {
  same_id = refl;
  same_code = refl;
  same_kind = refl;
  same_version = refl;
  same_task = refl;
  same_run = refl;
  same_authority = refl;
  same_expiry = refl;
  frozen = inl e;
}

pub update_where_none :
    (f : Request → Request) (rs : List Request) → update_where (λ r. includes_id [] r.id) f rs ≡ rs
unfolding update_where includes_id
update_where_none f [] = refl
update_where_none f (r ∷ rs) = ap (λ l. r ∷ l) (update_where_none f rs)

module _ (input : CreateApprovalRequest) (code : Text) (now n : ℕ) (rs : List Request) where
  abbrev ids : List ℕ
  ids = same_subject_ids input rs

  abbrev replaced : Request → Bool
  replaced r = includes_id ids r.id

  old_Keeps : IsKept n rs → Keeps n rs n (update_where replaced (supersede_patch n now) rs)
  unfolding is_granted supersede_patch same_subject_ids is_same_subject
  old_Keeps k =
      Matches-Keeps k
        (update_where-pending replaced (supersede_patch n now) rs (supersede_patch-IsLater n now) (
          All-weaken _ (λ r c. ground (arith, c)) rs
            (keep-Chosen (is_same_subject input.task_id input.subject_kind) rs k.clear)))
        (update_where-All (λ r. is_granted r ≡ true) replaced (supersede_patch n now) rs
          (λ r e g. refl) k.granted)

  abbrev row : Request
  row = new_request input code now n

  -- The new row, whether it is replaced or not.
  abbrev landed : Bool → Request
  landed b = if b then supersede_patch n now row else row

  landed-IsLater : (b : Bool) → IsLater row (landed b)
  unfolding new_request is_pending is_open_approval_state
  landed-IsLater true = supersede_patch-IsLater n now row refl
  landed-IsLater false = IsLater-refl row

  landed_granted : (b : Bool) → is_granted (landed b) ≡ true
  unfolding new_request supersede_patch is_granted
  landed_granted true = refl
  landed_granted false = refl

  landed_id : (b : Bool) → (landed b).id ≡ n
  unfolding new_request supersede_patch
  landed_id true = refl
  landed_id false = refl

  landed_allowed : (b : Bool) (id : ℕ) → id < n → is_allowed id (landed b) ≡ true
  unfolding is_allowed
  landed_allowed b id l = rw (landed_id b) (ground arith)

  appended_Keeps :
      (b : Bool) (ss : List Request)
      → Keeps n rs n ss
      → All (λ s. clash s row ≡ false) ss
      → Keeps n rs (n + 1) (ss ++ (landed b ∷ []))
  appended_Keeps b ss k c = record {
    kept = record {
      keys =
          All-append _ ss _ (All-weaken _ (λ r l. omega (arith, l)) ss k.kept.keys)
            (omega (arith, landed_id b), tt);
      clear =
          IsClear-append ss (landed b) k.kept.clear
            (All-weaken _ (λ s e. IsLater-clash (IsLater-refl s) (landed-IsLater b) e) ss c);
      granted = All-append _ ss _ k.kept.granted (landed_granted b, tt);
    };
    grown = Grows-append (landed b ∷ []) k.grown;
    permit = λ id l a.
        let p = k.permit id l a in
        (omega (arith, l), All-append _ ss _ p.1 (landed_allowed b id l, tt));
  }

  -- The table after the insertion and the update of what the new request replaces.
  pub create_Keeps :
      IsKept n rs
      → clashes code rs ≡ false
      → Keeps n rs (n + 1) (update_where replaced (supersede_patch n now) (rs ++ (row ∷ [])))
  unfolding update_where same_subject_ids
  create_Keeps k c =
      subst (Keeps n rs (n + 1))
        (sym (update_where-append replaced (supersede_patch n now) rs (row ∷ [])))
        (appended_Keeps (replaced row) _ (old_Keeps k) (
          created_clash input code now n ids rs
            (keep-Selected (is_same_subject input.task_id input.subject_kind) rs) c k.keys))
