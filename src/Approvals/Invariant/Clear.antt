-- ===== src/Approvals/Invariant/Clear.antt =====
-- No two requests share a key, and no two pending requests share a code or a subject.
use mac_bennet.Prelude.{
  ℕ, ◌≡◌, ◌<◌, refl, ap, Bool, true, false, ◌&&◌, ◌||◌, not, List, [], ◌∷◌, ◌++◌, All, All-append,
  arith, same_text, ◌==◌, keep, map, if◌then◌else◌,
}
use mathlib.Core.Bool.{cond}
use mac_bennet.Runs.Db.{Text}
use mac_bennet.Approvals.{is_open_approval_state}
use mac_bennet.Approvals.Store.{Request, update_where, includes_id}
use mac_bennet.Approvals.Service.{
  is_pending, same_kind, is_same_subject, clashes, CreateApprovalRequest, new_request,
  supersede_patch,
}
use mac_bennet.Approvals.Rows.{IsLater, IsLater-is_pending, Matches, none_left, row}

unfoldable pub clash : Request → Request → Bool
clash r s =
    r.id == s.id
    || (is_pending r && is_pending s)
      && (same_text r.code s.code
          || (r.task_id == s.task_id && same_kind r.subject_kind s.subject_kind))

abbrev pub IsClear : List Request → Type 0
IsClear [] = Unit
IsClear (r ∷ rs) = All (λ s. clash r s ≡ false) rs × IsClear rs

pub IsLater-clash :
    {r r' s s' : Request} → IsLater r r' → IsLater s s' → clash r s ≡ false → clash r' s' ≡ false
unfolding clash
IsLater-clash {r} {r'} {s} {s'} h k e =
    rw
      (
        h.same_id, k.same_id, h.same_code, k.same_code, h.same_task, k.same_task, h.same_kind,
        k.same_kind,
      )
      (ground (arith, IsLater-is_pending h, IsLater-is_pending k))

clash_rest :
    {r r' : Request} {ss ts : List Request}
    → IsLater r r'
    → Matches ss ts
    → All (λ s. clash r s ≡ false) ss
    → All (λ s. clash r' s ≡ false) ts
clash_rest h none_left a = tt
clash_rest h (row k m) a = (IsLater-clash h k a.0, clash_rest h m a.1)

pub Matches-IsClear : {rs ss : List Request} → Matches rs ss → IsClear rs → IsClear ss
Matches-IsClear none_left c = tt
Matches-IsClear (row h m) c = (clash_rest h m c.0, Matches-IsClear m c.1)

pub IsClear-append :
    (rs : List Request) (r : Request)
    → IsClear rs
    → All (λ s. clash s r ≡ false) rs
    → IsClear (rs ++ (r ∷ []))
IsClear-append [] r c a = (tt, tt)
IsClear-append (x ∷ rs) r c a =
    (All-append _ rs (r ∷ []) c.0 (a.0, tt), IsClear-append rs r c.1 a.1)

-- A row that shares its subject with the new one is among those that are replaced.
includes_id-cons :
    (i id : ℕ) (ids : List ℕ) → includes_id ids id ≡ true → includes_id (i ∷ ids) id ≡ true
unfolding includes_id
includes_id-cons i id ids h = ground arith

abbrev Selected : (Request → Bool) → List ℕ → Request → Type 0
Selected p ids r = not (p r) || includes_id ids r.id ≡ true

Selected-cons :
    (p : Request → Bool) (i : ℕ) (ids : List ℕ) (rs : List Request)
    → All (Selected p ids) rs
    → All (Selected p (i ∷ ids)) rs
unfolding includes_id
Selected-cons p i ids [] a = tt
Selected-cons p i ids (r ∷ rs) a = (ground arith, Selected-cons p i ids rs a.1)

pub keep-Selected :
    (p : Request → Bool) (rs : List Request) → All (Selected p (map (λ r. r.id) (keep p rs))) rs
unfolding includes_id
keep-Selected p [] = tt
keep-Selected p (r ∷ rs) = here (keep-Selected p rs) (p r) refl
  where
    here :
        All (Selected p (map (λ r. r.id) (keep p rs))) rs
        → (b : Bool) → p r ≡ b
        → All (Selected p (map (λ r. r.id) (cond b (r ∷ keep p rs) (keep p rs)))) (r ∷ rs)
    here a true e = (ground arith, Selected-cons p r.id _ rs a)
    here a false e = (ground arith, a)

-- With distinct keys, a key is selected only by its own row.
unselected :
    (p : Request → Bool) (x : Request) (rs : List Request)
    → All (λ s. clash x s ≡ false) rs
    → includes_id (map (λ r. r.id) (keep p rs)) x.id ≡ false
unfolding includes_id clash
unselected p x [] a = refl
unselected p x (r ∷ rs) a = here (unselected p x rs a.1) (p r)
  where
    here :
        includes_id (map (λ r. r.id) (keep p rs)) x.id ≡ false
        → (b : Bool)
        → includes_id (map (λ r. r.id) (cond b (r ∷ keep p rs) (keep p rs))) x.id ≡ false
    here i true = ground (arith, a.0)
    here i false = i

abbrev pub Chosen : (Request → Bool) → List ℕ → Request → Type 0
Chosen p ids r = not (includes_id ids r.id) || p r ≡ true

Chosen-cons :
    (p : Request → Bool) (x : Request) (ids : List ℕ) (rs : List Request)
    → All (λ s. clash x s ≡ false) rs
    → All (Chosen p ids) rs
    → All (Chosen p (x.id ∷ ids)) rs
unfolding includes_id clash
Chosen-cons p x ids [] c a = tt
Chosen-cons p x ids (r ∷ rs) c a = (ground (arith, c.0, a.0), Chosen-cons p x ids rs c.1 a.1)

pub keep-Chosen :
    (p : Request → Bool) (rs : List Request)
    → IsClear rs
    → All (Chosen p (map (λ r. r.id) (keep p rs))) rs
unfolding includes_id
keep-Chosen p [] c = tt
keep-Chosen p (r ∷ rs) c = here (keep-Chosen p rs c.1) (p r) refl
  where
    here :
        All (Chosen p (map (λ r. r.id) (keep p rs))) rs
        → (b : Bool) → p r ≡ b
        → All (Chosen p (map (λ r. r.id) (cond b (r ∷ keep p rs) (keep p rs)))) (r ∷ rs)
    here a true e = (ground arith, Chosen-cons p r _ rs c.0 a)
    here a false e = (ground (arith, unselected p r rs c.0), a)

pub update_where-append :
    (p : Request → Bool) (f : Request → Request) (rs ss : List Request)
    → update_where p f (rs ++ ss) ≡ update_where p f rs ++ update_where p f ss
unfolding update_where
update_where-append p f [] ss = refl
update_where-append p f (r ∷ rs) ss =
    ap (λ l. (if p r then f r else r) ∷ l) (update_where-append p f rs ss)

module _ (input : CreateApprovalRequest) (code : Text) (now id : ℕ) (ids : List ℕ) where
  superseded_clash :
      (r : Request)
      → r.id < id
      → clash (supersede_patch id now r) (new_request input code now id) ≡ false
  unfolding clash supersede_patch is_pending is_open_approval_state new_request
  superseded_clash r l = ground arith

  -- The new row clashes with nothing once what shares its subject is superseded.
  pub created_clash :
      (rs : List Request)
      → All (Selected (is_same_subject input.task_id input.subject_kind) ids) rs
      → clashes code rs ≡ false
      → All (λ r. r.id < id) rs
      → All
          (λ r. clash r (new_request input code now id) ≡ false)
          (update_where (λ r. includes_id ids r.id) (supersede_patch id now) rs)
  unfolding update_where clashes clash new_request is_same_subject
  created_clash [] a c l = tt
  created_clash (r ∷ rs) a c l =
      (here (includes_id ids r.id) refl, created_clash rs a.1 (ground arith) l.1)
    where
      here :
          (b : Bool)
          → includes_id ids r.id ≡ b
          → clash (if b then supersede_patch id now r else r) (new_request input code now id)
            ≡ false
      here true e = superseded_clash r l.0
      here false e = ground (arith, a.0, l.0)
