-- ===== src/Runs/Db/Rows.antt =====
-- Lemmas on the rows of the runs table.
use mac_bennet.Prelude.{
  ℕ, ◌≡◌, true, ◌∙◌, ap, ◌≤◌, ◌<◌, ◌+◌, ◌++◌, suc, Any, ==_iff, refl, List, [], ◌∷◌, none, some,
  All, arith, Bool-cases, inl, inr, ◌==◌, subst, sym,
}
use mac_bennet.Runs.Db.{Run, get_run, update_run}

pub some-inj : {a b : Run} → some a ≡ some b → a ≡ b
some-inj e = cc

-- A predicate of all rows is kept by a write that keeps it on the row found.
pub All-update_run {κ} :
    (P : Run → Type κ) (id : ℕ) (f : Run → Run) (rs : List Run) {r : Run}
    → All P rs
    → get_run id rs ≡ some r
    → (P r → P (f r))
    → All P (update_run id f rs)
unfolding get_run update_run
All-update_run P id f [] h e k = tt
All-update_run P id f (x ∷ rs) {r} h e k = elim (Bool-cases (x.id == id)) [
  | inl hit ↦
      let found : x ≡ r = some-inj (rw hit at e) in
      rw hit (subst (λ y. P (f y)) (sym found) (k (subst P found h.0)), h.1)
  | inr miss ↦ rw miss (h.0, All-update_run P id f rs h.1 (rw miss at e) k)
]

-- The keys rise along the table, from `lo` up to the next key to be given out.
abbrev pub IsKeyed : ℕ → List Run → ℕ → Type 0
IsKeyed lo [] hi = lo ≤ hi
IsKeyed lo (r ∷ rs) hi = (lo ≤ r.id) × IsKeyed (suc r.id) rs hi

pub IsKeyed-append :
    (lo : ℕ) (rs : List Run) (hi : ℕ) (row : Run)
    → IsKeyed lo rs hi
    → row.id ≡ hi
    → IsKeyed lo (rs ++ (row ∷ [])) (hi + 1)
IsKeyed-append lo [] hi row h e = omega arith
IsKeyed-append lo (r ∷ rs) hi row h e = (h.0, IsKeyed-append (suc r.id) rs hi row h.1 e)

get_run_below :
    (id lo : ℕ) (rs : List Run) (hi : ℕ) → IsKeyed lo rs hi → id < lo → get_run id rs ≡ none
unfolding get_run
get_run_below id lo [] hi h lt = refl
get_run_below id lo (r ∷ rs) hi h lt =
    ground (arith, get_run_below id (suc r.id) rs hi h.1 (omega arith))

key_bound : (lo : ℕ) (rs : List Run) (hi : ℕ) → IsKeyed lo rs hi → lo ≤ hi
key_bound lo [] hi h = h
key_bound lo (r ∷ rs) hi h = omega (arith, key_bound (suc r.id) rs hi h.1)

pub get_run-append :
    (lo : ℕ) (rs : List Run) (hi : ℕ) (row : Run)
    → IsKeyed lo rs hi
    → row.id ≡ hi
    → get_run hi (rs ++ (row ∷ [])) ≡ some row
unfolding get_run
get_run-append lo [] hi row h e = ground arith
get_run-append lo (r ∷ rs) hi row h e =
    ground (arith, get_run-append (suc r.id) rs hi row h.1 e, key_bound (suc r.id) rs hi h.1)

-- A row of the table is the one found under its key.
pub get_run_of_member :
    (lo : ℕ) (rs : List Run) (hi : ℕ) (r : Run)
    → IsKeyed lo rs hi
    → Any (λ x. x ≡ r) rs
    → get_run r.id rs ≡ some r
unfolding get_run
get_run_of_member lo [] hi r h m = absurd m
get_run_of_member lo (x ∷ rs) hi r h (inl e) = ground arith
get_run_of_member lo (x ∷ rs) hi r h (inr m) =
    ground
      (arith, get_run_of_member (suc x.id) rs hi r h.1 m, get_run_below r.id (suc x.id) rs hi h.1)

pub get_run-id : (id : ℕ) (rs : List Run) (r : Run) → get_run id rs ≡ some r → r.id ≡ id
unfolding get_run
get_run-id id [] r e = cc
get_run-id id (x ∷ rs) r e = ground (arith, get_run-id id rs r)

pub get_run-update_run :
    (id : ℕ) (f : Run → Run) (rs : List Run) (r : Run)
    → get_run id rs ≡ some r
    → (f r).id ≡ id
    → get_run id (update_run id f rs) ≡ some (f r)
unfolding get_run update_run
get_run-update_run id f [] r e k = cc
get_run-update_run id f (x ∷ rs) r e k = elim (Bool-cases (x.id == id)) [
  | inl hit ↦
      let found : x ≡ r = some-inj (rw hit at e) in
      let here : ((f x).id == id) ≡ true = (==_iff (f x).id id).1 (rw found k) in
      rw hit (rw here (ap (λ y. some (f y)) found))
  | inr miss ↦ rw miss (rw miss (get_run-update_run id f rs r (rw miss at e) k))
]

pub IsKeyed-update_run :
    (lo id : ℕ) (f : Run → Run) (rs : List Run) (hi : ℕ) (r : Run)
    → IsKeyed lo rs hi
    → get_run id rs ≡ some r
    → (f r).id ≡ id
    → IsKeyed lo (update_run id f rs) hi
unfolding get_run update_run
IsKeyed-update_run lo id f [] hi r h e k = h
IsKeyed-update_run lo id f (x ∷ rs) hi r h e k = elim (Bool-cases (x.id == id)) [
  | inl hit ↦
      let found : x ≡ r = some-inj (rw hit at e) in
      let same : x.id ≡ id = (==_iff x.id id).0 hit in
      let kept : (f x).id ≡ x.id = ap (λ y. (f y).id) found ∙ k ∙ sym same in rw hit (rw kept h)
  | inr miss ↦ rw miss (h.0, IsKeyed-update_run (suc x.id) id f rs hi r h.1 (rw miss at e) k)
]
