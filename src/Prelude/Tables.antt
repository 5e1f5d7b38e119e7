-- ===== src/Prelude/Tables.antt =====
-- Tables of rows: updates with a condition, and how a table changes over time for a relation
-- between an earlier and a later state of a row.
use mathlib.Core.Path.{◌≡◌, refl, subst, ◌∙◌}
use mathlib.Core.Logic.{◌⊎◌, inl, inr}
use native.Mathlib.Omega.{arith}
use mathlib.Core.Bool.{Bool, true, false}
use mathlib.Core.List.{List, [], ◌∷◌, ◌++◌}
use mathlib.Core.Option.{Option, none, some}
use mac_bennet.Prelude.Tests.{if◌then◌else◌, Bool-cases}
use mac_bennet.Prelude.Lists.{All, All-append, All-weaken, All-zip}

module _ {A : Type 0} where
  -- `update(table).set(...).where(...)`
  unfoldable pub update_rows : (A → Bool) → (A → A) → List A → List A
  update_rows p f [] = []
  update_rows p f (r ∷ rs) = (if p r then f r else r) ∷ update_rows p f rs

  -- `select().from(table).where(...).limit(1)`
  unfoldable pub find_row : (A → Bool) → List A → Option A
  find_row p [] = none
  find_row p (r ∷ rs) = if p r then some r else find_row p rs

  -- No two rows meet a test.
  abbrev pub Pairwise : (A → A → Bool) → List A → Type 0
  Pairwise clash [] = Unit
  Pairwise clash (r ∷ rs) = All (λ s. clash r s ≡ false) rs × Pairwise clash rs

  pub Pairwise-append :
      (clash : A → A → Bool) (rs : List A) (r : A)
      → Pairwise clash rs
      → All (λ s. clash s r ≡ false) rs
      → Pairwise clash (rs ++ (r ∷ []))
  Pairwise-append clash [] r c a = (tt, tt)
  Pairwise-append clash (x ∷ rs) r c a =
      (All-append _ rs (r ∷ []) c.0 (a.0, tt), Pairwise-append clash rs r c.1 a.1)

  pub find_row-found : (p : A → Bool) (rs : List A) (r : A) → find_row p rs ≡ some r → p r ≡ true
  unfolding find_row
  find_row-found p [] r e = absurd (cc)
  find_row-found p (x ∷ rs) r e = elim (Bool-cases (p x)) [
    | inl hit ↦ let same : x ≡ r = ground arith in subst (λ y. p y ≡ true) same hit
    | inr miss ↦ find_row-found p rs r (ground arith)
  ]

  pub find_row-All {κ} :
      (P : A → Type κ) (p : A → Bool) (rs : List A) (r : A)
      → All P rs
      → find_row p rs ≡ some r
      → P r
  unfolding find_row
  find_row-All P p [] r a e = absurd (cc)
  find_row-All P p (x ∷ rs) r a e = elim (Bool-cases (p x)) [
    | inl hit ↦ let same : x ≡ r = ground arith in subst P same a.0
    | inr miss ↦ find_row-All P p rs r a.1 (ground arith)
  ]

  -- Of two rows of such a table, in any order, either they are one or they do not meet the test.
  pub Pairwise-other :
      (clash : A → A → Bool)
      → ((r s : A) → clash r s ≡ false → clash s r ≡ false)
      → (rs : List A) → Pairwise clash rs
      → All (λ r. All (λ s. (s ≡ r) ⊎ (clash r s ≡ false)) rs) rs
  Pairwise-other clash symmetric [] c = tt
  Pairwise-other clash symmetric (x ∷ xs) c = (
    (inl refl, All-weaken _ (λ s e. inr e) xs c.0),
    All-weaken _ (λ r h. (inr (symmetric x r h.0), h.1)) xs
        (All-zip _ _ xs c.0 (Pairwise-other clash symmetric xs c.1)),
  )

  -- Twice the same rows.
  pub update_rows-update_rows :
      (p : A → Bool) (f g : A → A)
      → ((r : A) → p (f r) ≡ p r)
      → (rs : List A) → update_rows p g (update_rows p f rs) ≡ update_rows p (λ r. g (f r)) rs
  unfolding update_rows
  update_rows-update_rows p f g same [] = refl
  update_rows-update_rows p f g same (r ∷ rs) =
      let rest = update_rows-update_rows p f g same rs in
      elim (Bool-cases (p r)) [
        | inl hit ↦ let again : p (f r) ≡ true = same r ∙ hit in simp (hit, again, rest)
        | inr miss ↦ simp (miss, rest)
      ]

module _ {A : Type 0} (R : A → A → Type 0) where
  -- Row by row, with new rows at the end.
  pub data Extends : List A → List A → Type 0 where
    fresh : (ss : List A) → Extends [] ss
    next : {r s : A} {rs ss : List A} → R r s → Extends rs ss → Extends (r ∷ rs) (s ∷ ss)

  -- Row by row.
  pub data Follows : List A → List A → Type 0 where
    stop : Follows [] []
    each : {r s : A} {rs ss : List A} → R r s → Follows rs ss → Follows (r ∷ rs) (s ∷ ss)

  pub Follows-Extends : {rs ss : List A} → Follows rs ss → Extends rs ss
  Follows-Extends stop = fresh []
  Follows-Extends (each h m) = next h (Follows-Extends m)

  pub Extends-append : {rs ss : List A} (ts : List A) → Extends rs ss → Extends rs (ss ++ ts)
  Extends-append ts (fresh ss) = fresh (ss ++ ts)
  Extends-append ts (next h g) = next h (Extends-append ts g)

  pub Extends-trans :
      ((r s t : A) → R r s → R s t → R r t)
      → {rs ss ts : List A} → Extends rs ss
      → Extends ss ts
      → Extends rs ts
  Extends-trans trans (fresh ss) k = fresh _
  Extends-trans trans (next h g) (next h' k) = next (trans _ _ _ h h') (Extends-trans trans g k)

  pub Follows-refl : ((r : A) → R r r) → (rs : List A) → Follows rs rs
  Follows-refl same [] = stop
  Follows-refl same (r ∷ rs) = each (same r) (Follows-refl same rs)

  pub Follows-All {κ} :
      (P : A → Type κ)
      → ((r s : A) → R r s → P r → P s)
      → {rs ss : List A} → Follows rs ss
      → All P rs
      → All P ss
  Follows-All P keep stop h = h
  Follows-All P keep (each l m) h = (keep _ _ l h.0, Follows-All P keep m h.1)

  pub update_rows-Follows :
      (p : A → Bool) (f : A → A) (rs : List A)
      → ((r : A) → R r r)
      → ((r : A) → p r ≡ true → R r (f r))
      → Follows rs (update_rows p f rs)
  unfolding update_rows
  update_rows-Follows p f [] same later = stop
  update_rows-Follows p f (r ∷ rs) same later =
      each (here (p r) refl) (update_rows-Follows p f rs same later)
    where
      here : (b : Bool) → p r ≡ b → R r (if b then f r else r)
      here true e = later r e
      here false e = same r

  -- A test that later states cannot come to meet.
  module _ (clash : A → A → Bool)
      (keep : (r r' s s' : A) → R r r' → R s s' → clash r s ≡ false → clash r' s' ≡ false) where
    clash_rest :
        {r r' : A} {ss ts : List A}
        → R r r'
        → Follows ss ts
        → All (λ s. clash r s ≡ false) ss
        → All (λ s. clash r' s ≡ false) ts
    clash_rest h stop a = tt
    clash_rest h (each k m) a = (keep _ _ _ _ h k a.0, clash_rest h m a.1)

    pub Follows-Pairwise : {rs ss : List A} → Follows rs ss → Pairwise clash rs → Pairwise clash ss
    Follows-Pairwise stop c = tt
    Follows-Pairwise (each h m) c = (clash_rest h m c.0, Follows-Pairwise m c.1)

module _ {A : Type 0} where
  -- Row by row, with a second table or a property of the first.
  pub Follows-compose :
      (R S T : A → A → Type 0)
      → ((r s t : A) → R r s → S s t → T r t)
      → {rs ss ts : List A} → Follows R rs ss
      → Follows S ss ts
      → Follows T rs ts
  Follows-compose R S T h stop stop = stop
  Follows-compose R S T h (each k m) (each k' m') =
      each (h _ _ _ k k') (Follows-compose R S T h m m')

  pub Follows-weaken :
      (Q : A → Type 0) (R S : A → A → Type 0)
      → ((r s : A) → Q r → R r s → S r s)
      → {rs ss : List A} → All Q rs
      → Follows R rs ss
      → Follows S rs ss
  Follows-weaken Q R S h q stop = stop
  Follows-weaken Q R S h q (each k m) = each (h _ _ q.0 k) (Follows-weaken Q R S h q.1 m)
