-- ===== src/Night/Scheduler/Order.antt =====
-- The order of candidates: sorting by a comparator that is a strict weak order.
use mac_bennet.Prelude.{
  ◌≡◌, ◌⊎◌, String, Bool, true, false, List, [], ◌∷◌, Option, inl, inr, All, Any, arith, Bool-cases,
}
use mac_bennet.Night.Scheduler.{
  NightCandidate, sort_key, comes_before, insert_candidate, order_candidates,
}

-- What `localeCompare` is documented to be: a consistent comparison.
pub record IsCollation (before : String → String → Bool) : Type 0 where
  pub asym : (a b : String) → before a b ≡ true → before b a ≡ false
  pub weak : (a b c : String) → before a b ≡ false → before b c ≡ false → before a c ≡ false

module _ (before : String → String → Bool) (collation : IsCollation before)
    (project : Option String) where
  comes_before_asym :
      (a b : NightCandidate)
      → comes_before before project a b ≡ true
      → comes_before before project b a ≡ false
  unfolding comes_before
  comes_before_asym a b h = ground (arith, collation.asym (sort_key a) (sort_key b))

  comes_before_weak :
      (a b c : NightCandidate)
      → comes_before before project a b ≡ false
      → comes_before before project b c ≡ false
      → comes_before before project a c ≡ false
  unfolding comes_before
  comes_before_weak a b c h k =
      ground (arith, collation.weak (sort_key a) (sort_key b) (sort_key c))

  pub comes_before_irrefl : (a : NightCandidate) → comes_before before project a a ≡ false
  comes_before_irrefl a = elim (Bool-cases (comes_before before project a a)) [
    | inl e ↦ comes_before_asym a a e
    | inr e ↦ e
  ]

  -- Nobody comes strictly before one who stands earlier.
  abbrev pub IsSorted : List NightCandidate → Type 0
  IsSorted [] = Unit
  IsSorted (x ∷ xs) = All (λ y. comes_before before project y x ≡ false) xs × IsSorted xs

  All-insert_candidate :
      (P : NightCandidate → Type 0) (c : NightCandidate) (xs : List NightCandidate)
      → P c
      → All P xs
      → All P (insert_candidate before project c xs)
  unfolding insert_candidate
  All-insert_candidate P c [] h k = (h, tt)
  All-insert_candidate P c (x ∷ xs) h k = elim (Bool-cases (comes_before before project x c)) [
    | inl e ↦ rw e (k.0, All-insert_candidate P c xs h k.1)
    | inr e ↦ rw e (h, k)
  ]

  weaken :
      (c x : NightCandidate) (xs : List NightCandidate)
      → comes_before before project x c ≡ false
      → All (λ y. comes_before before project y x ≡ false) xs
      → All (λ y. comes_before before project y c ≡ false) xs
  weaken c x [] e h = tt
  weaken c x (y ∷ ys) e h = (comes_before_weak y x c h.0 e, weaken c x ys e h.1)

  insert_candidate-IsSorted :
      (c : NightCandidate) (xs : List NightCandidate)
      → IsSorted xs
      → IsSorted (insert_candidate before project c xs)
  unfolding insert_candidate
  insert_candidate-IsSorted c [] h = (tt, tt)
  insert_candidate-IsSorted c (x ∷ xs) h = elim (Bool-cases (comes_before before project x c)) [
    | inl e ↦ rw e (
      All-insert_candidate _ c xs (comes_before_asym x c e) h.0,
      insert_candidate-IsSorted c xs h.1,
    )
    | inr e ↦ rw e ((e, weaken c x xs e h.0), h)
  ]

  pub order_candidates-IsSorted :
      (cs : List NightCandidate) → IsSorted (order_candidates before project cs)
  unfolding order_candidates
  order_candidates-IsSorted [] = tt
  order_candidates-IsSorted (c ∷ cs) = insert_candidate-IsSorted c _ (order_candidates-IsSorted cs)

module _ (before : String → String → Bool) (project : Option String) where
  insert_candidate-Any :
      (c q : NightCandidate) (xs : List NightCandidate)
      → (c ≡ q) ⊎ Any (λ x. x ≡ q) xs
      → Any (λ x. x ≡ q) (insert_candidate before project c xs)
  unfolding insert_candidate
  insert_candidate-Any c q [] h = h
  insert_candidate-Any c q (x ∷ xs) h = elim (Bool-cases (comes_before before project x c)) [
    | inr e ↦ rw e h
    | inl e ↦ rw e (elim h [
      | inl is_c ↦ inr (insert_candidate-Any c q xs (inl is_c))
      | inr rest ↦ elim rest [
        | inl is_x ↦ inl is_x
        | inr later ↦ inr (insert_candidate-Any c q xs (inr later))
      ]
    ])
  ]

  Any-insert_candidate :
      (c q : NightCandidate) (xs : List NightCandidate)
      → Any (λ x. x ≡ q) (insert_candidate before project c xs)
      → (c ≡ q) ⊎ Any (λ x. x ≡ q) xs
  unfolding insert_candidate
  Any-insert_candidate c q [] h = h
  Any-insert_candidate c q (x ∷ xs) h = elim (Bool-cases (comes_before before project x c)) [
    | inr e ↦ rw e at h
    | inl e ↦ elim (rw e at h) [
      | inl is_x ↦ inr (inl is_x)
      | inr later ↦ elim (Any-insert_candidate c q xs later) [
        | inl is_c ↦ inl is_c
        | inr more ↦ inr (inr more)
      ]
    ]
  ]

  -- Ordering keeps the candidates.
  pub Any-order_candidates :
      (q : NightCandidate) (cs : List NightCandidate)
      → Any (λ x. x ≡ q) (order_candidates before project cs)
      → Any (λ x. x ≡ q) cs
  unfolding order_candidates
  Any-order_candidates q [] h = h
  Any-order_candidates q (c ∷ cs) h =
      elim (Any-insert_candidate c q (order_candidates before project cs) h) [
        | inl is_c ↦ inl is_c
        | inr later ↦ inr (Any-order_candidates q cs later)
      ]

  pub order_candidates-Any :
      (q : NightCandidate) (cs : List NightCandidate)
      → Any (λ x. x ≡ q) cs
      → Any (λ x. x ≡ q) (order_candidates before project cs)
  unfolding order_candidates
  order_candidates-Any q [] h = h
  order_candidates-Any q (c ∷ cs) h =
      insert_candidate-Any c q (order_candidates before project cs)
        (elim h [ inl is_c ↦ inl is_c | inr later ↦ inr (order_candidates-Any q cs later) ])
