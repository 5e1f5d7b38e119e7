-- ===== src/Monday/Invariant/Tried.antt =====
-- That a sweep tries each write that is due once, in order, and that its row is settled by the answer.
use mac_bennet.Prelude.{
  ℕ, ◌+◌, ◌≡◌, refl, ap, ◌∙◌, Bool, true, false, inl, inr, List, [], ◌∷◌, Option, none, some, ◌==◌,
  leb, All, All-weaken, All-zip, arith, if◌then◌else◌, Bool-cases, Pairwise, update_rows, find_row,
}
use mac_bennet.Runs.Db.{Text, Actor}
use mac_bennet.Monday.{Board, Write, Outbox, Client, is_due}
use mac_bennet.Monday.Perform.{perform_write}
use mac_bennet.Monday.Delivery.{
  DeliveryOutcome, join_board, due_rows, insert_row, order_rows, claim_write, settle_write,
  deliver_one, deliver_each, count_result,
}
use mac_bennet.Monday.Permitted.Sweep.{insert_row-All, order_rows-All, due_rows-All}
use mac_bennet.Monday.Invariant.{same_id, settle_write-IsSame}
use mac_bennet.Monday.Invariant.Sweep.{deliver_one-writes}

-- The row under a key.
abbrev pub row_of : ℕ → List Write → Option Write
row_of id rs = find_row (λ y. y.id == id) rs

module _ {W : Type 0} (client : Client W) (configured : Option Text) (now : ℕ) where
  -- What a row becomes when its write is tried in a state of the provider.
  abbrev pub settled_by : W → Write × Board → Write → Write
  settled_by w x y =
      let p = perform_write client configured x.0 x.1 w in
      settle_write (x.0.attempts + 1) now (client.time p.1) p.0 (claim_write (x.0.attempts + 1) y)

  -- The writes tried one after the other: their rows, and what the provider keeps in the end.
  abbrev pub tried : List (Write × Board) → W → List Write × W
  tried [] w = ([], w)
  tried (x ∷ xs) w =
      let rest = tried xs (perform_write client configured x.0 x.1 w).1 in
      (settled_by w x x.0 ∷ rest.0, rest.1)

  pub deliver_each-tried :
      (actor : Actor) (xs : List (Write × Board)) (c : DeliveryOutcome) (o : Outbox) (w : W)
      → (deliver_each client configured actor now xs c o w).2 ≡ (tried xs w).1
  unfolding deliver_each deliver_one
  deliver_each-tried actor [] c o w = refl
  deliver_each-tried actor (x ∷ xs) c o w = deliver_each-tried actor xs _ _ _

-- Rows by their keys after an update of the rows of one key.
module _ (id : ℕ) (f : Write → Write) (keeps : (r : Write) → (f r).id ≡ r.id) where
  row_of-updated :
      (rs : List Write) (r : Write)
      → row_of id rs ≡ some r
      → row_of id (update_rows (λ y. y.id == id) f rs) ≡ some (f r)
  unfolding find_row update_rows
  row_of-updated [] r e = absurd (cc)
  row_of-updated (x ∷ rs) r e = elim (Bool-cases (x.id == id)) [
    | inl hit ↦
        let same : some x ≡ some r = rw hit at e in
        let again : ((f x).id == id) ≡ true = rw (keeps x) hit in
        rw (hit, again) (ap (λ o. elim o [ none ↦ none | some y ↦ some (f y) ]) same)
    | inr miss ↦ rw (miss, miss) (row_of-updated rs r (rw miss at e))
  ]

  row_of-other :
      (other : ℕ) (rs : List Write)
      → (other == id) ≡ false
      → row_of other (update_rows (λ y. y.id == id) f rs) ≡ row_of other rs
  unfolding find_row update_rows
  row_of-other other [] d = refl
  row_of-other other (x ∷ rs) d = elim (Bool-cases (x.id == id)) [
    | inl hit ↦
        let miss : (x.id == other) ≡ false = ground arith in
        let again : ((f x).id == other) ≡ false = rw (keeps x) miss in
        rw (hit, again, miss) (row_of-other other rs d)
    | inr miss ↦ rw (miss, row_of-other other rs d) refl
  ]

pub same_key : Write × Board → Write × Board → Bool
same_key x y = same_id x.0 y.0

row_of_self : (rs : List Write) → Pairwise same_id rs → All (λ r. row_of r.id rs ≡ some r) rs
unfolding find_row same_id
row_of_self [] c = tt
row_of_self (x ∷ rs) c =
    (ground arith, All-weaken _ (λ r h. rw h.0 (h.1)) rs (All-zip _ _ rs c.0 (row_of_self rs c.1)))

same_key_symmetric : (x y : Write × Board) → same_key x y ≡ false → same_key y x ≡ false
unfolding same_key same_id
same_key_symmetric x y e = ground arith

insert_row-Pairwise :
    (x : Write × Board) (xs : List (Write × Board))
    → All (λ y. same_key x y ≡ false) xs
    → Pairwise same_key xs
    → Pairwise same_key (insert_row x xs)
unfolding insert_row
insert_row-Pairwise x [] a c = (tt, tt)
insert_row-Pairwise x (y ∷ ys) a c =
    first (insert_row-Pairwise x ys a.1 c.1) (leb x.0.created_at y.0.created_at)
  where
    first :
        Pairwise same_key (insert_row x ys)
        → (b : Bool) → Pairwise same_key (if b then x ∷ y ∷ ys else y ∷ insert_row x ys)
    first rest true = (a, c)
    first rest false =
        (insert_row-All (λ z. same_key y z ≡ false) x ys (same_key_symmetric x y a.0) c.0, rest)

pub order_rows-Pairwise :
    (xs : List (Write × Board)) → Pairwise same_key xs → Pairwise same_key (order_rows xs)
unfolding order_rows
order_rows-Pairwise [] c = tt
order_rows-Pairwise (x ∷ xs) c =
    insert_row-Pairwise x _ (order_rows-All (λ y. same_key x y ≡ false) xs c.0)
      (order_rows-Pairwise xs c.1)

pub due_rows-Pairwise :
    (now : ℕ) (boards : List Board) (ws : List Write)
    → Pairwise same_id ws
    → Pairwise same_key (due_rows now boards ws)
unfolding due_rows join_board same_key
due_rows-Pairwise now boards [] c = tt
due_rows-Pairwise now boards (w ∷ ws) c =
    due (due_rows-Pairwise now boards ws c.1) (is_due now w)
      (find_row (λ b. b.id == w.board_row_id) boards)
  where
    due :
        Pairwise same_key (due_rows now boards ws)
        → (b : Bool) (o : Option Board)
        → Pairwise same_key
            (if b then join_board w o (due_rows now boards ws) else due_rows now boards ws)
    due rest false o = rest
    due rest true none = rest
    due rest true (some x) = (
      due_rows-All (λ y. same_key (w, x) y ≡ false) now boards ws
          (All-weaken _ (λ v e b d f. e) ws c.0),
      rest,
    )

-- Every row that is due is the row of its key.
pub due_rows-row_of :
    (now : ℕ) (boards : List Board) (ws : List Write)
    → Pairwise same_id ws
    → All (λ x. row_of x.0.id ws ≡ some x.0) (due_rows now boards ws)
due_rows-row_of now boards ws c =
    due_rows-All _ now boards ws (All-weaken _ (λ w e b d f. e) ws (row_of_self ws c))

module _ {W : Type 0} (client : Client W) (configured : Option Text) (actor : Actor) (now : ℕ) where
  -- A delivery of other keys leaves the row of this one.
  row_of-kept :
      (id : ℕ) (xs : List (Write × Board)) (c : DeliveryOutcome) (o : Outbox) (w : W)
      → All (λ x. (id == x.0.id) ≡ false) xs
      → row_of id (deliver_each client configured actor now xs c o w).1.writes ≡ row_of id o.writes
  unfolding deliver_each
  row_of-kept id [] c o w d = refl
  row_of-kept id (x ∷ xs) c o w d =
      row_of-kept id xs _ _ _ d.1
      ∙ ap (row_of id) (deliver_one-writes client configured actor now x o w)
      ∙ row_of-other x.0.id (settled_by client configured now w x)
          (λ r. (settle_write-IsSame _ now _ _ r).id) id o.writes d.0

  pub deliver_each-settles :
      (xs : List (Write × Board)) (c : DeliveryOutcome) (o : Outbox) (w : W)
      → Pairwise same_key xs
      → All (λ x. row_of x.0.id o.writes ≡ some x.0) xs
      → All
          (λ r. row_of r.id (deliver_each client configured actor now xs c o w).1.writes ≡ some r)
          (tried client configured now xs w).0
  unfolding deliver_each deliver_one same_key same_id
  deliver_each-settles [] c o w p a = tt
  deliver_each-settles (x ∷ xs) c o w p a =
      let f = settled_by client configured now w x in
      let keeps : (r : Write) → (f r).id ≡ r.id = λ r. (settle_write-IsSame _ now _ _ r).id in
      let one = deliver_one client configured actor now x.0 x.1 o w in
      let counted = count_result (x.0.attempts + 1) one.0 c in
      let writes = deliver_one-writes client configured actor now x o w in
      let mine : row_of x.0.id one.1.writes ≡ some (f x.0) =
        ap (row_of x.0.id) writes ∙ row_of-updated x.0.id f keeps o.writes x.0 a.0 in
      let others : All (λ y. row_of y.0.id one.1.writes ≡ some y.0) xs =
        All-weaken _
          (λ y h.
            ap (row_of y.0.id) writes
            ∙ row_of-other x.0.id f keeps y.0.id o.writes (same_key_symmetric x y h.0)
            ∙ h.1)
          xs (All-zip _ _ xs p.0 a.1) in
      (
        ap
              (λ i.
                row_of i (deliver_each client configured actor now xs counted one.1 one.2).1.writes)
              (keeps x.0)
            ∙ row_of-kept x.0.id xs counted one.1 one.2 p.0
            ∙ mine,
        deliver_each-settles xs counted one.1 one.2 p.1 others,
      )
