-- ===== src/Monday/Invariant/Clears.antt =====
-- A sweep tries what is due, and after it nothing is.
use mac_bennet.Prelude.{
  ℕ, zero, suc, ◌≡◌, ◌⊎◌, ◌≤◌, refl, sym, ap, subst, ◌∙◌, Bool, true, false, inl, inr, List, [],
  ◌∷◌, Option, none, some, ◌==◌, leb, length, All, All-weaken, Pairwise, arith, if◌then◌else◌,
  Follows, find_row, take,
}
use mac_bennet.Runs.Db.{Text, Actor}
use mac_bennet.Monday.{Board, Write, Outbox, Client, is_due}
use mac_bennet.Monday.Delivery.{
  join_board, due_rows, insert_row, order_rows, due_writes, no_deliveries, deliver_each,
  deliver_pending_monday_writes,
}
use mac_bennet.Monday.Invariant.{IsSettled, same_id}
use mac_bennet.Monday.Invariant.Tried.{
  row_of, tried, deliver_each-tried, deliver_each-settles, order_rows-Pairwise, due_rows-Pairwise,
  due_rows-row_of,
}
use mac_bennet.Monday.Permitted.Sweep.{order_rows-All}
use mac_bennet.Monday.Invariant.Sweep.{IsAmong, IsTouched, deliver_each-IsDelivery}
use mac_bennet.Monday.Invariant.Keep.{IsOther-IsAmong, due_writes-HasAttempts}

length-insert_row :
    (x : Write × Board) (xs : List (Write × Board)) → length (insert_row x xs) ≡ suc (length xs)
unfolding insert_row
length-insert_row x [] = refl
length-insert_row x (y ∷ ys) = first (length-insert_row x ys) (leb x.0.created_at y.0.created_at)
  where
    first :
        length (insert_row x ys) ≡ suc (length ys)
        → (b : Bool)
        → length (if b then x ∷ y ∷ ys else y ∷ insert_row x ys) ≡ suc (suc (length ys))
    first e true = refl
    first e false = ap suc e

length-order_rows : (xs : List (Write × Board)) → length (order_rows xs) ≡ length xs
unfolding order_rows
length-order_rows [] = refl
length-order_rows (x ∷ xs) = length-insert_row x (order_rows xs) ∙ ap suc (length-order_rows xs)

take-length : (n : ℕ) (xs : List (Write × Board)) → length xs ≤ n → take n xs ≡ xs
take-length zero [] h = refl
take-length zero (x ∷ xs) h = absurd (omega (arith, h))
take-length (suc n) [] h = refl
take-length (suc n) (x ∷ xs) h = ap (λ ys. x ∷ ys) (take-length n xs (omega (arith, h)))

insert_row-IsAmong :
    (x : Write × Board) (xs : List (Write × Board)) (r : Write)
    → IsAmong (x ∷ xs) r
    → IsAmong (insert_row x xs) r
unfolding insert_row
insert_row-IsAmong x [] r a = a
insert_row-IsAmong x (y ∷ ys) r a =
    first (insert_row-IsAmong x ys r) a (leb x.0.created_at y.0.created_at)
  where
    first :
        (IsAmong (x ∷ ys) r → IsAmong (insert_row x ys) r)
        → IsAmong (x ∷ y ∷ ys) r
        → (b : Bool) → IsAmong (if b then x ∷ y ∷ ys else y ∷ insert_row x ys) r
    first rest h true = h
    first rest (inl e) false = inr (rest (inl e))
    first rest (inr (inl e)) false = inl e
    first rest (inr (inr h)) false = inr (rest (inr h))

order_rows-IsAmong :
    (xs : List (Write × Board)) (r : Write) → IsAmong xs r → IsAmong (order_rows xs) r
unfolding order_rows
order_rows-IsAmong [] r a = a
order_rows-IsAmong (x ∷ xs) r (inl e) = insert_row-IsAmong x _ r (inl e)
order_rows-IsAmong (x ∷ xs) r (inr a) = insert_row-IsAmong x _ r (inr (order_rows-IsAmong xs r a))

-- The sweep does not see the write.
abbrev IsUnseen : ℕ → List Board → Write → Type 0
IsUnseen now boards w =
    (is_due now w ≡ false) ⊎ (find_row (λ b. b.id == w.board_row_id) boards ≡ none)

due_rows-IsAmong :
    (now : ℕ) (boards : List Board) (ws : List Write)
    → All (λ w. IsUnseen now boards w ⊎ IsAmong (due_rows now boards ws) w) ws
unfolding due_rows join_board
due_rows-IsAmong now boards [] = tt
due_rows-IsAmong now boards (w ∷ ws) = due (due_rows-IsAmong now boards ws) _ refl _ refl
  where
    due :
        All (λ v. IsUnseen now boards v ⊎ IsAmong (due_rows now boards ws) v) ws
        → (b : Bool) → is_due now w ≡ b
        → (o : Option Board) → find_row (λ c. c.id == w.board_row_id) boards ≡ o
        → All
            (λ v.
              IsUnseen now boards v
              ⊎ IsAmong
                  (if b then join_board w o (due_rows now boards ws) else due_rows now boards ws)
                  v)
            (w ∷ ws)
    due rest false e o f = (inl (inl e), rest)
    due rest true e none f = (inl (inr f), rest)
    due rest true e (some x) f = (
      inr (inl (ground arith)),
      All-weaken _ (λ v a. elim a [ inl u ↦ inl u | inr h ↦ inr (inr h) ]) ws rest,
    )

due_rows-empty :
    (now : ℕ) (boards : List Board) (ws : List Write)
    → All (IsUnseen now boards) ws
    → due_rows now boards ws ≡ []
unfolding due_rows join_board
due_rows-empty now boards [] a = refl
due_rows-empty now boards (w ∷ ws) (inl e, a) = rw (e, due_rows-empty now boards ws a) refl
due_rows-empty now boards (w ∷ ws) (inr e, a) =
    unseen (due_rows-empty now boards ws a) (is_due now w)
  where
    unseen :
        due_rows now boards ws ≡ []
        → (b : Bool)
        → (if b
            then join_board w
                (find_row (λ c. c.id == w.board_row_id) boards)
                (due_rows now boards ws)
            else due_rows now boards ws)
          ≡ []
    unseen rest true = rw (e, rest) refl
    unseen rest false = rest

Follows-IsUnseen :
    (now : ℕ) (boards : List Board) (xs : List (Write × Board)) {rs ss : List Write}
    → Follows (IsTouched (IsSettled now) xs) rs ss
    → All (λ r. IsUnseen now boards r ⊎ IsAmong xs r) rs
    → All (IsUnseen now boards) ss
Follows-IsUnseen now boards xs Follows.stop a = tt
Follows-IsUnseen now boards xs (Follows.each (h, inr (b, p)) m) a =
    (inl p.not_due, Follows-IsUnseen now boards xs m a.1)
Follows-IsUnseen now boards xs (Follows.each (h, inl (b, e)) m) (inl u, a) =
    (subst (IsUnseen now boards) (sym e) u, Follows-IsUnseen now boards xs m a)
Follows-IsUnseen now boards xs (Follows.each {r = r} (h, inl (b, e)) m) (inr c, a) =
    absurd (IsOther-IsAmong xs r b c)

all_due :
    (now : ℕ) (o : Outbox)
    → length (due_rows now o.boards o.writes) ≤ 50
    → take 50 (order_rows (due_rows now o.boards o.writes))
      ≡ order_rows (due_rows now o.boards o.writes)
all_due now o few = take-length 50 _ (subst (λ n. n ≤ 50) (sym (length-order_rows _)) few)

nothing_due :
    {W : Type 0} (client : Client W) (configured : Option Text) (actor : Actor) (now : ℕ)
    (o : Outbox) (w : W)
    → length (due_rows now o.boards o.writes) ≤ 50
    → due_writes now (deliver_pending_monday_writes client configured actor now o w).1 ≡ []
unfolding deliver_pending_monday_writes due_writes order_rows
nothing_due client configured actor now o w few =
    let due = order_rows (due_rows now o.boards o.writes) in
    let all : take 50 due ≡ due = all_due now o few in
    let d =
      deliver_each-IsDelivery client configured actor now (due_writes now o) no_deliveries o w
        (due_writes-HasAttempts now o) in
    let seen : All (λ r. IsUnseen now o.boards r ⊎ IsAmong (due_writes now o) r) o.writes =
      All-weaken _
        (λ r a. elim a [
          | inl u ↦ inl u
          | inr h ↦ inr (subst (λ xs. IsAmong xs r) (sym all) (order_rows-IsAmong _ r h))
        ])
        o.writes (due_rows-IsAmong now o.boards o.writes) in
    let unseen = Follows-IsUnseen now o.boards (due_writes now o) d.writes seen in
    let after = (deliver_pending_monday_writes client configured actor now o w).1 in
    let empty =
      due_rows-empty now after.boards after.writes
        (subst (λ bs. All (IsUnseen now bs) after.writes) (sym d.boards) unseen) in
    ap (λ xs. take 50 (order_rows xs)) empty

-- Let the keys of the writes be unique and at most fifty of them be due. A sweep tries them all, each
-- once and in the order of their creation: what the provider keeps in the end is what these calls
-- make of it, and nothing else; the row of each is that of the write with the attempt counted and the
-- answer to its call settled; and then none is due any more at the time of the sweep, whatever the
-- provider answers.
pub deliver_pending_monday_writes-clears :
    {W : Type 0} (client : Client W) (configured : Option Text) (actor : Actor) (now : ℕ)
    (o : Outbox) (w : W)
    → Pairwise same_id o.writes
    → length (due_rows now o.boards o.writes) ≤ 50
    → let end = deliver_pending_monday_writes client configured actor now o w in
      let each = tried client configured now (order_rows (due_rows now o.boards o.writes)) w in
      (end.2 ≡ each.1)
      × All (λ r. row_of r.id end.1.writes ≡ some r) each.0
      × (due_writes now end.1 ≡ [])
unfolding deliver_pending_monday_writes due_writes
deliver_pending_monday_writes-clears client configured actor now o w single few =
    let due = order_rows (due_rows now o.boards o.writes) in
    let all : take 50 due ≡ due = all_due now o few in
    let end = deliver_pending_monday_writes client configured actor now o w in
    let rows =
      deliver_each-settles client configured actor now due no_deliveries o w
        (order_rows-Pairwise _ (due_rows-Pairwise now o.boards o.writes single))
        (order_rows-All _ _ (due_rows-row_of now o.boards o.writes single)) in
    (
      deliver_each-tried client configured now actor (take 50 due) no_deliveries o w
          ∙ ap (λ xs. (tried client configured now xs w).1) all,
      subst
          (λ xs.
            All
              (λ r.
                row_of r.id (deliver_each client configured actor now xs no_deliveries o w).1.writes
                ≡ some r)
              (tried client configured now due w).0)
          (sym all) rows,
      nothing_due client configured actor now o w few,
    )
