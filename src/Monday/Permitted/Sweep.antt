-- ===== src/Monday/Permitted/Sweep.antt =====
-- The calls of a whole sweep, each permitted by the board of its write.
use mac_bennet.Prelude.{
  ℕ, zero, suc, ◌≡◌, refl, sym, subst, Bool, true, false, inl, inr, List, [], ◌∷◌, Option, none,
  some, ◌==◌, leb, All, All-always, Any, arith, Bool-cases, if◌then◌else◌, find_row, take,
}
use mac_bennet.Runs.Db.{Text, Actor}
use mac_bennet.Monday.{Board, Write, Outbox, ProviderCall, Client, is_due}
use mac_bennet.Monday.Perform.{perform_write}
use mac_bennet.Monday.Delivery.{
  DeliveryOutcome, join_board, due_rows, insert_row, order_rows, due_writes, deliver_one,
  deliver_each, deliver_pending_monday_writes,
}
use mac_bennet.Monday.Permitted.{traced, IsPermitted}
use mac_bennet.Monday.Permitted.Kinds.{perform_kind-AllPermitted}

pub insert_row-All :
    (P : Write × Board → Type 0) (x : Write × Board) (xs : List (Write × Board))
    → P x
    → All P xs
    → All P (insert_row x xs)
unfolding insert_row
insert_row-All P x [] h a = (h, tt)
insert_row-All P x (y ∷ ys) h a =
    first (insert_row-All P x ys h a.1) (leb x.0.created_at y.0.created_at)
  where
    first :
        All P (insert_row x ys) → (b : Bool) → All P (if b then x ∷ y ∷ ys else y ∷ insert_row x ys)
    first rest true = (h, a)
    first rest false = (a.0, rest)

pub order_rows-All :
    (P : Write × Board → Type 0) (xs : List (Write × Board)) → All P xs → All P (order_rows xs)
unfolding order_rows
order_rows-All P [] a = tt
order_rows-All P (x ∷ xs) a = insert_row-All P x _ a.0 (order_rows-All P xs a.1)

pub take-All :
    (P : Write × Board → Type 0) (n : ℕ) (xs : List (Write × Board)) → All P xs → All P (take n xs)
take-All P zero xs a = tt
take-All P (suc n) [] a = tt
take-All P (suc n) (x ∷ xs) a = (a.0, take-All P n xs a.1)

find_row-Any :
    (p : Board → Bool) (bs : List Board) (b : Board) → find_row p bs ≡ some b → Any (λ c. c ≡ b) bs
unfolding find_row
find_row-Any p [] b e = absurd (cc)
find_row-Any p (c ∷ bs) b e = elim (Bool-cases (p c)) [
  | inl hit ↦ inl (ground arith)
  | inr miss ↦ inr (find_row-Any p bs b (ground arith))
]

pub due_rows-All :
    (P : Write × Board → Type 0) (now : ℕ) (boards : List Board) (ws : List Write)
    → All
        (λ w.
          (b : Board)
          → is_due now w ≡ true
          → find_row (λ c. c.id == w.board_row_id) boards ≡ some b
          → P (w, b))
        ws
    → All P (due_rows now boards ws)
unfolding due_rows join_board
due_rows-All P now boards [] h = tt
due_rows-All P now boards (w ∷ ws) h = due (due_rows-All P now boards ws h.1) _ refl _ refl
  where
    due :
        All P (due_rows now boards ws)
        → (b : Bool) → is_due now w ≡ b
        → (o : Option Board) → find_row (λ c. c.id == w.board_row_id) boards ≡ o
        → All P (if b then join_board w o (due_rows now boards ws) else due_rows now boards ws)
    due rest false e o f = rest
    due rest true e none f = rest
    due rest true e (some x) f = (h.0 x e f, rest)

pub due_writes-All :
    (P : Write × Board → Type 0) (now : ℕ) (o : Outbox)
    → All
        (λ w.
          (b : Board)
          → is_due now w ≡ true
          → find_row (λ c. c.id == w.board_row_id) o.boards ≡ some b
          → P (w, b))
        o.writes
    → All P (due_writes now o)
unfolding due_writes
due_writes-All P now o h =
    take-All P 50 _ (order_rows-All P _ (due_rows-All P now o.boards o.writes h))

Any-map :
    (P Q : Board → Type 0) → ((b : Board) → P b → Q b) → (bs : List Board) → Any P bs → Any Q bs
Any-map P Q f [] x = elim x [ ]
Any-map P Q f (b ∷ bs) (inl h) = inl (f b h)
Any-map P Q f (b ∷ bs) (inr h) = inr (Any-map P Q f bs h)

-- Some board of the outbox permits the call.
abbrev pub IsAllowed : Option Text → List Board → ProviderCall → Type 0
IsAllowed configured boards call = Any (λ b. IsPermitted configured b call) boards

module _ {W : Type 0} (client : Client W) (configured : Option Text) (boards : List Board) where
  deliver_each-IsAllowed :
      (actor : Actor) (now : ℕ) (xs : List (Write × Board)) (c : DeliveryOutcome) (o : Outbox)
      (s : List ProviderCall × W)
      → All (λ x. Any (λ b. b ≡ x.1) boards) xs
      → All (IsAllowed configured boards) s.0
      → All
          (IsAllowed configured boards)
          (deliver_each (traced client) configured actor now xs c o s).2.0
  unfolding deliver_each deliver_one perform_write
  deliver_each-IsAllowed actor now [] c o s h a = a
  deliver_each-IsAllowed actor now (x ∷ xs) c o s h a =
      deliver_each-IsAllowed actor now xs _ _ _ h.1 (
        perform_kind-AllPermitted client configured x.1 (IsAllowed configured boards)
          (λ call p.
            Any-map _ _ (λ b e. subst (λ y. IsPermitted configured y call) (sym e) p) boards h.0)
          x.0.kind x.0 s a)

-- Every call that a sweep makes is permitted by a board of the outbox: a column that is written is
-- the status, assignee or pull-request column of an approved board and neither its due date nor its
-- priority, a label is the board's for some status, `done` only where Mac may complete, and an
-- assignee is Mac's own identity. The text of an update is permitted without a condition.
pub deliver_pending_monday_writes-IsAllowed :
    {W : Type 0} (client : Client W) (configured : Option Text) (actor : Actor) (now : ℕ)
    (o : Outbox) (w : W)
    → All
        (IsAllowed configured o.boards)
        (deliver_pending_monday_writes (traced client) configured actor now o ([], w)).2.0
unfolding deliver_pending_monday_writes
deliver_pending_monday_writes-IsAllowed client configured actor now o w =
    deliver_each-IsAllowed client configured o.boards actor now _ _ _ _
      (due_writes-All (λ x. Any (λ b. b ≡ x.1) o.boards) now o
        (All-always _ o.writes (λ v b due. find_row-Any _ o.boards b)))
      tt
