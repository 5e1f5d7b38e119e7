-- ===== src/Monday/Invariant/Sweep.antt =====
-- A sweep, whole or cut off, as a change of the table of writes.
use mac_bennet.Prelude.{
  ℕ, zero, suc, ◌+◌, ◌≡◌, ◌⊎◌, refl, sym, subst, ◌∙◌, Bool, true, false, inl, inr, List, [], ◌∷◌,
  Option, ◌==◌, ltb, All, Any, arith, if◌then◌else◌, Follows, Follows-refl, Follows-compose,
  update_rows, update_rows-update_rows, take,
}
use mac_bennet.Runs.Db.{Text, Actor}
use mac_bennet.Monday.{Board, Write, Outbox, Client, max_attempts}
use mac_bennet.Monday.Perform.{Performed, perform_write}
use mac_bennet.Monday.Delivery.{
  DeliveryOutcome, claim_write, settle_write, settle_one, log_settled, log_write, update_write,
  deliver_one, deliver_each, is_exhausted,
}
use mac_bennet.Monday.Calls.{deliver_until}
use mac_bennet.Monday.Invariant.{
  is_sound, is_sound_as, IsSame, IsSame-refl, IsSame-trans, IsSettled, settle_write-IsSettled,
  settle_write-IsSame,
}

-- No write of the list has the key of this one, or some has.
abbrev pub IsOther : List (Write × Board) → Write → Type 0
IsOther xs r = All (λ x. (r.id == x.0.id) ≡ false) xs

abbrev pub IsAmong : List (Write × Board) → Write → Type 0
IsAmong xs r = Any (λ x. (r.id == x.0.id) ≡ true) xs

-- Of a row, what the delivery of a list of writes makes of it: `P`, if its key is in the list.
abbrev pub IsTouched : (Write → Type 0) → List (Write × Board) → Write → Write → Type 0
IsTouched P xs r s = IsSame r s × ((IsOther xs r × (s ≡ r)) ⊎ (IsAmong xs r × P s))

pub update_rows-IsTouched :
    (P : Write → Type 0) (x : Write × Board) (f : Write → Write) (rs : List Write)
    → ((r : Write) → IsSame r (f r))
    → ((r : Write) → P (f r))
    → Follows (IsTouched P (x ∷ [])) rs (update_rows (λ w. w.id == x.0.id) f rs)
unfolding update_rows
update_rows-IsTouched P x f [] same h = Follows.stop
update_rows-IsTouched P x f (r ∷ rs) same h =
    Follows.each (here _ refl) (update_rows-IsTouched P x f rs same h)
  where
    here : (b : Bool) → (r.id == x.0.id) ≡ b → IsTouched P (x ∷ []) r (if b then f r else r)
    here true e = (same r, inr (inl e, h r))
    here false e = (IsSame-refl r, inl ((e, tt), refl))

pub IsTouched-next :
    (P : Write → Type 0) (x : Write × Board) (xs : List (Write × Board)) (r s t : Write)
    → IsTouched P (x ∷ []) r s
    → IsTouched P xs s t
    → IsTouched P (x ∷ xs) r t
IsTouched-next P x xs r s t (h, inl (a, e)) (k, inl (b, f)) =
    (IsSame-trans h k, inl ((a.0, subst (IsOther xs) e b), f ∙ e))
IsTouched-next P x xs r s t (h, inl (a, e)) (k, inr (b, p)) =
    (IsSame-trans h k, inr (inr (subst (IsAmong xs) e b), p))
IsTouched-next P x xs r s t (h, inr (inl a, p)) (k, inl (b, f)) =
    (IsSame-trans h k, inr (inl a, subst P (sym f) p))
IsTouched-next P x xs r s t (h, inr (inl a, p)) (k, inr (b, q)) = (IsSame-trans h k, inr (inl a, q))
IsTouched-next P x xs r s t (h, inr (inr a, p)) k = elim a [ ]

-- With another property of the touched rows.
pub IsTouched-weaken :
    (P Q : Write → Type 0) (xs : List (Write × Board))
    → ((s : Write) → P s → Q s)
    → {rs ss : List Write} → Follows (IsTouched P xs) rs ss
    → Follows (IsTouched Q xs) rs ss
IsTouched-weaken P Q xs f Follows.stop = Follows.stop
IsTouched-weaken P Q xs f (Follows.each (h, inl e) m) =
    Follows.each (h, inl e) (IsTouched-weaken P Q xs f m)
IsTouched-weaken P Q xs f (Follows.each (h, inr (a, p)) m) =
    Follows.each (h, inr (a, f _ p)) (IsTouched-weaken P Q xs f m)

-- The delivery of a list of writes, as a change of the outbox.
pub record IsDelivery (P : Write → Type 0) (xs : List (Write × Board)) (o p : Outbox) : Type 0 where
  pub writes : Follows (IsTouched P xs) o.writes p.writes
  pub next_write_id : p.next_write_id ≡ o.next_write_id
  pub boards : p.boards ≡ o.boards

pub IsDelivery-refl : (P : Write → Type 0) (o : Outbox) → IsDelivery P [] o o
IsDelivery-refl P o = record {
  writes = Follows-refl _ (λ r. (IsSame-refl r, inl (tt, refl))) o.writes;
  next_write_id = refl;
  boards = refl;
}

pub IsDelivery-next :
    (P : Write → Type 0) (x : Write × Board) (xs : List (Write × Board)) {o p q : Outbox}
    → IsDelivery P (x ∷ []) o p
    → IsDelivery P xs p q
    → IsDelivery P (x ∷ xs) o q
IsDelivery-next P x xs h k = record {
  writes = Follows-compose _ _ _ (IsTouched-next P x xs) h.writes k.writes;
  next_write_id = k.next_write_id ∙ h.next_write_id;
  boards = k.boards ∙ h.boards;
}

pub IsDelivery-weaken :
    (P Q : Write → Type 0) (xs : List (Write × Board)) {o p : Outbox}
    → ((s : Write) → P s → Q s)
    → IsDelivery P xs o p
    → IsDelivery Q xs o p
IsDelivery-weaken P Q xs f h = record {
  writes = IsTouched-weaken P Q xs f h.writes;
  next_write_id = h.next_write_id;
  boards = h.boards;
}

abbrev SameTables : Outbox → Outbox → Type 0
SameTables o p = (p.writes ≡ o.writes) × (p.next_write_id ≡ o.next_write_id) × (p.boards ≡ o.boards)

log_settled-SameTables :
    (actor : Actor) (attempts : ℕ) (x : Performed) (write : Write) (o : Outbox)
    → SameTables o (log_settled actor attempts x write o)
unfolding log_settled log_write
log_settled-SameTables actor attempts x write o = settled x
  where
    logged :
        (b : Bool) → SameTables o (if b then log_write actor "monday.write_failed" write o else o)
    logged true = (refl, refl, refl)
    logged false = (refl, refl, refl)

    settled : (y : Performed) → SameTables o (log_settled actor attempts y write o)
    settled (Performed.sent u) = (refl, refl, refl)
    settled (Performed.refused r) = (refl, refl, refl)
    settled (Performed.api_error retryable) = logged (is_exhausted retryable attempts)
    settled Performed.threw = logged (is_exhausted true attempts)

abbrev pub HasAttempts : Write × Board → Type 0
HasAttempts x = ltb x.0.attempts max_attempts ≡ true

module _ {W : Type 0} (client : Client W) (configured : Option Text) (actor : Actor) (now : ℕ) where
  -- The two updates of a delivery are one.
  pub deliver_one-writes :
      (x : Write × Board) (o : Outbox) (w : W)
      → let p = perform_write client configured x.0 x.1 w in
        (deliver_one client configured actor now x.0 x.1 o w).1.writes
        ≡ update_rows
            (λ y. y.id == x.0.id)
            (λ y.
              settle_write
                (x.0.attempts + 1)
                now
                (client.time p.1)
                p.0
                (claim_write (x.0.attempts + 1) y))
            o.writes
  unfolding deliver_one settle_one update_write claim_write
  deliver_one-writes x o w =
      let p = perform_write client configured x.0 x.1 w in
      (log_settled-SameTables actor (x.0.attempts + 1) p.0 x.0 _).0
      ∙ update_rows-update_rows (λ y. y.id == x.0.id) (claim_write (x.0.attempts + 1))
          (settle_write (x.0.attempts + 1) now (client.time p.1) p.0) (λ y. refl) o.writes

  pub deliver_one-IsDelivery :
      (x : Write × Board) (o : Outbox) (w : W)
      → HasAttempts x
      → IsDelivery
          (IsSettled now)
          (x ∷ [])
          o
          (deliver_one client configured actor now x.0 x.1 o w).1
  unfolding deliver_one settle_one update_write claim_write
  deliver_one-IsDelivery x o w b =
      let p = perform_write client configured x.0 x.1 w in
      let at = client.time p.1 in
      let logged = log_settled-SameTables actor (x.0.attempts + 1) p.0 x.0 _ in
      record {
        writes =
            subst (Follows (IsTouched (IsSettled now) (x ∷ [])) o.writes)
              (sym (deliver_one-writes x o w))
              (update_rows-IsTouched (IsSettled now) x _ o.writes
                (λ r. settle_write-IsSame _ now at p.0 r)
                (λ r. settle_write-IsSettled x.0.attempts now at p.0 r b));
        next_write_id = logged.1;
        boards = logged.2;
      }

  pub deliver_each-IsDelivery :
      (xs : List (Write × Board)) (c : DeliveryOutcome) (o : Outbox) (w : W)
      → All HasAttempts xs
      → IsDelivery (IsSettled now) xs o (deliver_each client configured actor now xs c o w).1
  unfolding deliver_each
  deliver_each-IsDelivery [] c o w b = IsDelivery-refl _ o
  deliver_each-IsDelivery (x ∷ xs) c o w b =
      IsDelivery-next _ x xs (deliver_one-IsDelivery x o w b.0)
        (deliver_each-IsDelivery xs _ _ _ b.1)

  -- A sweep that is cut off has settled some writes and claimed the next.
  pub deliver_until-IsDelivery :
      (n : ℕ) (xs : List (Write × Board)) (o : Outbox) (w : W)
      → All HasAttempts xs
      → IsDelivery
          (λ s. is_sound s ≡ true)
          (take (suc n) xs)
          o
          (deliver_until client configured n actor now xs o w).0
  unfolding deliver_until update_write claim_write is_sound is_sound_as
  deliver_until-IsDelivery n [] o w b = IsDelivery-refl _ o
  deliver_until-IsDelivery zero (x ∷ xs) o w b = record {
    writes =
        update_rows-IsTouched _ x (claim_write (x.0.attempts + 1)) o.writes
          (λ r. record { id = refl; item = refl; kind = refl; payload = refl })
          (λ r. ground (arith, b.0));
    next_write_id = refl;
    boards = refl;
  }
  deliver_until-IsDelivery (suc n) (x ∷ xs) o w b =
      IsDelivery-next _ x (take (suc n) xs)
        (IsDelivery-weaken (IsSettled now) _ (x ∷ []) (λ s p. p.sound)
          (deliver_one-IsDelivery x o w b.0))
        (deliver_until-IsDelivery n xs _ _ b.1)
