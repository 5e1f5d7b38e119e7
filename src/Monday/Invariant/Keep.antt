-- ===== src/Monday/Invariant/Keep.antt =====
-- Whatever a sweep makes of the writes that are due, soundly, what is kept of the writes stays.
use mac_bennet.Prelude.{
  ℕ, ◌≡◌, ◌⊎◌, ◌<◌, sym, subst, true, false, inl, inr, List, [], ◌∷◌, some, ◌==◌, All, All-always,
  All-weaken, arith, Pairwise, Pairwise-other, find_row, Bool-cases, Follows-All, Follows-Pairwise,
  Follows-weaken, Follows-Extends,
}
use mac_bennet.Monday.{Board, Write, Outbox, is_waiting, is_due}
use mac_bennet.Monday.Delivery.{due_writes}
use mac_bennet.Monday.Permitted.Sweep.{due_writes-All}
use mac_bennet.Monday.Invariant.{
  is_sound, same_id, IsKept, IsSame, IsLater, is_waiting-IsOpen, Keeps,
}
use mac_bennet.Monday.Invariant.Sweep.{IsOther, IsAmong, IsTouched, IsDelivery, HasAttempts}

-- What is due has attempts left, and what is not waiting is not among it.
pub due_writes-HasAttempts : (now : ℕ) (o : Outbox) → All HasAttempts (due_writes now o)
unfolding is_due
due_writes-HasAttempts now o =
    due_writes-All _ now o (All-always _ o.writes (λ w b due found. ground arith))

due_writes-IsOther :
    (now : ℕ) (o : Outbox) (r : Write)
    → is_waiting r.status ≡ false
    → All (λ w. (w ≡ r) ⊎ (same_id r w ≡ false)) o.writes
    → IsOther (due_writes now o) r
unfolding is_due same_id
due_writes-IsOther now o r e a = due_writes-All _ now o (All-weaken _ other o.writes a)
  where
    other :
        (w : Write)
        → (w ≡ r) ⊎ ((r.id == w.id) ≡ false)
        → (b : Board) → is_due now w ≡ true
        → find_row (λ c. c.id == w.board_row_id) o.boards ≡ some b
        → (r.id == w.id) ≡ false
    other w (inl same) b due found =
        let waits : is_waiting w.status ≡ true = ground arith in
        absurd (cc (subst (λ y. is_waiting y.status ≡ true) same waits, e))
    other w (inr d) b due found = d

pub IsOther-IsAmong : (xs : List (Write × Board)) (r : Write) → IsOther xs r → IsAmong xs r → ⊥
IsOther-IsAmong [] r a b = b
IsOther-IsAmong (x ∷ xs) r a (inl e) = absurd (cc (a.0, e))
IsOther-IsAmong (x ∷ xs) r a (inr b) = IsOther-IsAmong xs r a.1 b

IsSame-same_id :
    (r r' s s' : Write) → IsSame r r' → IsSame s s' → same_id r s ≡ false → same_id r' s' ≡ false
unfolding same_id
IsSame-same_id r r' s s' h k e = rw (h.id, k.id) e

same_id_symmetric : (r s : Write) → same_id r s ≡ false → same_id s r ≡ false
unfolding same_id
same_id_symmetric r s e = ground arith

-- A write is waiting, or it is not due.
abbrev IsFree : ℕ → Outbox → Write → Type 0
IsFree now o r = (is_waiting r.status ≡ true) ⊎ IsOther (due_writes now o) r

writes-IsFree : (now : ℕ) (o : Outbox) → Pairwise same_id o.writes → All (IsFree now o) o.writes
writes-IsFree now o single =
    All-weaken _ waits o.writes (Pairwise-other same_id same_id_symmetric o.writes single)
  where
    waits : (r : Write) → All (λ w. (w ≡ r) ⊎ (same_id r w ≡ false)) o.writes → IsFree now o r
    waits r a = elim (Bool-cases (is_waiting r.status)) [
      | inl w ↦ inl w
      | inr e ↦ inr (due_writes-IsOther now o r e a)
    ]

-- Whatever is made of writes that are due, soundly, what is kept stays.
pub IsDelivery-Keeps :
    (now : ℕ) (o p : Outbox) (xs : List (Write × Board))
    → ((r : Write) → IsOther (due_writes now o) r → IsOther xs r)
    → IsKept o.next_write_id o.writes
    → IsDelivery (λ s. is_sound s ≡ true) xs o p
    → Keeps o.next_write_id o.writes p.next_write_id p.writes
IsDelivery-Keeps now o p xs part k d = record {
  kept = record {
    keys =
        Follows-All _ (λ r. r.id < p.next_write_id) (λ r s h l. rw h.0.id l) d.writes
          (subst (λ n. All (λ r. r.id < n) o.writes) (sym d.next_write_id) k.keys);
    single = Follows-Pairwise _ same_id ids d.writes k.single;
    sound = Follows-All _ (λ r. is_sound r ≡ true) sound d.writes k.sound;
  };
  later =
      Follows-Extends _ (Follows-weaken _ _ IsLater later (writes-IsFree now o k.single) d.writes);
}
  where
    ids :
        (r r' s s' : Write)
        → IsTouched (λ y. is_sound y ≡ true) xs r r'
        → IsTouched (λ y. is_sound y ≡ true) xs s s'
        → same_id r s ≡ false
        → same_id r' s' ≡ false
    ids r r' s s' h k' e = IsSame-same_id r r' s s' h.0 k'.0 e

    sound :
        (r s : Write)
        → IsTouched (λ y. is_sound y ≡ true) xs r s
        → is_sound r ≡ true
        → is_sound s ≡ true
    sound r s (h, inl (a, e)) b = subst (λ y. is_sound y ≡ true) (sym e) b
    sound r s (h, inr (a, q)) b = q

    later : (r s : Write) → IsFree now o r → IsTouched (λ y. is_sound y ≡ true) xs r s → IsLater r s
    later r s z (h, inl (a, e)) = (h, inr e)
    later r s (inl w) (h, inr (a, q)) = (h, inl (is_waiting-IsOpen r w))
    later r s (inr z) (h, inr (a, q)) = absurd (IsOther-IsAmong xs r (part r z) a)
