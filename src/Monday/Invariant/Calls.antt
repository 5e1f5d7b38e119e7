-- ===== src/Monday/Invariant/Calls.antt =====
-- Every call, and so every history of calls, keeps what is kept of the writes.
use mac_bennet.Prelude.{
  ℕ, suc, ◌+◌, refl, Bool, true, false, not, List, [], ◌∷◌, ◌++◌, Option, none, some, All-append,
  All-weaken, arith, if◌then◌else◌, Pairwise-append, Follows-Extends, Follows-refl, Extends,
  Extends-append, Extends-trans, take,
}
use mac_bennet.Runs.Db.{Text}
use mac_bennet.Monday.{Board, Item, Write, Outbox, Client}
use mac_bennet.Monday.Queue.{
  EnqueueInput, new_write, enqueue_linked, enqueue_found, enqueue_monday_write,
}
use mac_bennet.Monday.Delivery.{due_writes, deliver_pending_monday_writes}
use mac_bennet.Monday.Calls.{Call, step, history}
use mac_bennet.Monday.Permitted.Sweep.{take-All}
use mac_bennet.Monday.Invariant.{
  is_sound, is_sound_as, same_id, IsKept, IsLater, IsLater-refl, IsLater-trans, Keeps, IsSettled,
}
use mac_bennet.Monday.Invariant.Sweep.{
  IsOther, IsDelivery-weaken, deliver_each-IsDelivery, deliver_until-IsDelivery,
}
use mac_bennet.Monday.Invariant.Keep.{IsDelivery-Keeps, due_writes-HasAttempts}

Keeps-refl : {n : ℕ} {rs : List Write} → IsKept n rs → Keeps n rs n rs
Keeps-refl {n} {rs} k = record {
  kept = k;
  later = Follows-Extends IsLater (Follows-refl IsLater IsLater-refl rs);
}

-- From one outbox to another.
abbrev KeepsOutbox : Outbox → Outbox → Type 0
KeepsOutbox o p = Keeps o.next_write_id o.writes p.next_write_id p.writes

enqueue_linked-Keeps :
    (input : EnqueueInput) (now : ℕ) (o : Outbox) (item : Item) (b : Option Board)
    → IsKept o.next_write_id o.writes
    → KeepsOutbox o (enqueue_linked input now o item b)
unfolding enqueue_linked new_write is_sound is_sound_as same_id
enqueue_linked-Keeps input now o item none k = Keeps-refl k
enqueue_linked-Keeps input now o item (some board) k = approved (not board.is_approved)
  where
    approved :
        (b : Bool)
        → KeepsOutbox o (
            if b then o else record o {
              writes = o.writes ++ (new_write input now o.next_write_id item board ∷ []);
              next_write_id = o.next_write_id + 1;
            })
    approved true = Keeps-refl k
    approved false = record {
      kept = record {
        keys =
            All-append _ o.writes _ (All-weaken _ (λ r l. omega (arith, l)) o.writes k.keys)
              (omega arith, tt);
        single =
            Pairwise-append same_id o.writes _ k.single
              (All-weaken _ (λ r l. ground (arith, l)) o.writes k.keys);
        sound = All-append _ o.writes _ k.sound (refl, tt);
      };
      later =
          Extends-append IsLater _ (Follows-Extends IsLater (Follows-refl IsLater IsLater-refl _));
    }

enqueue_found-Keeps :
    (input : EnqueueInput) (now : ℕ) (o : Outbox) (i : Option Item)
    → IsKept o.next_write_id o.writes
    → KeepsOutbox o (enqueue_found input now o i)
unfolding enqueue_found
enqueue_found-Keeps input now o none k = Keeps-refl k
enqueue_found-Keeps input now o (some item) k = enqueue_linked-Keeps input now o item _ k

IsOther-take :
    (n : ℕ) (xs : List (Write × Board)) (r : Write) → IsOther xs r → IsOther (take n xs) r
IsOther-take n xs r a = take-All _ n xs a

module _ {W : Type 0} (client : Client W) (configured : Option Text) where
  step-Keeps :
      (now : ℕ) (call : Call) (o : Outbox) (w : W)
      → IsKept o.next_write_id o.writes
      → KeepsOutbox o (step client configured now call o w).0
  unfolding step enqueue_monday_write deliver_pending_monday_writes
  step-Keeps now (Call.enqueues input) o w k = enqueue_found-Keeps input now o _ k
  step-Keeps now (Call.delivers actor) o w k =
      IsDelivery-Keeps now o _ (due_writes now o) (λ r a. a) k
        (IsDelivery-weaken (IsSettled now) _ _ (λ s p. p.sound)
          (deliver_each-IsDelivery client configured actor now _ _ o w
            (due_writes-HasAttempts now o)))
  step-Keeps now (Call.dies n actor) o w k =
      IsDelivery-Keeps now o _ (take (suc n) (due_writes now o)) (IsOther-take (suc n) _) k (
        deliver_until-IsDelivery client configured actor now n _ o w (due_writes-HasAttempts now o))
  step-Keeps now (Call.edits_boards boards) o w k = Keeps-refl k

  pub history-Keeps :
      (calls : List (ℕ × Call)) (o : Outbox) (w : W)
      → IsKept o.next_write_id o.writes
      → KeepsOutbox o (history client configured calls o w).0
  unfolding history
  history-Keeps [] o w k = Keeps-refl k
  history-Keeps ((now, call) ∷ rest) o w k =
      let first = step-Keeps now call o w k in
      let later = history-Keeps rest _ _ first.kept in
      record {
        kept = later.kept;
        later = Extends-trans IsLater IsLater-trans first.later later.later;
      }

-- Whatever is queued and swept, with sweeps cut off anywhere and boards changed in between, if the
-- keys and rows are in order at first: no write is tried more than five times; one that is `pending`
-- was never tried, one that is `failed` has an attempt left, and one that is `delivered` has its
-- time; and keys stay unique.
pub history-IsKept :
    {W : Type 0} (client : Client W) (configured : Option Text) (calls : List (ℕ × Call))
    (o : Outbox) (w : W)
    → IsKept o.next_write_id o.writes
    → let p = (history client configured calls o w).0 in IsKept p.next_write_id p.writes
history-IsKept client configured calls o w k = (history-Keeps client configured calls o w k).kept

-- In any such history every write stays in the table in its place, for the same item, kind and
-- payload, and unless it is `pending` or `failed` nothing of its row ever changes: one that was left
-- `sending` by a sweep that was cut off is never sent again.
pub history-Extends :
    {W : Type 0} (client : Client W) (configured : Option Text) (calls : List (ℕ × Call))
    (o : Outbox) (w : W)
    → IsKept o.next_write_id o.writes
    → Extends IsLater o.writes (history client configured calls o w).0.writes
history-Extends client configured calls o w k = (history-Keeps client configured calls o w k).later
