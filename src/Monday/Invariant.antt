-- ===== src/Monday/Invariant.antt =====
-- What is kept of the queued writes: attempts within their bound, and no change of what has been
-- settled. Below, a sweep as a change of the table, histories, and what a sweep leaves.
pub mod Sweep
pub mod Keep
pub mod Calls
pub mod Tried
pub mod Clears
use mac_bennet.Prelude.{
  ℕ, ◌+◌, ◌*◌, ◌≡◌, ◌⊎◌, ◌<◌, refl, sym, ap, subst, ◌∙◌, Bool, true, false, not, ◌&&◌, ◌||◌, inl,
  inr, List, [], ◌∷◌, Option, none, some, ◌==◌, ltb, leb, is_some, All, Any, arith, if◌then◌else◌,
  Bool-cases, Pairwise, Extends,
}
use mac_bennet.Monday.{
  Board, Write, WriteKind, Payload, WriteStatus, is_waiting, is_due, max_attempts,
}
use mac_bennet.Monday.Perform.{Performed}
use mac_bennet.Monday.Delivery.{
  claim_write, mark_delivered, mark_refused, mark_failed, settle_write, is_exhausted,
  backoff_seconds,
}

-- The attempts that a write in this status may have made, and when it has been delivered.
unfoldable pub is_sound_as : WriteStatus → ℕ → Option ℕ → Bool
is_sound_as WriteStatus.pending attempts at = attempts == 0
is_sound_as WriteStatus.failed attempts at = ltb 0 attempts && ltb attempts max_attempts
is_sound_as WriteStatus.delivered attempts at =
    (ltb 0 attempts && leb attempts max_attempts) && is_some at
is_sound_as _ attempts at = ltb 0 attempts && leb attempts max_attempts

unfoldable pub is_sound : Write → Bool
is_sound w = is_sound_as w.status w.attempts w.delivered_at

unfoldable pub same_id : Write → Write → Bool
same_id r s = r.id == s.id

-- The keys are below the next one and each is of one row, and the rows are sound.
pub record IsKept (n : ℕ) (rs : List Write) : Type 0 where
  pub keys : All (λ r. r.id < n) rs
  pub single : Pairwise same_id rs
  pub sound : All (λ r. is_sound r ≡ true) rs

-- A later state of the same write asks for the same.
pub record IsSame (r s : Write) : Type 0 where
  pub id : s.id ≡ r.id
  pub item : s.monday_item_id ≡ r.monday_item_id
  pub kind : s.kind ≡ r.kind
  pub payload : s.payload ≡ r.payload

pub IsSame-refl : (r : Write) → IsSame r r
IsSame-refl r = record { id = refl; item = refl; kind = refl; payload = refl }

pub IsSame-trans : {r s t : Write} → IsSame r s → IsSame s t → IsSame r t
IsSame-trans h k = record {
  id = k.id ∙ h.id;
  item = k.item ∙ h.item;
  kind = k.kind ∙ h.kind;
  payload = k.payload ∙ h.payload;
}

abbrev pub IsOpen : Write → Type 0
IsOpen r = (r.status ≡ WriteStatus.pending) ⊎ (r.status ≡ WriteStatus.failed)

pub is_waiting-IsOpen : (r : Write) → is_waiting r.status ≡ true → IsOpen r
unfolding is_waiting
is_waiting-IsOpen r e = open_as r.status e
  where
    open_as :
        (x : WriteStatus)
        → is_waiting x ≡ true
        → (x ≡ WriteStatus.pending) ⊎ (x ≡ WriteStatus.failed)
    open_as WriteStatus.pending h = inl refl
    open_as WriteStatus.sending h = absurd (cc)
    open_as WriteStatus.delivered h = absurd (cc)
    open_as WriteStatus.failed h = inr refl
    open_as WriteStatus.refused h = absurd (cc)
    open_as WriteStatus.dead h = absurd (cc)

-- A later state of a write, which has not changed unless it was `pending` or `failed`.
abbrev pub IsLater : Write → Write → Type 0
IsLater r s = IsSame r s × (IsOpen r ⊎ (s ≡ r))

pub IsLater-refl : (r : Write) → IsLater r r
IsLater-refl r = (IsSame-refl r, inr refl)

pub IsLater-trans : (r s t : Write) → IsLater r s → IsLater s t → IsLater r t
IsLater-trans r s t (h, inl w) (k, x) = (IsSame-trans h k, inl w)
IsLater-trans r s t (h, inr e) (k, inl w) = (IsSame-trans h k, inl (subst IsOpen e w))
IsLater-trans r s t (h, inr e) (k, inr f) = (IsSame-trans h k, inr (f ∙ e))

pub record Keeps (n : ℕ) (rs : List Write) (m : ℕ) (ss : List Write) : Type 0 where
  pub kept : IsKept m ss
  pub later : Extends IsLater rs ss

unfoldable pub is_handled : WriteStatus → Bool
is_handled WriteStatus.pending = false
is_handled WriteStatus.sending = false
is_handled _ = true

-- A write after its delivery was tried at `now`.
pub record IsSettled (now : ℕ) (s : Write) : Type 0 where
  pub sound : is_sound s ≡ true
  pub not_due : is_due now s ≡ false
  pub handled : is_handled s.status ≡ true

backoff_seconds-positive : (attempts : ℕ) → 0 < backoff_seconds attempts
unfolding backoff_seconds
backoff_seconds-positive attempts = ground arith

mark_failed-IsSettled :
    (exhausted : Bool) (attempts now : ℕ) (r : Write)
    → 0 < attempts
    → r.attempts ≡ attempts
    → leb attempts max_attempts ≡ true
    → exhausted || ltb attempts max_attempts ≡ true
    → IsSettled now (mark_failed exhausted attempts now r)
unfolding mark_failed is_sound is_sound_as is_due is_waiting is_handled
mark_failed-IsSettled true attempts now r p e b x = record {
  sound = ground arith;
  not_due = refl;
  handled = refl;
}
mark_failed-IsSettled false attempts now r p e b x = record {
  sound = ground arith;
  not_due = ground (arith, backoff_seconds-positive attempts);
  handled = refl;
}

is_exhausted-leb :
    (retryable : Bool) (attempts : ℕ)
    → is_exhausted retryable attempts || ltb attempts max_attempts ≡ true
unfolding is_exhausted
is_exhausted-leb retryable attempts = ground arith

-- Whatever the call gives, and whatever row the two updates of a delivery meet.
pub settle_write-IsSettled :
    (attempts now at : ℕ) (x : Performed) (r : Write)
    → ltb attempts max_attempts ≡ true
    → IsSettled now (settle_write (attempts + 1) now at x (claim_write (attempts + 1) r))
unfolding settle_write claim_write mark_delivered mark_refused is_sound is_sound_as is_due
    is_waiting is_handled
settle_write-IsSettled attempts now at (Performed.sent u) r b = record {
  sound = ground arith;
  not_due = refl;
  handled = refl;
}
settle_write-IsSettled attempts now at (Performed.refused x) r b = record {
  sound = ground arith;
  not_due = refl;
  handled = refl;
}
settle_write-IsSettled attempts now at (Performed.api_error retryable) r b =
    mark_failed-IsSettled _ _ now _ (omega arith) refl (ground arith) (is_exhausted-leb retryable _)
settle_write-IsSettled attempts now at Performed.threw r b =
    mark_failed-IsSettled _ _ now _ (omega arith) refl (ground arith) (is_exhausted-leb true _)

pub settle_write-IsSame :
    (attempts now at : ℕ) (x : Performed) (r : Write)
    → IsSame r (settle_write attempts now at x (claim_write attempts r))
unfolding settle_write claim_write mark_delivered mark_refused mark_failed
settle_write-IsSame attempts now at (Performed.sent u) r = record {
  id = refl;
  item = refl;
  kind = refl;
  payload = refl;
}
settle_write-IsSame attempts now at (Performed.refused x) r = record {
  id = refl;
  item = refl;
  kind = refl;
  payload = refl;
}
settle_write-IsSame attempts now at (Performed.api_error retryable) r = record {
  id = refl;
  item = refl;
  kind = refl;
  payload = refl;
}
settle_write-IsSame attempts now at Performed.threw r = record {
  id = refl;
  item = refl;
  kind = refl;
  payload = refl;
}
