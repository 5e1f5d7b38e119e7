-- ===== src/Worker/LogBuffer/Invariant.antt =====
-- The bounds of the buffer and the sequence numbers of its lines, whatever is appended, peeked at
-- and confirmed, and in whatever order.
use mac_bennet.Prelude.{
  ℕ, zero, suc, ◌+◌, ◌≡◌, ◌≤◌, ◌<◌, ◌⊎◌, inl, inr, refl, false, Bool-cases, List, [], ◌∷◌, ◌++◌,
  All, All-append, All-weaken, arith, length, take, codes, ltb, ◌==◌,
}
use mac_bennet.Runs.Db.{Text}
use mac_bennet.Worker.LogBuffer.{
  LogStream, Message, LogEntry, LogBuffer, max_log_message_chars, clamp, split_lines, shift_excess,
  new_entry, push, push_all, append, place_marker, marked, peek_batch, drop, confirm,
}

-- The calls of a job and of its flushes.
pub data Call : Type 0 where
  appends : ℕ → LogStream → Text → Call
  peeks : ℕ → Call
  confirms : ℕ → Call

unfoldable pub step : LogBuffer → Call → LogBuffer
step b (Call.appends now stream message) = append now stream message b
step b (Call.peeks now) = (peek_batch now b).1
step b (Call.confirms count) = confirm count b

unfoldable pub history : List Call → LogBuffer → LogBuffer
history [] b = b
history (c ∷ cs) b = history cs (step b c)

abbrev pub IsShort : LogEntry → Type 0
IsShort e = fits e.message
  where
    fits : Message → Type 0
    fits (Message.line t) = length t ≤ max_log_message_chars
    fits (Message.dropped_marker n) = Unit

abbrev pub IsDistinct : List LogEntry → Type 0
IsDistinct [] = Unit
IsDistinct (e ∷ es) = All (λ x. (e.seq == x.seq) ≡ false) es × IsDistinct es

-- At most one entry over the capacity, the marker, and then nothing is waiting to be marked; every
-- entry has a sequence number of its own that was given out, and a line that the server accepts.
pub record IsBuffer (b : LogBuffer) : Type 0 where
  pub bounded :
      (length b.pending ≤ b.capacity)
      ⊎ ((length b.pending ≤ b.capacity + 1) × (b.dropped_since_marker ≡ 0))
  pub numbered : All (λ e. e.seq < b.next_seq) b.pending
  pub distinct : IsDistinct b.pending
  pub short : All IsShort b.pending

length-take : (n : ℕ) (t : Text) → length (take n t) ≤ n
length-take zero t = omega arith
length-take (suc n) [] = omega arith
length-take (suc n) (c ∷ t) = omega (arith, length-take n t)

length-append : (s t : Text) → length (s ++ t) ≡ length s + length t
length-append [] t = omega arith
length-append (c ∷ s) t = omega (arith, length-append s t)

not_lt : (a b : ℕ) → ltb a b ≡ false → b ≤ a
not_lt a b h = ground arith

length-clamp : (t : Text) → length (clamp t) ≤ max_log_message_chars
unfolding clamp
length-clamp t = elim (Bool-cases (ltb max_log_message_chars (length t))) [
  | inl long ↦
      let cut = length-append (take 3985 t) (0x2026 ∷ codes " [truncated]") in
      rw long (omega (arith, cut, length-take 3985 t))
  | inr short ↦ rw short (not_lt max_log_message_chars (length t) short)
]

shift_excess-length : (c : ℕ) (es : List LogEntry) (d : ℕ) → length (shift_excess c es d).0 ≤ c
unfolding shift_excess
shift_excess-length c [] d = omega arith
shift_excess-length c (e ∷ es) d = ground (arith, shift_excess-length c es (d + 1))

module _ {κ} (P : LogEntry → Type κ) where
  shift_excess-All : (c : ℕ) (es : List LogEntry) (d : ℕ) → All P es → All P (shift_excess c es d).0
  unfolding shift_excess
  shift_excess-All c [] d h = tt
  shift_excess-All c (e ∷ es) d h = elim (Bool-cases (ltb c (length (e ∷ es)))) [
    | inl over ↦ rw over (shift_excess-All c es (d + 1) h.1)
    | inr fits ↦ rw fits h
  ]

  drop-All : (n : ℕ) (es : List LogEntry) → All P es → All P (drop n es)
  unfolding drop
  drop-All zero es h = h
  drop-All (suc n) [] h = tt
  drop-All (suc n) (e ∷ es) h = drop-All n es h.1

shift_excess-IsDistinct :
    (c : ℕ) (es : List LogEntry) (d : ℕ) → IsDistinct es → IsDistinct (shift_excess c es d).0
unfolding shift_excess
shift_excess-IsDistinct c [] d h = tt
shift_excess-IsDistinct c (e ∷ es) d h = elim (Bool-cases (ltb c (length (e ∷ es)))) [
  | inl over ↦ rw over (shift_excess-IsDistinct c es (d + 1) h.1)
  | inr fits ↦ rw fits h
]

drop-IsDistinct : (n : ℕ) (es : List LogEntry) → IsDistinct es → IsDistinct (drop n es)
unfolding drop
drop-IsDistinct zero es h = h
drop-IsDistinct (suc n) [] h = tt
drop-IsDistinct (suc n) (e ∷ es) h = drop-IsDistinct n es h.1

drop-length : (n : ℕ) (es : List LogEntry) → length (drop n es) ≤ length es
unfolding drop
drop-length zero es = omega arith
drop-length (suc n) [] = omega arith
drop-length (suc n) (e ∷ es) = omega (arith, drop-length n es)

IsDistinct-append :
    (n : ℕ) (es : List LogEntry) (x : LogEntry)
    → x.seq ≡ n
    → All (λ e. e.seq < n) es
    → IsDistinct es
    → IsDistinct (es ++ (x ∷ []))
IsDistinct-append n [] x q l h = (tt, tt)
IsDistinct-append n (e ∷ es) x q l h =
    (All-append _ es (x ∷ []) h.0 (ground (arith, l.0), tt), IsDistinct-append n es x q l.1 h.1)

push-IsBuffer :
    (now : ℕ) (stream : LogStream) (b : LogBuffer) (t : Text)
    → IsBuffer b
    → IsBuffer (push now stream b t)
unfolding push new_entry
push-IsBuffer now stream b t i = record {
  bounded = inl (shift_excess-length b.capacity _ b.dropped_since_marker);
  numbered = shift_excess-All _ b.capacity _ b.dropped_since_marker (
      All-append _ b.pending _ (All-weaken _ (λ e l. omega (arith, l)) b.pending i.numbered)
        (omega arith, tt));
  distinct =
      shift_excess-IsDistinct b.capacity _ b.dropped_since_marker
        (IsDistinct-append b.next_seq b.pending _ refl i.numbered i.distinct);
  short =
      shift_excess-All _ b.capacity _ b.dropped_since_marker
        (All-append _ b.pending _ i.short (length-clamp t, tt));
}

push_all-IsBuffer :
    (now : ℕ) (stream : LogStream) (b : LogBuffer) (ts : List Text)
    → IsBuffer b
    → IsBuffer (push_all now stream b ts)
unfolding push_all
push_all-IsBuffer now stream b [] i = i
push_all-IsBuffer now stream b (t ∷ ts) i =
    push_all-IsBuffer now stream (push now stream b t) ts (push-IsBuffer now stream b t i)

place_marker-IsBuffer :
    (now d : ℕ) (b : LogBuffer)
    → b.dropped_since_marker ≡ d
    → IsBuffer b
    → IsBuffer (place_marker now d b)
unfolding place_marker
place_marker-IsBuffer now zero b e i = i
place_marker-IsBuffer now (suc d) b e i = record {
  bounded =
      inr (
        elim i.bounded [ inl l ↦ omega (arith, l) | inr p ↦ absurd (omega (arith, p.1, e)) ],
        refl,
      );
  numbered = (omega arith, All-weaken _ (λ x l. omega (arith, l)) b.pending i.numbered);
  distinct = (All-weaken _ (λ x l. ground (arith, l)) b.pending i.numbered, i.distinct);
  short = (tt, i.short);
}

confirm-IsBuffer : (n : ℕ) (b : LogBuffer) → IsBuffer b → IsBuffer (confirm n b)
unfolding confirm
confirm-IsBuffer n b i =
    let shorter = drop-length n b.pending in
    record {
      bounded = elim i.bounded [
        | inl l ↦ inl (omega (arith, l, shorter))
        | inr p ↦ inr (omega (arith, p.0, shorter), p.1)
      ];
      numbered = drop-All _ n b.pending i.numbered;
      distinct = drop-IsDistinct n b.pending i.distinct;
      short = drop-All _ n b.pending i.short;
    }

step-IsBuffer : (b : LogBuffer) (c : Call) → IsBuffer b → IsBuffer (step b c)
unfolding step append peek_batch marked
step-IsBuffer b (Call.appends now stream t) i = push_all-IsBuffer now stream b (split_lines t) i
step-IsBuffer b (Call.peeks now) i = place_marker-IsBuffer now b.dropped_since_marker b refl i
step-IsBuffer b (Call.confirms n) i = confirm-IsBuffer n b i

-- Whatever a job appends and its flushes peek at and confirm, in any order and however flushes
-- overlap, the buffer holds at most one entry more than its capacity, no two entries have the same
-- sequence number, every number is below the next one, and no line has more code units than the
-- server accepts; this holds after any calls if it holds before them.
pub history-IsBuffer : (calls : List Call) (b : LogBuffer) → IsBuffer b → IsBuffer (history calls b)
unfolding history
history-IsBuffer [] b i = i
history-IsBuffer (c ∷ cs) b i = history-IsBuffer cs (step b c) (step-IsBuffer b c i)
