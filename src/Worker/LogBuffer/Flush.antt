-- ===== src/Worker/LogBuffer/Flush.antt =====
-- A flush during which the job appends nothing: that it ends, and what the server has received.
use mac_bennet.Prelude.{
  ℕ, zero, suc, ◌+◌, ◌≡◌, ◌≤◌, ◌<◌, refl, ap, ◌∙◌, List, [], ◌∷◌, ◌++◌, arith, length, take,
}
use mathlib.Core.List.{append_assoc, append-nil}
use mac_bennet.Worker.LogBuffer.{
  LogEntry, LogBuffer, LogStream, Message, Sent, FlushEnd, flush, flush_batch, peek_batch, marked,
  place_marker, confirm, drop, append_each,
}

length-drop : (n : ℕ) (es : List LogEntry) → length (drop n es) ≤ length es
unfolding drop
length-drop zero es = omega arith
length-drop (suc n) [] = omega arith
length-drop (suc n) (e ∷ es) = omega (arith, length-drop n es)

take-drop : (n : ℕ) (es : List LogEntry) → take n es ++ drop (length (take n es)) es ≡ es
unfolding drop
take-drop zero es = refl
take-drop (suc n) [] = refl
take-drop (suc n) (e ∷ es) = ap (λ l. e ∷ l) (take-drop n es)

length-take-drop :
    (n : ℕ) (es : List LogEntry)
    → length (take n es) + length (drop (length (take n es)) es) ≡ length es
unfolding drop
length-take-drop zero es = omega arith
length-take-drop (suc n) [] = omega arith
length-take-drop (suc n) (e ∷ es) = omega (arith, length-take-drop n es)

-- A buffer by its fields.
abbrev pub buffer : ℕ → ℕ → List LogEntry → ℕ → ℕ → LogBuffer
buffer capacity batch_size pending next_seq dropped = record {
  capacity = capacity;
  batch_size = batch_size;
  pending = pending;
  next_seq = next_seq;
  dropped_since_marker = dropped;
}

-- The marker for `suc d` dropped lines.
abbrev pub marker : ℕ → ℕ → ℕ → LogEntry
marker now s d = record {
  seq = s;
  ts = now;
  stream = LogStream.system;
  message = Message.dropped_marker (suc d);
}

-- Nothing is appended while the batch is sent.
pub data IsQuiet {W : Type 0} : Sent W → Type 0 where
  accepts : (w : W) → IsQuiet (Sent.accepted w [])
  throws : (w : W) → IsQuiet (Sent.threw w [])

-- The flush has emptied the buffer, or the server has thrown.
abbrev pub IsEnded : {W : Type 0} → FlushEnd W → Type 0
IsEnded (FlushEnd.flushed sent w b) = b.pending ≡ []
IsEnded (FlushEnd.failed w b) = Unit
IsEnded FlushEnd.out_of_fuel = ⊥

module _ {W : Type 0} (clock : ℕ → ℕ) (send : List LogEntry → W → Sent W)
    (quiet : (batch : List LogEntry) (w : W) → IsQuiet (send batch w)) (c k : ℕ) where
  round_ends :
      (next : ℕ → W → LogBuffer → FlushEnd W) (sent : ℕ) (w : W) (e : LogEntry) (es : List LogEntry)
      (b : LogBuffer) (o : Sent W)
      → send (e ∷ es) w ≡ o
      → IsQuiet o
      → ((w' : W) → IsEnded (next (sent + length (e ∷ es)) w' (confirm (length (e ∷ es)) b)))
      → IsEnded (flush_batch send next sent w b (e ∷ es))
  unfolding flush_batch append_each
  round_ends next sent w e es b _ h (accepts w') n = rw (h, flush_batch) (n w')
  round_ends next sent w e es b _ h (throws w') n = rw (h, flush_batch) tt

  plain_ends :
      (fuel sent : ℕ) (w : W) (es : List LogEntry) (s : ℕ)
      → length es < fuel
      → IsEnded (flush clock send fuel sent w (buffer c (suc k) es s 0))
  unfolding flush peek_batch marked place_marker confirm drop
  plain_ends zero sent w es s l = absurd (omega arith)
  plain_ends (suc fuel) sent w [] s l = refl
  plain_ends (suc fuel) sent w (e ∷ es) s l =
      round_ends (flush clock send fuel) sent w e (take k es) (buffer c (suc k) (e ∷ es) s 0) _ refl
        (quiet (e ∷ take k es) w)
        (λ w'.
          plain_ends fuel _ w' (drop (length (take k es)) es) s
            (omega (arith, length-drop (length (take k es)) es)))

  full_ends :
      (fuel sent : ℕ) (w : W) (es : List LogEntry) (s d : ℕ)
      → length es + 1 < fuel
      → IsEnded (flush clock send fuel sent w (buffer c (suc k) es s d))
  unfolding flush peek_batch marked place_marker confirm drop
  full_ends zero sent w es s d l = absurd (omega arith)
  full_ends (suc fuel) sent w es s zero l = plain_ends (suc fuel) sent w es s (omega arith)
  full_ends (suc fuel) sent w [] s (suc d) l = refl
  full_ends (suc fuel) sent w (e ∷ es) s (suc d) l =
      round_ends (flush clock send fuel) sent w (marker (clock fuel) s d) (take k (e ∷ es))
        (buffer c (suc k) (marker (clock fuel) s d ∷ e ∷ es) (s + 1) 0) _ refl
        (quiet (marker (clock fuel) s d ∷ take k (e ∷ es)) w)
        (λ w'.
          plain_ends fuel _ w' (drop (length (take k (e ∷ es))) (e ∷ es)) (s + 1)
            (omega (arith, length-drop (length (take k (e ∷ es))) (e ∷ es))))

-- A flush ends: for every buffer with a positive batch size, and every server that accepts or
-- throws in each round as it likes while nothing is appended, two rounds more than there are
-- lines are enough fuel, and the flush has then emptied the buffer or thrown.
pub flush-ends :
    {W : Type 0} (clock : ℕ → ℕ) (send : List LogEntry → W → Sent W)
    → ((batch : List LogEntry) (w : W) → IsQuiet (send batch w))
    → (b : LogBuffer) (fuel sent : ℕ) (w : W) → 0 < b.batch_size
    → length b.pending + 1 < fuel
    → IsEnded (flush clock send fuel sent w b)
flush-ends clock send quiet b fuel sent w p l = sized b.batch_size p (λ k.
    full_ends clock send quiet b.capacity k fuel sent w b.pending b.next_seq b.dropped_since_marker
      l)
  where
    sized :
        (n : ℕ)
        → 0 < n
        → ((k : ℕ)
            → IsEnded (
                flush clock send fuel sent w
                  (buffer b.capacity (suc k) b.pending b.next_seq b.dropped_since_marker)))
        → IsEnded (
            flush clock send fuel sent w
              (buffer b.capacity n b.pending b.next_seq b.dropped_since_marker))
    sized zero p h = absurd (omega arith)
    sized (suc k) p h = h k

-- A server that keeps what it receives.
unfoldable pub receive : List LogEntry → List LogEntry → Sent (List LogEntry)
receive batch log = Sent.accepted (log ++ batch) []

-- What a flush has to send: the marker, if lines were dropped, and the lines.
abbrev pub outstanding : ℕ → LogBuffer → List LogEntry
outstanding now b = (marked now b).pending

plain_delivers :
    (clock : ℕ → ℕ) (c k fuel sent : ℕ) (log es : List LogEntry) (s : ℕ)
    → length es < fuel
    → flush clock receive fuel sent log (buffer c (suc k) es s 0)
      ≡ FlushEnd.flushed (sent + length es) (log ++ es) (buffer c (suc k) [] s 0)
unfolding flush flush_batch receive peek_batch marked place_marker confirm drop append_each
plain_delivers clock c k zero sent log es s l = absurd (omega arith)
plain_delivers clock c k (suc fuel) sent log [] s l =
    let same : sent + 0 ≡ sent = omega arith in rw (append-nil, same) refl
plain_delivers clock c k (suc fuel) sent log (e ∷ es) s l =
    let rest = drop (length (take k es)) es in
    let count : sent + suc (length (take k es)) + length rest ≡ sent + length (e ∷ es) =
      omega (arith, length-take-drop k es) in
    let all : (log ++ (e ∷ take k es)) ++ rest ≡ log ++ (e ∷ es) =
      append_assoc log (e ∷ take k es) rest ∙ ap (λ x. log ++ (e ∷ x)) (take-drop k es) in
    plain_delivers clock c k fuel (sent + suc (length (take k es))) (log ++ (e ∷ take k es)) rest s
      (omega (arith, length-drop (length (take k es)) es))
    ∙ ap (λ n. FlushEnd.flushed n ((log ++ (e ∷ take k es)) ++ rest) (buffer c (suc k) [] s 0))
        count
    ∙ ap (λ x. FlushEnd.flushed (sent + length (e ∷ es)) x (buffer c (suc k) [] s 0)) all

full_delivers :
    (clock : ℕ → ℕ) (c k fuel : ℕ) (log es : List LogEntry) (s d : ℕ) (e : LogEntry)
    → length (e ∷ es) < fuel
    → flush clock receive (suc fuel) 0 log (buffer c (suc k) (e ∷ es) s (suc d))
      ≡ FlushEnd.flushed
          (suc (length (e ∷ es)))
          (log ++ (marker (clock fuel) s d ∷ e ∷ es))
          (buffer c (suc k) [] (s + 1) 0)
unfolding flush flush_batch receive peek_batch marked place_marker confirm drop append_each
full_delivers clock c k fuel log es s d e l =
    let m = marker (clock fuel) s d in
    let sent = take k (e ∷ es) in
    let rest = drop (length sent) (e ∷ es) in
    let count : 0 + suc (length sent) + length rest ≡ suc (length (e ∷ es)) =
      omega (arith, length-take-drop k (e ∷ es)) in
    let all : (log ++ (m ∷ sent)) ++ rest ≡ log ++ (m ∷ e ∷ es) =
      append_assoc log (m ∷ sent) rest ∙ ap (λ x. log ++ (m ∷ x)) (take-drop k (e ∷ es)) in
    plain_delivers clock c k fuel (0 + suc (length sent)) (log ++ (m ∷ sent)) rest (s + 1)
      (omega (arith, length-drop (length sent) (e ∷ es)))
    ∙ ap (λ n. FlushEnd.flushed n ((log ++ (m ∷ sent)) ++ rest) (buffer c (suc k) [] (s + 1) 0))
        count
    ∙ ap (λ x. FlushEnd.flushed (suc (length (e ∷ es))) x (buffer c (suc k) [] (s + 1) 0)) all

-- A flush to a server that accepts every batch, while nothing is appended, delivers every line in
-- order and once: for a buffer that holds at least one line, with a positive batch size and more
-- fuel than it has lines, it returns the number of entries sent, the server's log is
-- followed by the marker, if lines were dropped, and all pending lines, and the buffer is empty.
pub flush-receive :
    (clock : ℕ → ℕ) (fuel : ℕ) (log : List LogEntry) (b : LogBuffer)
    → 0 < b.batch_size
    → 0 < length b.pending
    → length b.pending < fuel
    → flush clock receive (suc fuel) 0 log b
      ≡ FlushEnd.flushed
          (length (outstanding (clock fuel) b))
          (log ++ outstanding (clock fuel) b)
          (record (marked (clock fuel) b) { pending = [] })
unfolding marked place_marker
flush-receive clock fuel log b p q l =
    fields b.capacity b.batch_size b.pending b.next_seq b.dropped_since_marker p q l
  where
    fields :
        (c n : ℕ) (es : List LogEntry) (s d : ℕ)
        → 0 < n
        → 0 < length es
        → length es < fuel
        → flush clock receive (suc fuel) 0 log (buffer c n es s d)
          ≡ FlushEnd.flushed
              (length (outstanding (clock fuel) (buffer c n es s d)))
              (log ++ outstanding (clock fuel) (buffer c n es s d))
              (record (marked (clock fuel) (buffer c n es s d)) { pending = [] })
    fields c zero es s d p q l = absurd (omega arith)
    fields c (suc k) [] s d p q l = absurd (omega arith)
    fields c (suc k) (e ∷ es) s zero p q l =
        let none_before : 0 + length (e ∷ es) ≡ length (e ∷ es) = omega arith in
        plain_delivers clock c k (suc fuel) 0 log (e ∷ es) s (omega arith)
        ∙ ap (λ n. FlushEnd.flushed n (log ++ (e ∷ es)) (buffer c (suc k) [] s 0)) none_before
    fields c (suc k) (e ∷ es) s (suc d) p q l = full_delivers clock c k fuel log es s d e l
