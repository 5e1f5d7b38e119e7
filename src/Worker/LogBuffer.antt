-- ===== src/Worker/LogBuffer.antt =====
-- apps/worker/src/log-buffer.ts: the buffer of log lines between a job and the server. The text of
-- the marker for dropped lines is kept as its count. `now` is the clock.
pub mod Invariant
pub mod Flush
use mac_bennet.Prelude.{
  ℕ, zero, suc, ◌+◌, ◌-◌, Bool, List, [], ◌∷◌, ◌++◌, ◌==◌, ltb, if◌then◌else◌, length, take, codes,
}
use mac_bennet.Runs.Db.{Text}

-- LOG_STREAMS of packages/protocol/src/enums.ts
pub data LogStream : Type 0 where
  stdout stderr system : LogStream

pub data Message : Type 0 where
  line : Text → Message
  dropped_marker : ℕ → Message

pub record LogEntry : Type 0 where
  pub seq : ℕ
  pub ts : ℕ
  pub stream : LogStream
  pub message : Message

pub record LogBuffer : Type 0 where
  pub capacity : ℕ
  pub batch_size : ℕ
  pub pending : List LogEntry
  pub next_seq : ℕ
  pub dropped_since_marker : ℕ

-- MAX_LOG_MESSAGE_CHARS and MAX_LOG_BATCH_ENTRIES of packages/protocol/src/worker-protocol.ts
abbrev pub max_log_message_chars : ℕ
max_log_message_chars = 4000

abbrev pub default_capacity : ℕ
default_capacity = 5000

-- `new LogBuffer()`: the batch size is `Math.min(200, MAX_LOG_BATCH_ENTRIES)`, which is 200 of 500.
abbrev pub new_log_buffer : LogBuffer
new_log_buffer = record {
  capacity = default_capacity;
  batch_size = 200;
  pending = [];
  next_seq = 0;
  dropped_since_marker = 0;
}

abbrev newline : ℕ
newline = 10

-- A code unit in front of the first of the parts.
unfoldable pub onto_first : ℕ → List Text → List Text
onto_first c [] = (c ∷ []) ∷ []
onto_first c (p ∷ ps) = (c ∷ p) ∷ ps

-- `split('\n')`
unfoldable pub split_lines : Text → List Text
split_lines [] = [] ∷ []
split_lines (c ∷ t) =
    let rest = split_lines t in if c == newline then [] ∷ rest else onto_first c rest

unfoldable pub clamp : Text → Text
clamp message =
    if ltb max_log_message_chars (length message)
    then take (max_log_message_chars - 15) message ++ 0x2026 ∷ codes " [truncated]"
    else message

-- `while (pending.length > capacity) { pending.shift(); droppedSinceMarker += 1; }`
unfoldable pub shift_excess : ℕ → List LogEntry → ℕ → List LogEntry × ℕ
shift_excess capacity [] dropped = ([], dropped)
shift_excess capacity (e ∷ es) dropped =
    let rest = shift_excess capacity es (dropped + 1) in
    if ltb capacity (length (e ∷ es)) then rest else (e ∷ es, dropped)

unfoldable pub new_entry : ℕ → LogStream → LogBuffer → Text → LogEntry
new_entry now stream b message = record {
  seq = b.next_seq;
  ts = now;
  stream = stream;
  message = Message.line (clamp message);
}

unfoldable pub push : ℕ → LogStream → LogBuffer → Text → LogBuffer
push now stream b message =
    let kept =
      shift_excess b.capacity (b.pending ++ (new_entry now stream b message ∷ []))
        b.dropped_since_marker in
    record b { pending = kept.0; next_seq = b.next_seq + 1; dropped_since_marker = kept.1 }

unfoldable pub push_all : ℕ → LogStream → LogBuffer → List Text → LogBuffer
push_all now stream b [] = b
push_all now stream b (m ∷ ms) = push_all now stream (push now stream b m) ms

unfoldable pub append : ℕ → LogStream → Text → LogBuffer → LogBuffer
append now stream message b = push_all now stream b (split_lines message)

-- The buffer after `peekBatch` has put its marker in front.
unfoldable pub place_marker : ℕ → ℕ → LogBuffer → LogBuffer
place_marker now zero b = b
place_marker now (suc dropped) b =
    let marker : LogEntry = record {
      seq = b.next_seq;
      ts = now;
      stream = LogStream.system;
      message = Message.dropped_marker (suc dropped);
    } in
    record b { pending = marker ∷ b.pending; next_seq = b.next_seq + 1; dropped_since_marker = 0 }

unfoldable pub marked : ℕ → LogBuffer → LogBuffer
marked now b = place_marker now b.dropped_since_marker b

unfoldable pub peek_batch : ℕ → LogBuffer → List LogEntry × LogBuffer
peek_batch now b = (take b.batch_size (marked now b).pending, marked now b)

-- `splice(0, count)`
unfoldable pub drop : ℕ → List LogEntry → List LogEntry
drop zero es = es
drop (suc n) [] = []
drop (suc n) (e ∷ es) = drop n es

unfoldable pub confirm : ℕ → LogBuffer → LogBuffer
confirm count b = record b { pending = drop count b.pending }

-- What happens during one `await send(batch)`: it is accepted or throws, the server and its log
-- move to another state `W`, and the job appends messages meanwhile.
pub record Appended : Type 0 where
  pub at : ℕ
  pub stream : LogStream
  pub text : Text

pub data Sent (W : Type 0) : Type 0 where
  accepted threw : W → List Appended → Sent W

unfoldable pub append_each : List Appended → LogBuffer → LogBuffer
append_each [] b = b
append_each (m ∷ ms) b = append_each ms (append m.at m.stream m.text b)

pub data FlushEnd (W : Type 0) : Type 0 where
  flushed : ℕ → W → LogBuffer → FlushEnd W
  failed : W → LogBuffer → FlushEnd W
  out_of_fuel : FlushEnd W

-- One round on a batch, and then the next.
unfoldable pub flush_batch :
    {W : Type 0}
    → (List LogEntry → W → Sent W)
    → (ℕ → W → LogBuffer → FlushEnd W)
    → ℕ
    → W
    → LogBuffer
    → List LogEntry
    → FlushEnd W
flush_batch send next sent w b [] = FlushEnd.flushed sent w b
flush_batch send next sent w b (e ∷ es) = elim (send (e ∷ es) w) [
  | Sent.threw w' appended ↦ FlushEnd.failed w' (append_each appended b)
  | Sent.accepted w' appended ↦
      next (sent + length (e ∷ es)) w' (confirm (length (e ∷ es)) (append_each appended b))
]

-- `flush`: a round for each unit of fuel, which also gives the time of the round.
unfoldable pub flush :
    {W : Type 0} → (ℕ → ℕ) → (List LogEntry → W → Sent W) → ℕ → ℕ → W → LogBuffer → FlushEnd W
flush clock send zero sent w b = FlushEnd.out_of_fuel
flush clock send (suc fuel) sent w b = elim b.pending [
  | [] ↦ FlushEnd.flushed sent w b
  | e ∷ es ↦
      let peeked = peek_batch (clock fuel) b in
      flush_batch send (flush clock send fuel) sent w peeked.1 peeked.0
]
