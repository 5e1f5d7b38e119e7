-- ===== src/Worker/Examples.antt =====
-- A buffer of three lines that overflows, is flushed, and what overlapping calls lose.
use mac_bennet.Prelude.{ℕ, zero, suc, ◌≡◌, refl, inl, arith, List, [], ◌∷◌, codes}
use mac_bennet.Worker.LogBuffer.{
  LogStream, Message, LogEntry, LogBuffer, Sent, FlushEnd, onto_first, split_lines, clamp,
  shift_excess, new_entry, push, push_all, append, place_marker, marked, peek_batch, drop, confirm,
  flush,
}
use mac_bennet.Worker.LogBuffer.Invariant.{Call, IsBuffer, history, step, history-IsBuffer}
use mac_bennet.Worker.LogBuffer.Flush.{
  IsQuiet, IsEnded, accepts, throws, flush-ends, flush-receive, receive,
}

abbrev empty_buffer : LogBuffer
empty_buffer = record {
  capacity = 3;
  batch_size = 2;
  pending = [];
  next_seq = 0;
  dropped_since_marker = 0;
}

abbrev entry : ℕ → LogEntry
entry n = record { seq = n; ts = 0; stream = LogStream.stdout; message = Message.line (codes "x") }

-- Five lines: two are dropped.
filled : LogBuffer
filled = append 0 LogStream.stdout (codes "x\nx\nx\nx\nx") empty_buffer

filled_test : filled ≡ record empty_buffer {
  pending = entry 2 ∷ entry 3 ∷ entry 4 ∷ [];
  next_seq = 5;
  dropped_since_marker = 2;
}
unfolding filled append split_lines onto_first push_all push new_entry clamp shift_excess
filled_test = refl

abbrev two_lines : LogBuffer
two_lines = record empty_buffer { pending = entry 0 ∷ entry 1 ∷ []; next_seq = 2 }

empty-IsBuffer : IsBuffer empty_buffer
empty-IsBuffer = record { bounded = inl (omega arith); numbered = tt; distinct = tt; short = tt }

abbrev calls : List Call
calls =
    Call.appends 0 LogStream.stdout (codes "x\nx\nx\nx")
    ∷ Call.peeks 1
    ∷ Call.appends 2 LogStream.stderr (codes "x")
    ∷ Call.confirms 2
    ∷ []

history-IsBuffer_example : IsBuffer (history calls empty_buffer)
history-IsBuffer_example = history-IsBuffer calls empty_buffer empty-IsBuffer

flush-receive_example :
    flush (λ k. k) receive 4 0 [] two_lines
    ≡ FlushEnd.flushed 2 (entry 0 ∷ entry 1 ∷ []) (record two_lines { pending = [] })
unfolding marked place_marker
flush-receive_example =
    flush-receive (λ k. k) 3 [] two_lines (omega arith) (omega arith) (omega arith)

-- A server that accepts one batch and then throws.
throws_later : List LogEntry → ℕ → Sent ℕ
throws_later batch zero = Sent.accepted 1 []
throws_later batch (suc n) = Sent.threw n []

throws_later-IsQuiet : (batch : List LogEntry) (w : ℕ) → IsQuiet (throws_later batch w)
unfolding throws_later
throws_later-IsQuiet batch zero = accepts 1
throws_later-IsQuiet batch (suc n) = throws n

flush-ends_example : IsEnded (flush (λ k. k) throws_later 4 0 0 two_lines)
flush-ends_example =
    flush-ends (λ k. k) throws_later throws_later-IsQuiet two_lines 4 0 0 (omega arith)
      (omega arith)

-- Two flushes that overlap send lines 0 and 1 twice, and their second confirmation removes line 2,
-- which no batch held.
three_lines : LogBuffer
three_lines = record two_lines { pending = entry 0 ∷ entry 1 ∷ entry 2 ∷ []; next_seq = 3 }

overlap : List Call
overlap = Call.peeks 1 ∷ Call.peeks 1 ∷ Call.confirms 2 ∷ Call.confirms 2 ∷ []

overlap_test :
    ((peek_batch 1 three_lines).0 ≡ entry 0 ∷ entry 1 ∷ [])
    × ((history overlap three_lines).pending ≡ [])
unfolding three_lines overlap history step peek_batch marked place_marker confirm drop
overlap_test = (refl, refl)

-- A line that is appended while lines 0 and 1 are sent drops line 0, and the confirmation then
-- removes line 2, which was not sent.
overflow : List Call
overflow = Call.peeks 1 ∷ Call.appends 0 LogStream.stdout (codes "x") ∷ Call.confirms 2 ∷ []

overflow_test : (history overflow three_lines).pending ≡ entry 3 ∷ []
unfolding three_lines overflow history step peek_batch marked place_marker confirm drop append
    split_lines onto_first push_all push new_entry clamp shift_excess
overflow_test = refl
