-- ===== src/BufferedWriter/Tests.antt =====
-- Runs of a writer over a ring of four bytes.
use ob_preliminary.Common.{ℕ, ◌≡◌, ◌++◌, refl, true, some, List, [], ◌∷◌, arith}
use ob_preliminary.Common.Int.{pos}
use ob_preliminary.Common.Rc.{Rc}
use ob_preliminary.RingBuffer.{
  write as ring_write, write_loop, put_chunk, free_run, read_pos, region, forward,
}
use ob_preliminary.RingBuffer.Inv.{IsRing, contents}
use ob_preliminary.Common.System.{wrote, again, fails}
use ob_preliminary.BufferedWriter.{
  Sink, BufferedWriter, flush, write, writen, flush_rounds, flush_internal, flush_loop, send,
  writen_loop, put,
}
use ob_preliminary.BufferedWriter.Flush.{flush_keeps_bytes, flush_sends_all}
use ob_preliminary.BufferedWriter.Writen.{writen_takes_all}

-- The bytes 1, 2, 3 with the oldest at place 2.
abbrev writer : BufferedWriter
writer = record {
  is_open = true;
  buffer = record { buffer = 3 ∷ 0 ∷ 1 ∷ 2 ∷ []; data_size = 3; write_pos = pos 1 };
}

ring-IsRing : IsRing (writer.buffer) 1
ring-IsRing = record { here = refl; inside = omega arith; holds = omega arith }

-- The first call is interrupted, the next take a byte or more.
abbrev willing : Sink
willing = record {
  out = 9 ∷ [];
  future = again ∷ wrote 1 ∷ wrote 2 ∷ wrote 4 ∷ wrote 1 ∷ wrote 1 ∷ wrote 1 ∷ wrote 1 ∷ [];
}

-- The second call fails.
abbrev broken : Sink
broken = record { out = 9 ∷ []; future = wrote 1 ∷ fails ∷ [] }

flush_sends_all_example :
    (b' : BufferedWriter) × (k' : Sink) × (flush writer willing ≡ some (Rc.success, b', k'))
    × (k'.out ≡ 9 ∷ contents (writer.buffer) 1)
    × (b'.buffer.data_size ≡ 0)
flush_sends_all_example = flush_sends_all writer 1 willing refl ring-IsRing (omega arith)

writen_takes_all_example :
    (b' : BufferedWriter) × (k' : Sink) × (w' : ℕ) × (writen writer willing (5 ∷ 6 ∷ [])
      ≡ some (Rc.success, b', k'))
    × IsRing (b'.buffer) w'
    × (k'.out ++ contents (b'.buffer) w' ≡ (9 ∷ contents (writer.buffer) 1) ++ 5 ∷ 6 ∷ [])
writen_takes_all_example =
    writen_takes_all writer 1 willing (5 ∷ 6 ∷ []) refl ring-IsRing (omega arith)

-- One byte is sent before the failure.
abbrev after_failure : BufferedWriter
after_failure = record writer { buffer = record (writer.buffer) { data_size = 2 } }

failing_flush :
    flush writer broken
    ≡ some (Rc.ioerr_write, after_failure, record { out = 9 ∷ 1 ∷ []; future = [] })
unfolding flush flush_rounds flush_internal flush_loop send region read_pos forward
failing_flush = refl

flush_keeps_bytes_example :
    IsRing (after_failure.buffer) 1
    × ((9 ∷ 1 ∷ []) ++ contents (after_failure.buffer) 1 ≡ 9 ∷ contents (writer.buffer) 1)
    × (Rc.ioerr_write ≡ Rc.success → 9 ∷ 1 ∷ [] ≡ 9 ∷ contents (writer.buffer) 1)
flush_keeps_bytes_example =
    flush_keeps_bytes writer 1 broken Rc.ioerr_write after_failure
      (record { out = 9 ∷ 1 ∷ []; future = [] }) refl ring-IsRing failing_flush

abbrev five : List ℕ
five = 5 ∷ []

abbrev after_write : BufferedWriter
after_write = record writer {
  buffer = record { buffer = 3 ∷ 5 ∷ 1 ∷ 2 ∷ []; data_size = 4; write_pos = pos 2 };
}

fitting_write : writen writer broken five ≡ some (Rc.success, after_write, broken)
unfolding writen writen_loop write put ring_write write_loop put_chunk free_run read_pos
fitting_write = refl
