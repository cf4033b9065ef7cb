-- ===== src/BufferedWriter.antt =====
-- src/observer/net/buffered_writer.cpp and .h: output to a descriptor through a ring buffer.
-- The system call ::write is not the program's: `future` lists what its next calls come to, and `out` is what the
-- descriptor has taken. Where that list ends, a call has not returned, and the result is `none`.
-- The size that the source passes beside a pointer is the length of the data here.
pub mod Send
pub mod Loop
pub mod Flush
pub mod Put
pub mod Writen
mod Tests
use ob_preliminary.Common.{
  ℕ, zero, suc, ◌+◌, ◌-◌, Bool, true, false, ◌&&◌, Option, none, some, List, [], ◌∷◌, ◌++◌, ltb,
  ◌==◌, if◌then◌else◌, length, take, drop, min, read_at,
}
use ob_preliminary.Common.Int.{ℤ, pos, pos_part}
use ob_preliminary.Common.Rc.{Rc, ob_succ}
use ob_preliminary.Common.System.{WriteResult, wrote, again, fails}
use ob_preliminary.RingBuffer
use ob_preliminary.RingBuffer.{RingBuffer, capacity, remain, region}

pub record Sink : Type 0 where
  pub out : List ℕ
  pub future : List WriteResult

pub record BufferedWriter : Type 0 where
  -- `fd_ >= 0`
  pub is_open : Bool
  pub buffer : RingBuffer

-- What the loop `while (tmp_write_size == 0)` around ::write comes to.
pub data Sent : Type 0 where
  sent : ℕ → List WriteResult → Sent
  failed : List WriteResult → Sent
  waiting : Sent

unfoldable pub send : List WriteResult → ℕ → Sent
send [] read_size = waiting
send (again ∷ future) read_size = send future read_size
send (fails ∷ future) read_size = failed future
send (wrote k ∷ future) read_size =
    let rest = send future read_size in
    if min k read_size == 0 then rest else sent (min k read_size) future

-- The loop of `flush_internal`, `left` being size - write_size. Each round uses up a result of ::write, so
-- a fuel of one more than their number is enough.
unfoldable pub flush_loop : ℕ → RingBuffer → Sink → ℕ → Option (Rc × RingBuffer × Sink)
flush_loop zero r k left = none
flush_loop (suc fuel) r k left =
    if ltb 0 r.data_size && ltb 0 left
    then elim (send k.future (pos_part (region r).1)) [
      | waiting ↦ none
      | failed future ↦ some (Rc.ioerr_write, r, record k { future = future })
      | sent n future ↦
          flush_loop fuel (RingBuffer.forward r (pos n)).1
            (record {
              out =
                  k.out
                  ++ take n (read_at r.buffer (pos_part (region r).0) (pos_part (region r).1));
              future = future;
            })
            (left - n)
    ]
    else some (Rc.success, r, k)

unfoldable pub flush_internal : BufferedWriter → Sink → ℕ → Option (Rc × BufferedWriter × Sink)
unfolding flush_loop
flush_internal b k size =
    if b.is_open
    then elim (flush_loop (suc (length k.future)) b.buffer k size) [
      | none ↦ none
      | some (rc, r, k') ↦ some (rc, record b { buffer = r }, k')
    ]
    else some (Rc.invalid_argument, b, k)

-- The loop of `flush`: each successful round sends a byte at least.
unfoldable pub flush_rounds : ℕ → BufferedWriter → Sink → Option (Rc × BufferedWriter × Sink)
flush_rounds zero b k = none
flush_rounds (suc fuel) b k =
    if ltb 0 (b.buffer.data_size)
    then elim (flush_internal b k (b.buffer.data_size)) [
      | none ↦ none
      | some (rc, b', k') ↦ elim (ob_succ rc) [
        | true ↦ flush_rounds fuel b' k'
        | false ↦ some (rc, b', k')
      ]
    ]
    else some (Rc.success, b, k)

unfoldable pub flush : BufferedWriter → Sink → Option (Rc × BufferedWriter × Sink)
unfolding flush_rounds
flush b k =
    if b.is_open
    then flush_rounds (suc (b.buffer.data_size)) b k
    else some (Rc.invalid_argument, b, k)

unfoldable pub close : BufferedWriter → Sink → Option (Rc × BufferedWriter × Sink)
close b k =
    if b.is_open
    then elim (flush b k) [
      | none ↦ none
      | some (rc, b', k') ↦
          if ob_succ rc
          then some (Rc.success, record b' { is_open = false }, k')
          else some (rc, b', k')
    ]
    else some (Rc.success, b, k)

-- `buffer_.write` at the end of `write`.
unfoldable pub put : BufferedWriter → Sink → List ℕ → Rc × ℕ × BufferedWriter × Sink
put b k data_in =
    let (rc, n, r) = RingBuffer.write b.buffer data_in (pos (length data_in)) in
    (rc, n, record b { buffer = r }, k)

unfoldable pub write : BufferedWriter → Sink → List ℕ → Option (Rc × ℕ × BufferedWriter × Sink)
write b k data_in =
    if b.is_open
    then (if remain b.buffer == 0
        then elim (flush_internal b k (length data_in)) [
          | none ↦ none
          | some (rc, b', k') ↦
              if ob_succ rc then some (put b' k' data_in) else some (rc, 0, b', k')
        ]
        else some (put b k data_in))
    else some (Rc.invalid_argument, 0, b, k)

unfoldable pub go_back : BufferedWriter → ℤ → Rc × BufferedWriter
go_back b size =
    if b.is_open
    then (if remain b.buffer == capacity b.buffer
        then (Rc.variable_not_valid, b)
        else (let (rc, r) = RingBuffer.go_back b.buffer size in (rc, record b { buffer = r })))
    else (Rc.invalid_argument, b)

-- The loop of `writen` over the data that is left: each round that succeeds writes a byte at least, so
-- a fuel of one more than their number is enough.
unfoldable pub writen_loop :
    ℕ → BufferedWriter → Sink → List ℕ → Option (Rc × BufferedWriter × Sink)
writen_loop zero b k rest = none
writen_loop (suc fuel) b k [] = some (Rc.success, b, k)
writen_loop (suc fuel) b k (x ∷ xs) = elim (write b k (x ∷ xs)) [
  | none ↦ none
  | some (rc, n, b', k') ↦ elim (ob_succ rc) [
    | true ↦ writen_loop fuel b' k' (drop n (x ∷ xs))
    | false ↦ some (rc, b', k')
  ]
]

unfoldable pub writen : BufferedWriter → Sink → List ℕ → Option (Rc × BufferedWriter × Sink)
unfolding writen_loop
writen b k data_in =
    if b.is_open
    then writen_loop (suc (length data_in)) b k data_in
    else some (Rc.invalid_argument, b, k)
