-- ===== src/RingBuffer.antt =====
-- src/observer/net/ring_buffer.cpp and .h: the byte ring that buffers the output of a connection.
-- `write_pos_` is a signed number, since `go_back` subtracts from it; `data_size_` is never negative (the
-- guards of `forward` and `go_back` see to it). A `size` parameter is a signed number. A copy
-- with a negative offset or length is undefined behaviour in the source; here it takes the offset or
-- length zero, and `Inv` shows that a valid ring makes no such copy. The capacity is a natural number where the source has
-- an int32_t: `Inv.ring_in_bounds` keeps the sums in the 32-bit range for a ring of less than 2 ^ 30 bytes, and a larger
-- one, which the source could overflow on, is not wrapped here.
pub mod Inv
pub mod Segments
pub mod Chunk
pub mod Write
pub mod Read
pub mod Shown
pub mod GoBack
mod Tests
use ob_preliminary.Common.{
  ℕ, zero, suc, ◌+◌, ◌-◌, ◌*◌, Bool, true, false, Option, none, some, List, [], ◌∷◌, ◌++◌, leb, ltb,
  ◌==◌, if◌then◌else◌, length, take, drop, replicate, read_at, write_at, min,
}
use ob_preliminary.Common.Int.{ℤ, pos, negsuc, pos_part, ◌+ℤ◌, ◌-ℤ◌, ltb_ℤ, leb_ℤ, rem_ℤ}
use ob_preliminary.Common.Rc.{Rc, ob_succ}

abbrev pub default_buffer_size : ℕ
default_buffer_size = 1024 * 1024 * 2

pub record RingBuffer : Type 0 where
  pub buffer : List ℕ
  pub data_size : ℕ
  pub write_pos : ℤ

-- The constructor of a given size; the bytes of a `vector` are zero.
unfoldable pub make : ℕ → RingBuffer
make size = record { buffer = replicate size 0; data_size = 0; write_pos = pos 0 }

abbrev pub capacity : RingBuffer → ℕ
capacity r = length r.buffer

abbrev pub remain : RingBuffer → ℕ
remain r = capacity r - r.data_size

unfoldable pub read_pos : RingBuffer → ℤ
read_pos r = rem_ℤ (r.write_pos -ℤ pos r.data_size +ℤ pos (capacity r)) (capacity r)

-- `buffer`: the offset and the length of the next readable bytes.
unfoldable pub region : RingBuffer → ℤ × ℤ
region r =
    if r.data_size == 0
    then (pos 0, pos 0)
    else if ltb_ℤ (read_pos r) r.write_pos
    then (read_pos r, r.write_pos -ℤ read_pos r)
    else (read_pos r, pos (capacity r) -ℤ read_pos r)

unfoldable pub forward : RingBuffer → ℤ → Rc × RingBuffer
forward r size =
    if leb_ℤ size (pos 0)
    then (Rc.invalid_argument, r)
    else if ltb_ℤ (pos r.data_size) size
    then (Rc.invalid_argument, r)
    else (Rc.success, record r { data_size = r.data_size - pos_part size })

unfoldable pub go_back : RingBuffer → ℤ → Rc × RingBuffer
go_back r size =
    if leb_ℤ size (pos 0)
    then (Rc.invalid_argument, r)
    else if ltb_ℤ (pos r.data_size) size
    then (Rc.invalid_argument, r)
    else (
      Rc.success,
      record r { data_size = r.data_size - pos_part size; write_pos = r.write_pos -ℤ size },
    )

-- The size of the next contiguous free stretch, `tmp_buf_size`.
unfoldable pub free_run : RingBuffer → ℤ
free_run r =
    if leb_ℤ (read_pos r) r.write_pos
    then pos (capacity r) -ℤ r.write_pos
    else read_pos r -ℤ r.write_pos

-- One round of the loop of `write`, with the bytes that it copies.
unfoldable pub put_chunk : RingBuffer → List ℕ → RingBuffer
put_chunk r chunk = record {
  buffer = write_at r.buffer (pos_part r.write_pos) chunk;
  data_size = r.data_size + length chunk;
  write_pos = rem_ℤ (r.write_pos +ℤ pos (length chunk)) (capacity r);
}

-- The loop of `write` over the bytes that are left; it returns the number of bytes written.
unfoldable pub write_loop : ℕ → RingBuffer → List ℕ → ℕ × RingBuffer
write_loop zero r rest = (0, r)
write_loop (suc fuel) r rest =
    let copy_size = min (length rest) (pos_part (free_run r)) in
    let more = write_loop fuel (put_chunk r (take copy_size rest)) (drop copy_size rest) in
    if ltb 0 (length rest)
    then (if ltb 0 (remain r) then (copy_size + more.0, more.1) else (0, r))
    else (0, r)

-- `write`: each round copies at least a byte, so a fuel of one more than the size is enough.
unfoldable pub write : RingBuffer → List ℕ → ℤ → Rc × ℕ × RingBuffer
write r data_in size =
    if ltb_ℤ size (pos 0)
    then (Rc.invalid_argument, 0, r)
    else (let (n, r') = write_loop (suc (pos_part size)) r (take (pos_part size) data_in) in
        (Rc.success, n, r'))

-- The loop of `read`, while `left` more bytes are wanted; it returns the bytes copied out.
unfoldable pub read_loop : ℕ → RingBuffer → ℕ → Rc × List ℕ × RingBuffer
read_loop zero r left = (Rc.success, [], r)
read_loop (suc fuel) r left =
    let offset = (region r).0 in
    let copy_size = min left (pos_part (region r).1) in
    let chunk = read_at r.buffer (pos_part offset) copy_size in
    let moved = forward r (pos copy_size) in
    let more = read_loop fuel moved.1 (left - copy_size) in
    if ltb 0 left
    then (if ltb 0 r.data_size
        then if ob_succ moved.0
          then (more.0, chunk ++ more.1, more.2)
          else (moved.0, chunk, moved.1)
        else (Rc.success, [], r))
    else (Rc.success, [], r)

unfoldable pub read : RingBuffer → ℤ → Rc × List ℕ × RingBuffer
read r size =
    if ltb_ℤ size (pos 0)
    then (Rc.invalid_argument, [], r)
    else read_loop (suc (pos_part size)) r (pos_part size)
