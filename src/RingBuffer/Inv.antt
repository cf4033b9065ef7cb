-- ===== src/RingBuffer/Inv.antt =====
-- The representation invariant of the ring, and what it gives for the positions.
use ob_preliminary.Common.{
  ℕ, ◌+◌, ◌-◌, ◌%◌, ◌^◌, ◌≤◌, ◌<◌, ◌≡◌, refl, inl, inr, List, [], leb, ltb, if◌then◌else◌, length,
  length-replicate, replicate, min, arith, Bool-cases,
}
use native.Mathlib.Nat.{mod-eq_of_lt}
use ob_preliminary.Common.Int.{pos, negsuc, ◌+ℤ◌, ◌-ℤ◌, ◌≤ℤ◌, ◌<ℤ◌}
use ob_preliminary.RingBuffer.{RingBuffer, capacity, read_pos, region, free_run, make}
use ob_preliminary.RingBuffer.Segments.{cells}

-- The write position is `w`, a place of the buffer, and the ring holds no more than the buffer.
pub record IsRing (r : RingBuffer) (w : ℕ) : Type 0 where
  pub here : r.write_pos ≡ pos w
  pub inside : w < capacity r
  pub holds : r.data_size ≤ capacity r

-- Where the data of a ring starts.
abbrev pub start : ℕ → ℕ → ℕ → ℕ
start cap w d = if leb d w then w - d else w + cap - d

rem_small : (a m : ℕ) → a < m → a % m ≡ a
rem_small a m h = mod-eq_of_lt h

rem_wrap : (a m : ℕ) → a < m → (a + m) % m ≡ a
rem_wrap a m h = grind arith

pub read_pos-start :
    (r : RingBuffer) (w : ℕ) → IsRing r w → read_pos r ≡ pos (start (capacity r) w r.data_size)
unfolding read_pos
read_pos-start r w v = rw (v.here) (elim (Bool-cases (leb r.data_size w)) [
  | inl le ↦ ground (arith, rem_wrap (w - r.data_size) (capacity r) (ground arith))
  | inr gt ↦ ground (arith, rem_small (w + capacity r - r.data_size) (capacity r) (ground arith))
])

pub start_facts :
    (cap w d : ℕ)
    → w < cap
    → d ≤ cap
    → (start cap w d < cap)
      × (d ≤ w → start cap w d + d ≡ w)
      × (w < d → start cap w d + d ≡ w + cap)
start_facts cap w d h k = (ground arith, λ l. ground arith, λ l. ground arith)

-- What the ring holds, oldest byte first.
abbrev pub contents : RingBuffer → ℕ → List ℕ
contents r w = cells r.buffer (start (capacity r) w r.data_size) r.data_size

pub cells_none : (buf : List ℕ) (s : ℕ) → cells buf s 0 ≡ []
cells_none buf s =
    let a : min 0 (length buf - s) ≡ 0 = omega arith in
    let b : 0 - (length buf - s) ≡ 0 = omega arith in rw (a, b)

-- A new ring is valid and empty.
pub make-IsRing : (size : ℕ) → 0 < size → IsRing (make size) 0 × (contents (make size) 0 ≡ [])
unfolding make
make-IsRing size h =
    (record { here = refl; inside = omega (arith, room); holds = omega arith }, nothing)
  where
    room : capacity (make size) ≡ size
    room = length-replicate size 0

    nothing : contents (make size) 0 ≡ []
    nothing = cells_none (replicate size 0) 0

region_at :
    (r : RingBuffer) (w s : ℕ)
    → r.write_pos ≡ pos w
    → read_pos r ≡ pos s
    → s < capacity r
    → 0 < r.data_size
    → region r ≡ (pos s, pos (if ltb s w then w - s else capacity r - s))
unfolding region
region_at r w s e f l h = rw (f, e) (ground arith)

free_run_at :
    (r : RingBuffer) (w s : ℕ)
    → r.write_pos ≡ pos w
    → read_pos r ≡ pos s
    → w < capacity r
    → free_run r ≡ pos (if leb s w then capacity r - w else s - w)
unfolding free_run
free_run_at r w s e f l = rw (f, e) (ground arith)

-- The bytes that `region` shows: they start where the data starts and go to the write position or to the
-- end of the buffer.
pub region_lem :
    (r : RingBuffer) (w : ℕ)
    → IsRing r w
    → 0 < r.data_size
    → let s = start (capacity r) w r.data_size in
      (region r ≡ (pos s, pos (if ltb s w then w - s else capacity r - s)))
region_lem r w v h =
    region_at r w (start (capacity r) w r.data_size) v.here (read_pos-start r w v)
      (start_facts (capacity r) w r.data_size v.inside v.holds).0 h

pub free_run_lem :
    (r : RingBuffer) (w : ℕ)
    → IsRing r w
    → let s = start (capacity r) w r.data_size in
      free_run r ≡ pos (if leb s w then capacity r - w else s - w)
free_run_lem r w v =
    free_run_at r w (start (capacity r) w r.data_size) v.here (read_pos-start r w v) v.inside

-- In a valid ring of less than 2 ^ 30 bytes the sums of `read_pos` and of `write` stay in the
-- 32-bit range, and the copies of `write` and `read` stay inside the buffer: the free stretch begins at the
-- write position, the readable bytes at the read position, and neither passes the end.
pub ring_in_bounds :
    (r : RingBuffer) (w : ℕ)
    → IsRing r w
    → capacity r < 2 ^ 30
    → (negsuc (2 ^ 31 - 1) ≤ℤ r.write_pos -ℤ pos r.data_size)
      × (r.write_pos -ℤ pos r.data_size +ℤ pos (capacity r) ≤ℤ pos (2 ^ 31 - 1))
      × (r.write_pos +ℤ pos (capacity r) ≤ℤ pos (2 ^ 31 - 1))
      × (pos 0 ≤ℤ read_pos r)
      × (read_pos r <ℤ pos (capacity r))
      × (r.write_pos +ℤ free_run r ≤ℤ pos (capacity r))
      × (0 < r.data_size → (region r).0 +ℤ (region r).1 ≤ℤ pos (capacity r))
ring_in_bounds r w v small =
    let s = start (capacity r) w r.data_size in
    let f = start_facts (capacity r) w r.data_size v.inside v.holds in
    (
      ground arith,
      ground arith,
      ground arith,
      rw (read_pos-start r w v) (ground arith),
      rw (read_pos-start r w v) (ground arith),
      rw (free_run_lem r w v) (ground arith),
      λ h. rw (region_lem r w v h) (ground arith),
    )
