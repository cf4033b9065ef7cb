-- ===== src/RingBuffer/GoBack.antt =====
-- `go_back`, which takes the newest bytes out again: right while the write position does not pass the
-- start of the buffer, and what happens when it does.
use ob_preliminary.Common.{
  ℕ, ◌+◌, ◌-◌, ◌≤◌, ◌<◌, ◌≡◌, refl, sym, ap, ◌∙◌, inl, inr, List, ◌++◌, leb, length, drop, read_at,
  length-take, length-drop, append_assoc, arith, Bool-cases,
}
use native.Mathlib.Nat.{mod-eq_of_lt}
use ob_preliminary.Common.Int.{pos, negsuc, ◌-ℤ◌, ◌+ℤ◌, ◌<ℤ◌}
use ob_preliminary.Common.Rc.{Rc}
use ob_preliminary.RingBuffer.{RingBuffer, capacity, read_pos, region, forward, go_back}
use ob_preliminary.RingBuffer.Segments.{cells, read_at-add, cells_straight, cells_wrapped}
use ob_preliminary.RingBuffer.Inv.{IsRing, start, contents}

cells-retract :
    (buf : List ℕ) (w d k : ℕ)
    → w < length buf
    → d ≤ length buf
    → k ≤ d
    → k ≤ w
    → cells buf (start (length buf) w d) d
      ≡ cells buf (start (length buf) (w - k) (d - k)) (d - k) ++ read_at buf (w - k) k
cells-retract buf w d k h l p q = elim (Bool-cases (leb d w)) [
  | inl le ↦
      let s = w - d in
      let at_start : start (length buf) w d ≡ s = rw le in
      let moved : start (length buf) (w - k) (d - k) ≡ s = ground arith in
      let split : d ≡ (d - k) + k = ground arith in
      let place : s + (d - k) ≡ w - k = ground arith in
      rw
        (
          at_start,
          moved,
          cells_straight buf s d (ground arith),
          cells_straight buf s (d - k) (ground arith),
        )
        (ap (read_at buf s) split
          ∙ read_at-add buf s (d - k) k
          ∙ ap (λ x. read_at buf s (d - k) ++ read_at buf x k) place)
  | inr gt ↦
      let s = w + length buf - d in
      let at_start : start (length buf) w d ≡ s = rw gt in
      let moved : start (length buf) (w - k) (d - k) ≡ s = ground arith in
      let split : w ≡ (w - k) + k = ground arith in
      let place : 0 + (w - k) ≡ w - k = omega arith in
      rw
        (
          at_start,
          moved,
          cells_wrapped buf s d w (ground arith) (ground arith),
          cells_wrapped buf s (d - k) (w - k) (ground arith) (ground arith),
        )
        (ap (◌++◌ (read_at buf s (length buf - s))) (
            ap (read_at buf 0) split
            ∙ read_at-add buf 0 (w - k) k
            ∙ ap (λ x. read_at buf 0 (w - k) ++ read_at buf x k) place)
          ∙ sym (
              append_assoc (read_at buf s (length buf - s)) (read_at buf 0 (w - k))
                (read_at buf (w - k) k)))
]

-- The ring that a successful call leaves.
abbrev back : RingBuffer → ℕ → RingBuffer
back r k = record r { data_size = r.data_size - k; write_pos = r.write_pos -ℤ pos k }

go_back_runs :
    (r : RingBuffer) (k : ℕ) → 0 < k → k ≤ r.data_size → go_back r (pos k) ≡ (Rc.success, back r k)
unfolding go_back
go_back_runs r k h l = ground arith

back-IsRing : (r : RingBuffer) (w k : ℕ) → IsRing r w → k ≤ w → IsRing (back r k) (w - k)
back-IsRing r w k v q = record {
  here = rw (v.here) (ground arith);
  inside = omega (arith, v.inside);
  holds = omega (arith, v.holds);
}

read_pos-value :
    (r : RingBuffer) (s : ℕ)
    → r.write_pos -ℤ pos r.data_size +ℤ pos (capacity r) ≡ pos s
    → s < capacity r
    → read_pos r ≡ pos s
unfolding read_pos
read_pos-value r s e h = rw (e, mod-eq_of_lt h)

-- The read position does not move, also if the write position passes the start of the buffer.
read_pos-back :
    (r : RingBuffer) (w k : ℕ)
    → IsRing r w
    → w < k
    → k < r.data_size
    → read_pos (back r k) ≡ pos (w + capacity r - r.data_size)
read_pos-back r w k v p h =
    read_pos-value (back r k) (w + capacity r - r.data_size) (rw (v.here) (ground (arith, v.holds)))
      (omega (arith, v.inside, v.holds))

negative :
    (r : RingBuffer) (w k : ℕ) → IsRing r w → w < k → (back r k).write_pos ≡ negsuc (k - w - 1)
negative r w k v p = rw (v.here) (ground arith)

region-back :
    (r : RingBuffer) (w k : ℕ)
    → IsRing r w
    → w < k
    → k < r.data_size
    → (region (back r k)).1 ≡ pos (r.data_size - w)
unfolding region
region-back r w k v p h = rw (read_pos-back r w k v p h) (rw (v.here) (ground (arith, v.holds)))

-- Going back by at most the held bytes and at most the write position succeeds, and takes exactly the
-- newest bytes out of a valid ring; the ring stays valid.
pub go_back_lem :
    (r : RingBuffer) (w k : ℕ)
    → IsRing r w
    → 0 < k
    → k ≤ r.data_size
    → k ≤ w
    → let (rc, r') = go_back r (pos k) in
      (rc ≡ Rc.success)
      × IsRing r' (w - k)
      × ((last : List ℕ) × (contents r w ≡ contents r' (w - k) ++ last) × (length last ≡ k))
go_back_lem r w k v p h q = rw (go_back_runs r k p h) (
  refl,
  back-IsRing r w k v q,
  (
    read_at r.buffer (w - k) k,
    cells-retract r.buffer w r.data_size k v.inside v.holds h q,
    omega (arith, length-take k (drop (w - k) r.buffer), length-drop (w - k) r.buffer, v.inside),
  ),
)

-- Going back further than the write position (possible once the data passes the end of the buffer), but by less than
-- the held bytes, reports success and takes that many bytes off the count, but leaves a negative write position.
-- `buffer` then shows more bytes than the ring holds, so the caller that passes that size on to `forward`, as
-- `flush_internal` does, is refused, and the bytes stay in the ring.
pub go_back_wrapped :
    (r : RingBuffer) (w k : ℕ)
    → IsRing r w
    → w < k
    → k < r.data_size
    → let (rc, r') = go_back r (pos k) in
      let shown = pos (r.data_size - w) in
      (rc ≡ Rc.success)
      × (r'.write_pos <ℤ pos 0)
      × (r'.data_size ≡ r.data_size - k)
      × ((region r').1 ≡ shown)
      × (pos r'.data_size <ℤ shown)
      × (forward r' shown ≡ (Rc.invalid_argument, r'))
unfolding forward
go_back_wrapped r w k v p h = rw (go_back_runs r k (omega arith) (omega arith)) (
  refl,
  rw (negative r w k v p) (omega arith),
  refl,
  region-back r w k v p h,
  omega arith,
  refuse,
)
  where
    refuse : forward (back r k) (pos (r.data_size - w)) ≡ (Rc.invalid_argument, back r k)
    refuse = ground arith
