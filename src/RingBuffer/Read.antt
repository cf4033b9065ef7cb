-- ===== src/RingBuffer/Read.antt =====
-- `read` and `forward`: which bytes come out, and what the ring holds after it.
use ob_preliminary.Common.{
  ℕ, zero, suc, ◌+◌, ◌-◌, ◌≤◌, ◌<◌, ◌≡◌, refl, sym, ap, ◌∙◌, inl, inr, false, List, [], ◌++◌, leb,
  ltb, if◌then◌else◌, length, drop, read_at, min, ltb→lt, length-take, length-drop, length-append,
  append_assoc, arith, Bool-cases,
}
use ob_preliminary.Common.Int.{pos, pos_part, ltb_ℤ}
use ob_preliminary.Common.Rc.{Rc, ob_succ}
use ob_preliminary.RingBuffer.{RingBuffer, capacity, region, forward, read_loop, read}
use ob_preliminary.RingBuffer.Segments.{cells, read_at-add, cells_straight, cells_wrapped}
use ob_preliminary.RingBuffer.Inv.{IsRing, start, contents, region_lem}

-- The ring with its oldest `k` bytes taken out.
abbrev pub consumed : RingBuffer → ℕ → RingBuffer
consumed r k = record r { data_size = r.data_size - k }

pub consumed-IsRing : (r : RingBuffer) (w k : ℕ) → IsRing r w → IsRing (consumed r k) w
consumed-IsRing r w k v = record {
  here = v.here;
  inside = v.inside;
  holds = omega (arith, v.holds);
}

pub forward_lem :
    (r : RingBuffer) (k : ℕ)
    → 0 < k
    → k ≤ r.data_size
    → forward r (pos k) ≡ (Rc.success, consumed r k)
unfolding forward
forward_lem r k h l = ground arith

-- The readable stretch of a valid ring that holds `d` bytes.
unfoldable pub stretch : ℕ → ℕ → ℕ → ℕ
stretch cap w d = if ltb (start cap w d) w then w - start cap w d else cap - start cap w d

pub stretch_bounds :
    (cap w d : ℕ) → w < cap → d ≤ cap → 0 < d → (0 < stretch cap w d) × (stretch cap w d ≤ d)
unfolding stretch
stretch_bounds cap w d h k p = (ground arith, ground arith)

-- Its first bytes, then what is left after them, are the bytes of the ring.
pub cells-consume :
    (buf : List ℕ) (w d k : ℕ)
    → w < length buf
    → d ≤ length buf
    → 0 < d
    → k ≤ stretch (length buf) w d
    → cells buf (start (length buf) w d) d
      ≡ read_at buf (start (length buf) w d) k ++ cells buf (start (length buf) w (d - k)) (d - k)
unfolding stretch
cells-consume buf w d k h l p f = elim (Bool-cases (leb d w)) [
  | inl le ↦
      let s = w - d in
      let at_start : start (length buf) w d ≡ s = rw le in
      let moved : start (length buf) w (d - k) ≡ s + k = ground arith in
      let split : d ≡ k + (d - k) = ground arith in
      rw
        (
          at_start,
          moved,
          cells_straight buf s d (ground arith),
          cells_straight buf (s + k) (d - k) (ground arith),
        )
        (ap (read_at buf s) split ∙ read_at-add buf s k (d - k))
  | inr gt ↦ elim (Bool-cases (leb (d - k) w)) [
    | inr still ↦
        let s = w + length buf - d in
        let at_start : start (length buf) w d ≡ s = rw gt in
        let moved : start (length buf) w (d - k) ≡ s + k = ground arith in
        let split : length buf - s ≡ k + (length buf - (s + k)) = ground arith in
        rw
          (
            at_start,
            moved,
            cells_wrapped buf s d w (ground arith) (ground arith),
            cells_wrapped buf (s + k) (d - k) w (ground arith) (ground arith),
          )
          (ap (λ m. m ++ read_at buf 0 w)
              (ap (read_at buf s) split ∙ read_at-add buf s k (length buf - (s + k)))
            ∙ append_assoc (read_at buf s k) (read_at buf (s + k) (length buf - (s + k)))
                (read_at buf 0 w))
    | inl done ↦
        let s = w + length buf - d in
        let at_start : start (length buf) w d ≡ s = rw gt in
        let moved : start (length buf) w (d - k) ≡ 0 = ground arith in
        let left : d - k ≡ w = ground arith in
        let all : length buf - s ≡ k = ground arith in
        rw (
          at_start,
          moved,
          cells_wrapped buf s d w (ground arith) (ground arith),
          cells_straight buf 0 (d - k) (ground arith),
          left,
          all,
        )
  ]
]

-- What the loop has done when it stops.
pub record Took (r : RingBuffer) (w left : ℕ) (out : Rc × List ℕ × RingBuffer) : Type 0 where
  pub code : out.0 ≡ Rc.success
  pub ring : IsRing out.2 w
  pub bytes : contents r w ≡ out.1 ++ contents out.2 w
  pub number : length out.1 ≡ min left r.data_size
  pub size : capacity out.2 ≡ capacity r

pub length-stretch :
    (buf : List ℕ) (w d k : ℕ)
    → w < length buf
    → d ≤ length buf
    → 0 < d
    → k ≤ stretch (length buf) w d
    → length (read_at buf (start (length buf) w d) k) ≡ k
unfolding stretch
length-stretch buf w d k h l p f = ground (
  arith,
  length-take k (drop (start (length buf) w d) buf),
  length-drop (start (length buf) w d) buf,
)

read_loop-Took :
    (fuel : ℕ) (r : RingBuffer) (w left : ℕ)
    → left < fuel
    → IsRing r w
    → Took r w left (read_loop fuel r left)
unfolding read_loop stretch
read_loop-Took zero r w left h v = absurd (omega arith)
read_loop-Took (suc fuel) r w left h v = elim (Bool-cases (ltb 0 left)) [
  | inr enough ↦ rw enough (stop (ground arith))
  | inl more ↦ elim (Bool-cases (ltb 0 r.data_size)) [
    | inr empty ↦ rw (more, empty) (stop (ground arith))
    | inl some_left ↦
        rw (more, some_left)
          (go (read_loop-Took fuel) (ltb→lt 0 left more) (ltb→lt 0 r.data_size some_left))
  ]
]
  where
    d : ℕ
    d = r.data_size

    s : ℕ
    s = start (capacity r) w d

    run : ℕ
    run = stretch (capacity r) w d

    k : ℕ
    k = min left run

    stop : min left r.data_size ≡ 0 → Took r w left (Rc.success, [], r)
    stop e = record { code = refl; ring = v; bytes = refl; number = sym e; size = refl }

    shown : 0 < d → region r ≡ (pos s, pos run)
    shown p = region_lem r w v p

    go :
        ((r' : RingBuffer) (w' left' : ℕ)
          → left' < fuel
          → IsRing r' w'
          → Took r' w' left' (read_loop fuel r' left'))
        → 0 < left
        → 0 < d
        → Took r w left (
            let offset = (region r).0 in
            let copy_size = min left (pos_part (region r).1) in
            let chunk = read_at r.buffer (pos_part offset) copy_size in
            let moved = forward r (pos copy_size) in
            let more = read_loop fuel moved.1 (left - copy_size) in
            if ob_succ moved.0
            then (more.0, chunk ++ more.1, more.2)
            else (moved.0, chunk, moved.1))
    go ih a b =
        let bounds = stretch_bounds (capacity r) w d v.inside v.holds b in
        let rest =
          ih (consumed r k) w (left - k) (omega (arith, bounds)) (consumed-IsRing r w k v) in
        let later = read_loop fuel (consumed r k) (left - k) in
        let len = length-stretch r.buffer w d k v.inside v.holds b (omega arith) in
        rw (shown b, forward_lem r k (omega (arith, bounds)) (omega (arith, bounds)))
          (record {
            code = rest.code;
            ring = rest.ring;
            bytes =
                cells-consume r.buffer w d k v.inside v.holds b (omega arith)
                ∙ ap (◌++◌ (read_at r.buffer s k)) rest.bytes
                ∙ sym (append_assoc (read_at r.buffer s k) later.1 (contents later.2 w));
            number =
                omega
                  (arith, length-append (read_at r.buffer s k) later.1, len, rest.number, bounds);
            size = rest.size;
          })

-- Reading from a valid ring: the call succeeds, gives as many bytes as the ring holds up to the size, the
-- oldest ones in order, and leaves exactly the others in the ring, which stays valid.
pub read_lem :
    (r : RingBuffer) (w n : ℕ)
    → IsRing r w
    → let (rc, out, r') = read r (pos n) in
      (rc ≡ Rc.success)
      × (length out ≡ min n r.data_size)
      × (contents r w ≡ out ++ contents r' w)
      × IsRing r' w
      × (capacity r' ≡ capacity r)
unfolding read
read_lem r w n v =
    let sign : ltb_ℤ (pos n) (pos 0) ≡ false = ground arith in
    let done = read_loop-Took (suc n) r w n (omega arith) v in
    rw sign (done.code, done.number, done.bytes, done.ring, done.size)
