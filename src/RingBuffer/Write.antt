-- ===== src/RingBuffer/Write.antt =====
-- `write`: how much it takes, and what the ring holds after it.
use ob_preliminary.Common.{
  ℕ, zero, suc, ◌+◌, ◌-◌, ◌≤◌, ◌<◌, ◌≡◌, refl, sym, ap, ◌∙◌, inl, inr, true, false, List, [], ◌∷◌,
  ◌++◌, leb, ltb, if◌then◌else◌, length, take, drop, min, ltb→lt, length-take, length-drop,
  append-nil, append_assoc, arith, Bool-cases,
}
use ob_preliminary.Common.Int.{pos, pos_part, ltb_ℤ}
use ob_preliminary.Common.Rc.{Rc}
use ob_preliminary.RingBuffer.{RingBuffer, capacity, remain, free_run, put_chunk, write_loop, write}
use ob_preliminary.RingBuffer.Segments.{take-add}
use ob_preliminary.RingBuffer.Inv.{IsRing, start, contents, free_run_lem}
use ob_preliminary.RingBuffer.Chunk.{next, put_chunk_lem, size_after}

-- What the loop has done when it stops.
pub record Wrote (r : RingBuffer) (w : ℕ) (rest : List ℕ) (out : ℕ × RingBuffer) : Type 0 where
  pub place : ℕ
  pub ring : IsRing out.1 place
  pub number : out.0 ≡ min (length rest) (remain r)
  pub bytes : contents out.1 place ≡ contents r w ++ take out.0 rest
  pub size : capacity out.1 ≡ capacity r

write_loop-Wrote :
    (fuel : ℕ) (r : RingBuffer) (w : ℕ) (rest : List ℕ)
    → length rest < fuel
    → IsRing r w
    → Wrote r w rest (write_loop fuel r rest)
unfolding write_loop
write_loop-Wrote zero r w rest h v = absurd (omega arith)
write_loop-Wrote (suc fuel) r w rest h v = elim (Bool-cases (ltb 0 (length rest))) [
  | inr none_left ↦ rw none_left (stop (ground arith))
  | inl more ↦ elim (Bool-cases (ltb 0 (remain r))) [
    | inr full ↦ rw (more, full) (stop (ground arith))
    | inl room ↦ rw (more, room) (go (write_loop-Wrote fuel) room more)
  ]
]
  where
    stop : min (length rest) (remain r) ≡ 0 → Wrote r w rest (0, r)
    stop e = record {
      place = w;
      ring = v;
      number = sym e;
      bytes = sym (append-nil (contents r w));
      size = refl;
    }

    cap : ℕ
    cap = capacity r

    copy_size : ℕ
    copy_size = min (length rest) (pos_part (free_run r))

    chunk : List ℕ
    chunk = take copy_size rest

    run_bounds :
        (run s : ℕ)
        → run ≡ (if leb s w then cap - w else s - w)
        → s ≡ start cap w r.data_size
        → 0 < remain r
        → (0 < run) × (run ≤ remain r)
    run_bounds run s e f h = ground (arith, v.inside, v.holds)

    free : 0 < remain r → (0 < pos_part (free_run r)) × (pos_part (free_run r) ≤ remain r)
    free h =
        run_bounds (pos_part (free_run r)) (start cap w r.data_size) (rw (free_run_lem r w v)) refl
          h

    taken : 0 < remain r → 0 < length rest → (0 < length chunk) × (length chunk ≡ copy_size)
    taken a b = omega (arith, length-take copy_size rest, free a)

    go :
        ((r' : RingBuffer) (w' : ℕ) (rest' : List ℕ)
          → length rest' < fuel
          → IsRing r' w'
          → Wrote r' w' rest' (write_loop fuel r' rest'))
        → ltb 0 (remain r) ≡ true
        → ltb 0 (length rest) ≡ true
        → Wrote r w rest (
            let more = write_loop fuel (put_chunk r chunk) (drop copy_size rest) in
            (copy_size + more.0, more.1))
    go ih room more =
        let a : 0 < remain r = ltb→lt 0 (remain r) room in
        let b : 0 < length rest = ltb→lt 0 (length rest) more in
        let t = taken a b in
        let (v', bytes', cap') =
          put_chunk_lem r w chunk v t.0 (omega (arith, t.1))
            (omega (arith, t.1, free a, v.holds)) in
        let count' = (write_loop fuel (put_chunk r chunk) (drop copy_size rest)).0 in
        let later =
          ih (put_chunk r chunk) (next cap w (length chunk)) (drop copy_size rest)
            (omega (arith, length-drop copy_size rest, t, h)) v' in
        record {
          place = later.place;
          ring = later.ring;
          number = omega (
            arith,
            later.number,
            length-drop copy_size rest,
            size_after r chunk,
            cap',
            t,
            free a,
          );
          bytes =
              later.bytes
              ∙ ap (λ xs. xs ++ take count' (drop copy_size rest)) bytes'
              ∙ append_assoc (contents r w) chunk (take count' (drop copy_size rest))
              ∙ ap (◌++◌ (contents r w)) (sym (take-add rest copy_size count'));
          size = later.size ∙ cap';
        }

-- Writing into a valid ring: it takes as many of the bytes as fit, exactly those are appended to what
-- the ring holds, in order, and the ring stays valid.
pub write_lem :
    (r : RingBuffer) (w : ℕ) (data_in : List ℕ) (n : ℕ)
    → IsRing r w
    → n ≤ length data_in
    → let (rc, count, r') = write r data_in (pos n) in
      (rc ≡ Rc.success)
      × (count ≡ min n (remain r))
      × ((w' : ℕ) × IsRing r' w' × (contents r' w' ≡ contents r w ++ take count data_in))
      × (capacity r' ≡ capacity r)
unfolding write
write_lem r w data_in n v h =
    let sign : ltb_ℤ (pos n) (pos 0) ≡ false = ground arith in
    let len : length (take n data_in) ≡ n = omega (arith, length-take n data_in) in
    let done = write_loop-Wrote (suc n) r w (take n data_in) (omega (arith, len)) v in
    let count = (write_loop (suc n) r (take n data_in)).0 in
    rw sign (
      refl,
      omega (arith, done.number, len),
      (
        done.place,
        done.ring,
        done.bytes
            ∙ ap (◌++◌ (contents r w)) (take_min data_in n count (omega (arith, done.number, len))),
      ),
      done.size,
    )
  where
    take_min : (xs : List ℕ) (n m : ℕ) → m ≤ n → take m (take n xs) ≡ take m xs
    take_min xs n zero h = refl
    take_min [] zero (suc m) h = refl
    take_min [] (suc n) (suc m) h = refl
    take_min (x ∷ xs) zero (suc m) h = absurd (omega arith)
    take_min (x ∷ xs) (suc n) (suc m) h = ap (◌∷◌ x) (take_min xs n m (omega arith))
