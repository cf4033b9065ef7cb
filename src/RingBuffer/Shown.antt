-- ===== src/RingBuffer/Shown.antt =====
-- The bytes that `buffer` shows, and how many a ring holds.
use ob_preliminary.Common.{
  ℕ, zero, suc, ◌-◌, ◌≤◌, ◌<◌, ◌≡◌, refl, sym, ap, ◌∙◌, List, [], ◌∷◌, take, ◌++◌, length, drop,
  read_at, min, length-take, length-drop, length-append, arith,
}
use ob_preliminary.Common.Int.{pos_part}
use ob_preliminary.RingBuffer.{RingBuffer, capacity, region}
use ob_preliminary.RingBuffer.Inv.{IsRing, start, start_facts, contents, region_lem}
use ob_preliminary.RingBuffer.Read.{
  consumed, stretch, stretch_bounds, cells-consume, length-stretch,
}

-- The bytes that `buffer` shows: some, no more than the ring holds; if the first `k` of them are passed over,
-- the ring holds the others.
pub region-send :
    (r : RingBuffer) (w : ℕ)
    → IsRing r w
    → 0 < r.data_size
    → let n = pos_part (region r).1 in
      let shown = read_at r.buffer (pos_part (region r).0) n in
      (0 < n)
      × (n ≤ r.data_size)
      × (length shown ≡ n)
      × ((k : ℕ) → k ≤ n → take k shown ++ contents (consumed r k) w ≡ contents r w)
unfolding stretch
region-send r w v h =
    let s = start (capacity r) w r.data_size in
    let m = stretch (capacity r) w r.data_size in
    let e = region_lem r w v h in
    let b = stretch_bounds (capacity r) w r.data_size v.inside v.holds h in
    rw e (
      b.0,
      b.1,
      length-stretch r.buffer w r.data_size m v.inside v.holds h (omega arith),
      λ k l.
          ap (λ ys. ys ++ contents (consumed r k) w) (take-take_le (drop s r.buffer) k m l)
          ∙ sym (cells-consume r.buffer w r.data_size k v.inside v.holds h l),
    )
  where
    take-take_le : (xs : List ℕ) (a b : ℕ) → a ≤ b → take a (take b xs) ≡ take a xs
    take-take_le xs zero b l = refl
    take-take_le xs (suc a) zero l = absurd (omega arith)
    take-take_le [] (suc a) (suc b) l = refl
    take-take_le (x ∷ xs) (suc a) (suc b) l = ap (◌∷◌ x) (take-take_le xs a b (omega arith))

pub length-contents : (r : RingBuffer) (w : ℕ) → IsRing r w → length (contents r w) ≡ r.data_size
length-contents r w v =
    let s = start (capacity r) w r.data_size in
    let f = start_facts (capacity r) w r.data_size v.inside v.holds in
    omega (
      arith,
      f.0,
      v.holds,
      v.inside,
      length-append (read_at r.buffer s (min r.data_size (capacity r - s)))
          (read_at r.buffer 0 (r.data_size - (capacity r - s))),
      length-take (min r.data_size (capacity r - s)) (drop s r.buffer),
      length-drop s r.buffer,
      length-take (r.data_size - (capacity r - s)) (drop 0 r.buffer),
    )
