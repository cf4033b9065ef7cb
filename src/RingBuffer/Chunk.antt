-- ===== src/RingBuffer/Chunk.antt =====
-- One round of `write`: a chunk goes into the free stretch behind the bytes that the ring holds.
use ob_preliminary.Common.{
  ℕ, ◌+◌, ◌-◌, ◌%◌, ◌≤◌, ◌<◌, ◌≡◌, refl, sym, ap, ap₂, subst, ◌∙◌, ◌⊎◌, inl, inr, List, ◌++◌, leb,
  if◌then◌else◌, length, read_at, write_at, length-write_at, append_assoc, arith, Bool-cases,
}
use native.Mathlib.Nat.{mod-eq_of_lt, mod_self}
use ob_preliminary.Common.Copy.{read_at-write_at, read_at-write_at_ne}
use ob_preliminary.Common.Int.{pos_part}
use ob_preliminary.RingBuffer.{RingBuffer, capacity, free_run, put_chunk}
use ob_preliminary.RingBuffer.Segments.{cells, read_at-add, cells_straight, cells_wrapped}
use ob_preliminary.RingBuffer.Inv.{IsRing, start, contents, free_run_lem}

-- The write position after `c` more bytes.
abbrev pub next : ℕ → ℕ → ℕ → ℕ
next cap w c = (w + c) % cap

-- A stretch of free bytes behind the write position.
abbrev Fits : ℕ → ℕ → ℕ → ℕ → Type 0
Fits cap w d c = (d + c ≤ cap) × (w + c ≤ cap) × (w < d → w + c ≤ start cap w d)

next_start :
    (cap w d c : ℕ)
    → w < cap
    → d ≤ cap
    → Fits cap w d c
    → 0 < c
    → start cap (next cap w c) (d + c) ≡ start cap w d
next_start cap w d c h k f pos_c = elim (ends) [
  | inl l ↦ let e : (w + c) % cap ≡ w + c = mod-eq_of_lt l in rw e (ground arith)
  | inr l ↦ let e : (w + c) % cap ≡ 0 = rw (l, mod_self) in rw e (ground arith)
]
  where
    ends : (w + c < cap) ⊎ (w + c ≡ cap)
    ends = omega (arith, f.1)

cells-write :
    (buf chunk : List ℕ) (w d : ℕ)
    → w < length buf
    → d ≤ length buf
    → Fits (length buf) w d (length chunk)
    → cells (write_at buf w chunk) (start (length buf) w d) (d + length chunk)
      ≡ cells buf (start (length buf) w d) d ++ chunk
cells-write buf chunk w d h k f = elim (Bool-cases (leb d w)) [
  | inl le ↦
      let s = w - d in
      let at_w : s + d ≡ w = ground arith in
      let end : s + (d + length chunk) ≤ length (write_at buf w chunk) = ground (arith, same) in
      rw
        (
          le,
          cells_straight (write_at buf w chunk) s (d + length chunk) end,
          cells_straight buf s d (ground arith),
        )
        (read_at-add (write_at buf w chunk) s d (length chunk)
          ∙ ap₂ ◌++◌ (read_at-write_at_ne buf w chunk s d (inl (ground arith))) (rw at_w copied))
  | inr gt ↦
      let s = w + length buf - d in
      rw
        (
          gt,
          cells_wrapped (write_at buf w chunk) s (d + length chunk) (w + length chunk)
              (ground (arith, same)) (ground (arith, same)),
          cells_wrapped buf s d w (ground arith) (ground arith),
          same,
        )
        (ap₂ ◌++◌ (read_at-write_at_ne buf w chunk s (length buf - s) (inr (ground arith))) (
            read_at-add (write_at buf w chunk) 0 w (length chunk)
            ∙ ap₂ ◌++◌ (read_at-write_at_ne buf w chunk 0 w (inl (omega arith)))
                (let z : 0 + w ≡ w = omega arith in rw z copied))
          ∙ sym (append_assoc (read_at buf s (length buf - s)) (read_at buf 0 w) chunk))
]
  where
    same : length (write_at buf w chunk) ≡ length buf
    same = length-write_at buf w chunk

    copied : read_at (write_at buf w chunk) w (length chunk) ≡ chunk
    copied = read_at-write_at buf w chunk (omega (arith, f.1))

-- One round: a chunk that fits the free stretch goes behind the bytes that the ring holds.
pub put_chunk_lem :
    (r : RingBuffer) (w : ℕ) (chunk : List ℕ)
    → IsRing r w
    → 0 < length chunk
    → length chunk ≤ pos_part (free_run r)
    → r.data_size + length chunk ≤ capacity r
    → IsRing (put_chunk r chunk) (next (capacity r) w (length chunk))
      × (contents (put_chunk r chunk) (next (capacity r) w (length chunk)) ≡ contents r w ++ chunk)
      × (capacity (put_chunk r chunk) ≡ capacity r)
unfolding put_chunk
put_chunk_lem r w chunk v some_bytes fits all = (
  record {
    here = rw (v.here) (ground arith);
    inside = omega (arith, same, v.inside);
    holds = omega (arith, same);
  },
  after,
  same,
)
  where
    cap : ℕ
    cap = capacity r

    same : length (write_at r.buffer (pos_part r.write_pos) chunk) ≡ length r.buffer
    same = length-write_at r.buffer (pos_part r.write_pos) chunk

    run :
        length chunk
        ≤ (if leb (start cap w r.data_size) w then cap - w else start cap w r.data_size - w)
    run = rw (free_run_lem r w v) at fits

    stretch :
        length chunk
          ≤ (if leb (start cap w r.data_size) w then cap - w else start cap w r.data_size - w)
        → Fits cap w r.data_size (length chunk)
    stretch h = (all, ground (arith, v.inside, v.holds), λ l. ground (arith, v.inside, v.holds))

    begins :
        start
          (length (write_at r.buffer w chunk))
          (next cap w (length chunk))
          (r.data_size + length chunk)
        ≡ start cap w r.data_size
    begins =
        rw (length-write_at r.buffer w chunk)
          (next_start cap w r.data_size (length chunk) v.inside v.holds (stretch run) some_bytes)

    after : contents (put_chunk r chunk) (next cap w (length chunk)) ≡ contents r w ++ chunk
    after =
        subst
          (λ p.
            cells (write_at r.buffer p chunk)
              (start (length (write_at r.buffer p chunk)) (next cap w (length chunk))
                (r.data_size + length chunk))
              (r.data_size + length chunk)
            ≡ contents r w ++ chunk)
          (sym (ap pos_part v.here))
          (ap (λ k. cells (write_at r.buffer w chunk) k (r.data_size + length chunk)) begins
            ∙ cells-write r.buffer chunk w r.data_size v.inside v.holds (stretch run))

pub size_after :
    (r : RingBuffer) (chunk : List ℕ) → (put_chunk r chunk).data_size ≡ r.data_size + length chunk
unfolding put_chunk
size_after r chunk = refl
