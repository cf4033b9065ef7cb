-- ===== src/BufferedWriter/Loop.antt =====
-- `flush_internal`: what one call of it sends.
use ob_preliminary.Common.{
  ℕ, zero, suc, ◌+◌, ◌-◌, ◌≤◌, ◌<◌, ◌≡◌, refl, ap, ◌∙◌, inl, inr, true, ◌&&◌, Option, none, some,
  List, ◌++◌, append_assoc, ltb, length, take, min, read_at, arith, Bool-cases,
}
use ob_preliminary.Common.Int.{pos, pos_part}
use ob_preliminary.Common.Rc.{Rc}
use ob_preliminary.RingBuffer
use ob_preliminary.RingBuffer.{RingBuffer, capacity, remain, region}
use ob_preliminary.RingBuffer.Inv.{IsRing, contents}
use ob_preliminary.RingBuffer.Read.{consumed, consumed-IsRing, forward_lem}
use ob_preliminary.RingBuffer.Shown.{region-send}
use ob_preliminary.Common.System.{WriteResult}
use ob_preliminary.BufferedWriter.{
  Sink, BufferedWriter, Sent, sent, failed, waiting, send, flush_loop, flush_internal,
}
use ob_preliminary.Common.System.{good}
use ob_preliminary.BufferedWriter.Send.{IsSent, send_lem}

-- What a flush has done when it stops: the bytes sent and those still held are the ones before, in order.
pub record Flushed (r : RingBuffer) (w : ℕ) (k : Sink) (left : ℕ) (rc : Rc) (r' : RingBuffer)
    (k' : Sink) : Type 0 where
  pub ring : IsRing r' w
  pub bytes : k'.out ++ contents r' w ≡ k.out ++ contents r w
  pub size : capacity r' ≡ capacity r
  pub less : r'.data_size ≤ r.data_size
  pub enough : rc ≡ Rc.success → min left r.data_size + r'.data_size ≤ r.data_size

-- Whatever ::write returns; and if it takes a byte often enough before it fails, the flush succeeds.
abbrev pub IsFlush : RingBuffer → ℕ → Sink → ℕ → Option (Rc × RingBuffer × Sink) → Type 0
IsFlush r w k left none = good k.future < r.data_size
IsFlush r w k left (some (rc, r', k')) =
    Flushed r w k left rc r' k'
    × (r.data_size ≤ good k.future
        → (rc ≡ Rc.success) × (good k.future + r'.data_size ≤ good k'.future + r.data_size))

-- One round of the loop, and the rounds after it.
module _ (r : RingBuffer) (w : ℕ) (v : IsRing r w) (k : Sink) (left : ℕ) (some_left : 0 < left)
    (some_held : 0 < r.data_size) where
  abbrev shown : List ℕ
  shown = read_at r.buffer (pos_part (region r).0) (pos_part (region r).1)

  abbrev sent_sink : ℕ → List WriteResult → Sink
  sent_sink n future = record { out = k.out ++ take n shown; future = future }

  round-IsFlush :
      (n : ℕ) (future : List WriteResult) (o : Option (Rc × RingBuffer × Sink))
      → IsSent k.future (pos_part (region r).1) (sent n future)
      → IsFlush (consumed r n) w (sent_sink n future) (left - n) o
      → IsFlush r w k left o
  round-IsFlush n future none s f = omega (arith, s.3, f, s.1, (region-send r w v some_held).1)
  round-IsFlush n future (some (rc, r', k')) s (f, g) =
      let (_, bound, _, split) = region-send r w v some_held in
      (
        record {
          ring = f.ring;
          bytes =
              f.bytes
              ∙ append_assoc k.out (take n shown) (contents (consumed r n) w)
              ∙ ap (◌++◌ k.out) (split n s.1);
          size = f.size;
          less = omega (arith, f.less);
          enough = λ e. omega (arith, f.enough e, s.1, bound);
        },
        λ h.
            let (ok, kept) = g (omega (arith, s.3, s.1, s.0, bound)) in
            (ok, omega (arith, kept, s.3, s.1, s.0, bound)),
      )

flush_loop-IsFlush :
    (fuel : ℕ) (r : RingBuffer) (w : ℕ) (k : Sink) (left : ℕ)
    → length k.future < fuel
    → IsRing r w
    → IsFlush r w k left (flush_loop fuel r k left)
unfolding flush_loop
flush_loop-IsFlush zero r w k left m v = absurd (omega arith)
flush_loop-IsFlush (suc fuel) r w k left m v = elim (Bool-cases (ltb 0 r.data_size && ltb 0 left)) [
  | inr stop ↦ rw stop (
    record { ring = v; bytes = refl; size = refl; less = omega arith; enough = λ e. ground arith },
    λ h. (refl, omega arith),
  )
  | inl more ↦
      let held : 0 < r.data_size = ground arith in
      let wanted : 0 < left = ground arith in
      rw more (
        go held wanted (send k.future (pos_part (region r).1))
          (send_lem k.future (pos_part (region r).1) (region-send r w v held).0)
          (flush_loop-IsFlush fuel))
]
  where
    go :
        (held : 0 < r.data_size) (wanted : 0 < left) (s : Sent)
        → IsSent k.future (pos_part (region r).1) s
        → ((r' : RingBuffer) (w' : ℕ) (k' : Sink) (left' : ℕ)
            → length k'.future < fuel
            → IsRing r' w'
            → IsFlush r' w' k' left' (flush_loop fuel r' k' left'))
        → IsFlush r w k left (elim s as (λ x. Option (Rc × RingBuffer × Sink)) [
          | waiting ↦ none
          | failed future ↦ some (Rc.ioerr_write, r, record k { future = future })
          | sent n future ↦
              flush_loop fuel
                (RingBuffer.forward r (pos n)).1
                (record {
                  out =
                      k.out
                      ++ take n (read_at r.buffer (pos_part (region r).0) (pos_part (region r).1));
                  future = future;
                })
                (left - n)
        ])
    go held wanted waiting s rest = omega (arith, s)
    go held wanted (failed future) s rest = (
      record { ring = v; bytes = refl; size = refl; less = omega arith; enough = λ e. cc },
      λ h. absurd (omega (arith, s)),
    )
    go held wanted (sent n future) s rest =
        let bound = (region-send r w v held).1 in
        let e : (RingBuffer.forward r (pos n)).1 ≡ consumed r n =
          ap (λ x. x.1) (forward_lem r n s.0 (omega (arith, s.1, bound))) in
        rw e (
          round-IsFlush r w v k left wanted held n future _ s (
            rest (consumed r n) w (sent_sink r w v k left wanted held n future) (left - n)
              (omega (arith, s.2)) (consumed-IsRing r w n v)))

-- The same of a call on an open writer.
abbrev pub IsFlushed : BufferedWriter → ℕ → Sink → ℕ → Option (Rc × BufferedWriter × Sink) → Type 0
IsFlushed b w k left none = good k.future < b.buffer.data_size
IsFlushed b w k left (some (rc, b', k')) =
    (b'.is_open ≡ true)
    × Flushed b.buffer w k left rc (b'.buffer) k'
    × (b.buffer.data_size ≤ good k.future
        → (rc ≡ Rc.success)
          × (good k.future + b'.buffer.data_size ≤ good k'.future + b.buffer.data_size))

pub flush_internal-IsFlushed :
    (b : BufferedWriter) (w : ℕ) (k : Sink) (size : ℕ)
    → b.is_open ≡ true
    → IsRing (b.buffer) w
    → IsFlushed b w k size (flush_internal b k size)
unfolding flush_internal
flush_internal-IsFlushed b w k size opened v = rw opened (
    go (flush_loop (suc (length k.future)) (b.buffer) k size)
      (flush_loop-IsFlush (suc (length k.future)) (b.buffer) w k size (omega arith) v))
  where
    go :
        (o : Option (Rc × RingBuffer × Sink))
        → IsFlush (b.buffer) w k size o
        → IsFlushed b w k size (elim o as (λ x. Option (Rc × BufferedWriter × Sink)) [
          | none ↦ none
          | some (rc, r, k') ↦ some (rc, record b { buffer = r }, k')
        ])
    go none f = f
    go (some (rc, r, k')) (f, g) = (opened, f, g)
