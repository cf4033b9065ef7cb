-- ===== src/BufferedWriter/Flush.antt =====
-- `flush_internal` and `flush`: no byte is lost, sent twice or sent out of order.
use ob_preliminary.Common.{
  ℕ, zero, suc, ◌≤◌, ◌<◌, ◌≡◌, refl, sym, ap, ◌∙◌, subst, inl, inr, Bool, true, false, Option, none,
  some, List, [], ◌∷◌, ◌++◌, append-nil, ltb, if◌then◌else◌, length, arith, Bool-cases,
}
use ob_preliminary.Common.Rc.{Rc, ob_succ}
use ob_preliminary.RingBuffer.{RingBuffer}
use ob_preliminary.RingBuffer.Inv.{IsRing, contents}
use ob_preliminary.RingBuffer.Shown.{length-contents}
use ob_preliminary.BufferedWriter.{Sink, BufferedWriter, flush_internal, flush_rounds, flush}
use ob_preliminary.Common.System.{good}
use ob_preliminary.BufferedWriter.Loop.{IsFlushed, flush_internal-IsFlushed}

-- Nothing is held: the rounds end.
flush_rounds-empty :
    (fuel : ℕ) (b : BufferedWriter) (k : Sink)
    → b.buffer.data_size ≡ 0
    → flush_rounds (suc fuel) b k ≡ some (Rc.success, b, k)
unfolding flush_rounds
flush_rounds-empty fuel b k e =
    let stop : ltb 0 (b.buffer.data_size) ≡ false = ground arith in rw stop

flush-IsFlushed :
    (b : BufferedWriter) (w : ℕ) (k : Sink)
    → b.is_open ≡ true
    → IsRing (b.buffer) w
    → IsFlushed b w k (b.buffer.data_size) (flush b k)
unfolding flush flush_rounds
flush-IsFlushed b w k opened v =
    subst (IsFlushed b w k (b.buffer.data_size))
      (sym (
        ap
          (λ o.
            if o
            then flush_rounds (suc (b.buffer.data_size)) b k
            else some (Rc.invalid_argument, b, k))
          opened))
      (elim (Bool-cases (ltb 0 (b.buffer.data_size))) [
        | inr empty ↦ rw empty (
          opened,
          record {
            ring = v;
            bytes = refl;
            size = refl;
            less = omega arith;
            enough = λ e. ground arith;
          },
          λ h. (refl, omega arith),
        )
        | inl held ↦ rw held (
            go (ground arith) (flush_internal b k (b.buffer.data_size))
              (flush_internal-IsFlushed b w k (b.buffer.data_size) opened v))
      ])
  where
    after :
        (fuel : ℕ)
        → 0 < fuel
        → (rc : Rc) (b' : BufferedWriter) (k' : Sink)
        → IsFlushed b w k (b.buffer.data_size) (some (rc, b', k'))
        → (good_code : Bool) → ob_succ rc ≡ good_code
        → IsFlushed b w k
            (b.buffer.data_size)
            (elim good_code as (λ x. Option (Rc × BufferedWriter × Sink)) [
              | true ↦ flush_rounds fuel b' k'
              | false ↦ some (rc, b', k')
            ])
    after fuel p rc b' k' f false e = f
    after zero p rc b' k' f true e = absurd (omega arith)
    after (suc fuel) p rc b' k' f true e =
        let ok : rc ≡ Rc.success = ground arith in
        let none_left : b'.buffer.data_size ≡ 0 = omega (arith, f.1.enough ok) in
        subst (IsFlushed b w k (b.buffer.data_size))
          (ap (λ x. some (x, b', k')) ok ∙ sym (flush_rounds-empty fuel b' k' none_left)) f

    go :
        0 < b.buffer.data_size
        → (o : Option (Rc × BufferedWriter × Sink)) → IsFlushed b w k (b.buffer.data_size) o
        → IsFlushed b w k
            (b.buffer.data_size)
            (elim o as (λ x. Option (Rc × BufferedWriter × Sink)) [
              | none ↦ none
              | some (rc, b', k') ↦
                  elim (ob_succ rc) as (λ x. Option (Rc × BufferedWriter × Sink)) [
                    | true ↦ flush_rounds (b.buffer.data_size) b' k'
                    | false ↦ some (rc, b', k')
                  ]
            ])
    go held none f = f
    go held (some (rc, b', k')) f = after (b.buffer.data_size) held rc b' k' f (ob_succ rc) refl

contents_none : (r : RingBuffer) (w : ℕ) → r.data_size ≡ 0 → IsRing r w → contents r w ≡ []
contents_none r w e v = empty (contents r w) (length-contents r w v ∙ e)
  where
    empty : (xs : List ℕ) → length xs ≡ 0 → xs ≡ []
    empty [] h = refl
    empty (x ∷ xs) h = absurd (omega arith)

-- Whatever the calls of ::write come to, when `flush` on an open writer returns, what the descriptor has taken
-- followed by what the ring still holds is what it was before, in order; if the code is SUCCESS, the
-- ring is empty, so the descriptor has taken all of it.
pub flush_keeps_bytes :
    (b : BufferedWriter) (w : ℕ) (k : Sink) (rc : Rc) (b' : BufferedWriter) (k' : Sink)
    → b.is_open ≡ true
    → IsRing (b.buffer) w
    → flush b k ≡ some (rc, b', k')
    → IsRing (b'.buffer) w
      × (k'.out ++ contents (b'.buffer) w ≡ k.out ++ contents (b.buffer) w)
      × (rc ≡ Rc.success → k'.out ≡ k.out ++ contents (b.buffer) w)
flush_keeps_bytes b w k rc b' k' opened v e =
    let (_, f, _) =
      subst (IsFlushed b w k (b.buffer.data_size)) e (flush-IsFlushed b w k opened v) in
    (
      f.ring,
      f.bytes,
      λ ok.
          sym (append-nil k'.out)
          ∙ ap (◌++◌ k'.out) (sym (contents_none (b'.buffer) w (omega (arith, f.enough ok)) f.ring))
          ∙ f.bytes,
    )

-- If ::write takes a byte at least as often as the ring holds bytes before it fails, `flush` on an open writer
-- returns SUCCESS, and the descriptor has taken exactly the held bytes, in order.
pub flush_sends_all :
    (b : BufferedWriter) (w : ℕ) (k : Sink)
    → b.is_open ≡ true
    → IsRing (b.buffer) w
    → b.buffer.data_size ≤ good k.future
    → (b' : BufferedWriter) × (k' : Sink) × (flush b k ≡ some (Rc.success, b', k'))
      × (k'.out ≡ k.out ++ contents (b.buffer) w)
      × (b'.buffer.data_size ≡ 0)
flush_sends_all b w k opened v h = go (flush b k) refl (flush-IsFlushed b w k opened v)
  where
    go :
        (o : Option (Rc × BufferedWriter × Sink))
        → flush b k ≡ o
        → IsFlushed b w k (b.buffer.data_size) o
        → (b' : BufferedWriter) × (k' : Sink) × (flush b k ≡ some (Rc.success, b', k'))
          × (k'.out ≡ k.out ++ contents (b.buffer) w)
          × (b'.buffer.data_size ≡ 0)
    go none e f = absurd (omega (arith, f))
    go (some (rc, b', k')) e f =
        let ok = (f.2 h).0 in
        (
          b',
          k',
          e ∙ ap (λ x. some (x, b', k')) ok,
          (flush_keeps_bytes b w k rc b' k' opened v e).2 ok,
          omega (arith, f.1.enough ok),
        )
