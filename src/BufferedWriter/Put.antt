-- ===== src/BufferedWriter/Put.antt =====
-- `write`: a flush if the ring is full, and the bytes that it takes.
use ob_preliminary.Common.{
  ℕ, ◌+◌, ◌≤◌, ◌<◌, ◌≡◌, refl, sym, ap, ◌∙◌, subst, inl, inr, true, Option, none, some, List, ◌++◌,
  append_assoc, append-nil, ◌==◌, if◌then◌else◌, length, length-append, length-take, take, arith,
  Bool-cases,
}
use ob_preliminary.Common.Int.{pos}
use ob_preliminary.Common.Rc.{Rc, ob_succ}
use ob_preliminary.RingBuffer
use ob_preliminary.RingBuffer.{RingBuffer, capacity, remain}
use ob_preliminary.RingBuffer.Inv.{IsRing, contents}
use ob_preliminary.RingBuffer.Shown.{length-contents}
use ob_preliminary.RingBuffer.Write.{write_lem}
use ob_preliminary.BufferedWriter.{Sink, BufferedWriter, flush_internal, put, write}
use ob_preliminary.Common.System.{good}
use ob_preliminary.BufferedWriter.Loop.{IsFlushed, flush_internal-IsFlushed}

-- All bytes of a writer so far: those sent, then those held.
abbrev pub stream : BufferedWriter → ℕ → Sink → List ℕ
stream b w k = k.out ++ contents (b.buffer) w

-- What a call of `write` has done to an open writer.
pub record Written (b : BufferedWriter) (w : ℕ) (k : Sink) (data_in : List ℕ) (rc : Rc) (n : ℕ)
    (b' : BufferedWriter) (k' : Sink) : Type 0 where
  pub opened : b'.is_open ≡ true
  pub place : ℕ
  pub ring : IsRing (b'.buffer) place
  pub bytes : stream b' place k' ≡ stream b w k ++ take n data_in
  pub some_taken : rc ≡ Rc.success → (0 < n) × (n ≤ length data_in)
  pub runs :
      b.buffer.data_size ≤ good k.future
      → (rc ≡ Rc.success)
        × (good k.future + b'.buffer.data_size ≤ good k'.future + b.buffer.data_size + n)

abbrev pub IsWrite :
    BufferedWriter → ℕ → Sink → List ℕ → Option (Rc × ℕ × BufferedWriter × Sink) → Type 0
IsWrite b w k data_in none = good k.future < b.buffer.data_size
IsWrite b w k data_in (some (rc, n, b', k')) = Written b w k data_in rc n b' k'

put-Written :
    (b : BufferedWriter) (w : ℕ) (k : Sink) (data_in : List ℕ)
    → b.is_open ≡ true
    → IsRing (b.buffer) w
    → 0 < length data_in
    → 0 < remain (b.buffer)
    → let (rc, n, b', k') = put b k data_in in Written b w k data_in rc n b' k' × (rc ≡ Rc.success)
unfolding put
put-Written b w k data_in opened v some_data room =
    let (ok, count, (w', v', bytes), _) =
      write_lem (b.buffer) w data_in (length data_in) v (omega arith) in
    let (rc, n, r) = RingBuffer.write (b.buffer) data_in (pos (length data_in)) in
    let size = ap length bytes ∙ length-append (contents (b.buffer) w) (take n data_in) in
    (
      record {
        opened = opened;
        place = w';
        ring = v';
        bytes =
            ap (◌++◌ k.out) bytes
            ∙ sym (append_assoc k.out (contents (b.buffer) w) (take n data_in));
        some_taken = λ e. (omega (arith, count), omega (arith, count));
        runs = λ h. (
          ok,
          omega (
            arith,
            size,
            length-contents r w' v',
            length-contents (b.buffer) w v,
            length-take n data_in,
          ),
        );
      },
      ok,
    )

-- A write after a flush that made room.
flush-Written :
    (b : BufferedWriter) (w : ℕ) (k : Sink) (data_in : List ℕ) (b' : BufferedWriter) (k' : Sink)
    → 0 < length data_in
    → remain (b.buffer) ≡ 0
    → IsRing (b.buffer) w
    → IsFlushed b w k (length data_in) (some (Rc.success, b', k'))
    → let (rc, n, b'', k'') = put b' k' data_in in Written b w k data_in rc n b'' k''
flush-Written b w k data_in b' k' some_data full v (opened, f, runs) =
    let room : 0 < remain (b'.buffer) =
      omega (arith, f.enough refl, f.size, v.inside, f.ring.holds) in
    let (p, ok) = put-Written b' w k' data_in opened f.ring some_data room in
    record {
      opened = p.opened;
      place = p.place;
      ring = p.ring;
      bytes = p.bytes ∙ ap (λ ys. ys ++ take (put b' k' data_in).1 data_in) f.bytes;
      some_taken = p.some_taken;
      runs = λ h.
          let (_, kept) = runs h in
          let (_, kept') = p.runs (omega (arith, h, kept)) in (ok, omega (arith, kept, kept'));
    }

pub write-IsWrite :
    (b : BufferedWriter) (w : ℕ) (k : Sink) (data_in : List ℕ)
    → b.is_open ≡ true
    → IsRing (b.buffer) w
    → 0 < length data_in
    → IsWrite b w k data_in (write b k data_in)
unfolding write
write-IsWrite b w k data_in opened v some_data =
    subst (IsWrite b w k data_in)
      (sym (ap (λ o. if o then now else some (Rc.invalid_argument, 0, b, k)) opened))
      (elim (Bool-cases (remain (b.buffer) == 0)) [
        | inr room ↦ rw room (put-Written b w k data_in opened v some_data (ground arith)).0
        | inl full ↦
            let none_free : remain (b.buffer) ≡ 0 = ground arith in
            rw full (
              go none_free (flush_internal b k (length data_in))
                (flush_internal-IsFlushed b w k (length data_in) opened v))
      ])
  where
    now : Option (Rc × ℕ × BufferedWriter × Sink)
    now =
        if remain (b.buffer) == 0
        then elim (flush_internal b k (length data_in)) [
          | none ↦ none
          | some (rc, b', k') ↦
              if ob_succ rc then some (put b' k' data_in) else some (rc, 0, b', k')
        ]
        else some (put b k data_in)

    go :
        remain (b.buffer) ≡ 0
        → (o : Option (Rc × BufferedWriter × Sink)) → IsFlushed b w k (length data_in) o
        → IsWrite b w k data_in (elim o as (λ x. Option (Rc × ℕ × BufferedWriter × Sink)) [
          | none ↦ none
          | some (rc, b', k') ↦
              if ob_succ rc then some (put b' k' data_in) else some (rc, 0, b', k')
        ])
    go none_free none f = f
    go none_free (some (rc, b', k')) f = elim (Bool-cases (ob_succ rc)) [
      | inl good_code ↦
          let ok : rc ≡ Rc.success = ground arith in
          rw good_code (
            flush-Written b w k data_in b' k' some_data none_free v
              (subst (λ c. IsFlushed b w k (length data_in) (some (c, b', k'))) ok f))
      | inr bad_code ↦ rw bad_code (record {
        opened = f.0;
        place = w;
        ring = f.1.ring;
        bytes = f.1.bytes ∙ sym (append-nil (stream b w k));
        some_taken = λ e. absurd (ground arith);
        runs = λ h. let (ok, _) = f.2 h in absurd (ground arith);
      })
    ]
