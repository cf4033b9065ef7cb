-- ===== src/BufferedWriter/Writen.antt =====
-- `writen`: the bytes of the data follow those written before.
use ob_preliminary.Common.{
  ℕ, zero, suc, ◌+◌, ◌≤◌, ◌<◌, ◌≡◌, refl, sym, ap, ◌∙◌, subst, ◌⊎◌, inl, inr, Bool, true, false,
  Option, none, some, List, [], ◌∷◌, ◌++◌, append_assoc, append-nil, if◌then◌else◌, length,
  length-drop, take-drop, take, drop, arith,
}
use ob_preliminary.Common.Rc.{Rc, ob_succ}
use ob_preliminary.RingBuffer.Segments.{take-add}
use ob_preliminary.RingBuffer.Inv.{IsRing, contents}
use ob_preliminary.BufferedWriter.{Sink, BufferedWriter, write, writen_loop, writen}
use ob_preliminary.Common.System.{good}
use ob_preliminary.BufferedWriter.Put.{stream, Written, IsWrite, write-IsWrite}

-- What `writen` has done: the bytes of a first part of the data follow, of all of it on success.
pub record WrittenAll (b : BufferedWriter) (w : ℕ) (k : Sink) (data_in : List ℕ) (rc : Rc)
    (b' : BufferedWriter) (k' : Sink) : Type 0 where
  pub place : ℕ
  pub ring : IsRing (b'.buffer) place
  pub taken : ℕ
  pub bytes : stream b' place k' ≡ stream b w k ++ take taken data_in
  pub all : rc ≡ Rc.success → take taken data_in ≡ data_in
  pub runs : b.buffer.data_size + length data_in ≤ good k.future → rc ≡ Rc.success

abbrev pub IsWriten :
    BufferedWriter → ℕ → Sink → List ℕ → Option (Rc × BufferedWriter × Sink) → Type 0
IsWriten b w k data_in none = good k.future < b.buffer.data_size + length data_in
IsWriten b w k data_in (some (rc, b', k')) = WrittenAll b w k data_in rc b' k'

-- A write, and the loop over the rest of the data.
next-IsWriten :
    (b : BufferedWriter) (w : ℕ) (k : Sink) (data_in : List ℕ) (n : ℕ) (b1 : BufferedWriter)
    (k1 : Sink) (p : Written b w k data_in Rc.success n b1 k1)
    (o : Option (Rc × BufferedWriter × Sink))
    → IsWriten b1 p.place k1 (drop n data_in) o
    → IsWriten b w k data_in o
next-IsWriten b w k data_in n b1 k1 p none f =
    let t = p.some_taken refl in
    elim (enough_or_not) [
      | inl h ↦ let (_, kept) = p.runs h in omega (arith, f, kept, t.1, length-drop n data_in)
      | inr l ↦ omega (arith, l)
    ]
  where
    enough_or_not : (b.buffer.data_size ≤ good k.future) ⊎ (good k.future < b.buffer.data_size)
    enough_or_not = omega arith
next-IsWriten b w k data_in n b1 k1 p (some (rc, b', k')) f =
    let t = p.some_taken refl in
    record {
      place = f.place;
      ring = f.ring;
      taken = n + f.taken;
      bytes =
          f.bytes
          ∙ ap (λ ys. ys ++ take f.taken (drop n data_in)) p.bytes
          ∙ append_assoc (stream b w k) (take n data_in) (take f.taken (drop n data_in))
          ∙ ap (◌++◌ (stream b w k)) (sym (take-add data_in n f.taken));
      all = λ ok.
          take-add data_in n f.taken ∙ ap (◌++◌ (take n data_in)) (f.all ok) ∙ take-drop n data_in;
      runs = λ h.
          let (_, kept) = p.runs (omega arith) in
          f.runs (omega (arith, h, kept, t.1, length-drop n data_in));
    }

writen_loop-IsWriten :
    (fuel : ℕ) (b : BufferedWriter) (w : ℕ) (k : Sink) (rest : List ℕ)
    → length rest < fuel
    → b.is_open ≡ true
    → IsRing (b.buffer) w
    → IsWriten b w k rest (writen_loop fuel b k rest)
unfolding writen_loop
writen_loop-IsWriten zero b w k rest m opened v = absurd (omega arith)
writen_loop-IsWriten (suc fuel) b w k [] m opened v = record {
  place = w;
  ring = v;
  taken = 0;
  bytes = sym (append-nil (stream b w k));
  all = λ e. refl;
  runs = λ h. refl;
}
writen_loop-IsWriten (suc fuel) b w k (x ∷ xs) m opened v =
    go (write b k (x ∷ xs)) (write-IsWrite b w k (x ∷ xs) opened v (omega arith))
      (writen_loop-IsWriten fuel)
  where
    after :
        (rc : Rc) (n : ℕ) (b' : BufferedWriter) (k' : Sink) (c : Bool)
        → ob_succ rc ≡ c
        → Written b w k (x ∷ xs) rc n b' k'
        → ((b' : BufferedWriter) (w' : ℕ) (k' : Sink) (rest : List ℕ)
            → length rest < fuel
            → b'.is_open ≡ true
            → IsRing (b'.buffer) w'
            → IsWriten b' w' k' rest (writen_loop fuel b' k' rest))
        → IsWriten b w k (x ∷ xs) (elim c as (λ y. Option (Rc × BufferedWriter × Sink)) [
          | true ↦ writen_loop fuel b' k' (drop n (x ∷ xs))
          | false ↦ some (rc, b', k')
        ])
    after rc n b' k' true e p rest =
        let ok : rc ≡ Rc.success = ground arith in
        let q = subst (λ c. Written b w k (x ∷ xs) c n b' k') ok p in
        next-IsWriten b w k (x ∷ xs) n b' k' q (writen_loop fuel b' k' (drop n (x ∷ xs))) (
          rest b' q.place k' (drop n (x ∷ xs))
            (omega (arith, length-drop n (x ∷ xs), q.some_taken refl, m)) q.opened q.ring)
    after rc n b' k' false e p rest = record {
      place = p.place;
      ring = p.ring;
      taken = n;
      bytes = p.bytes;
      all = λ ok. absurd (ground arith);
      runs = λ h. (p.runs (omega arith)).0;
    }

    go :
        (o : Option (Rc × ℕ × BufferedWriter × Sink))
        → IsWrite b w k (x ∷ xs) o
        → ((b' : BufferedWriter) (w' : ℕ) (k' : Sink) (rest : List ℕ)
            → length rest < fuel
            → b'.is_open ≡ true
            → IsRing (b'.buffer) w'
            → IsWriten b' w' k' rest (writen_loop fuel b' k' rest))
        → IsWriten b w k (x ∷ xs) (elim o as (λ y. Option (Rc × BufferedWriter × Sink)) [
          | none ↦ none
          | some (rc, n, b', k') ↦ elim (ob_succ rc) as (λ y. Option (Rc × BufferedWriter × Sink)) [
            | true ↦ writen_loop fuel b' k' (drop n (x ∷ xs))
            | false ↦ some (rc, b', k')
          ]
        ])
    go none f rest = omega (arith, f)
    go (some (rc, n, b', k')) f rest = after rc n b' k' (ob_succ rc) refl f rest

writen-IsWriten :
    (b : BufferedWriter) (w : ℕ) (k : Sink) (data_in : List ℕ)
    → b.is_open ≡ true
    → IsRing (b.buffer) w
    → IsWriten b w k data_in (writen b k data_in)
unfolding writen
writen-IsWriten b w k data_in opened v =
    subst (IsWriten b w k data_in)
      (sym (
        ap
          (λ o.
            if o
            then writen_loop (suc (length data_in)) b k data_in
            else some (Rc.invalid_argument, b, k))
          opened))
      (writen_loop-IsWriten (suc (length data_in)) b w k data_in (omega arith) opened v)

-- Whatever the calls of ::write come to, when `writen` on an open writer returns, the bytes sent followed by
-- those held are the ones before, then a first part of the data; all of the data if the code is SUCCESS.
pub writen_keeps_order :
    (b : BufferedWriter) (w : ℕ) (k : Sink) (data_in : List ℕ) (rc : Rc) (b' : BufferedWriter)
    (k' : Sink)
    → b.is_open ≡ true
    → IsRing (b.buffer) w
    → writen b k data_in ≡ some (rc, b', k')
    → (w' : ℕ) × (n : ℕ) × IsRing (b'.buffer) w'
      × (k'.out ++ contents (b'.buffer) w' ≡ (k.out ++ contents (b.buffer) w) ++ take n data_in)
      × (rc ≡ Rc.success → take n data_in ≡ data_in)
writen_keeps_order b w k data_in rc b' k' opened v e =
    let f = subst (IsWriten b w k data_in) e (writen-IsWriten b w k data_in opened v) in
    (f.place, f.taken, f.ring, f.bytes, f.all)

-- If ::write takes a byte at least as often as the ring and the data have bytes before it fails, `writen` on an
-- open writer returns SUCCESS, and all bytes of the data follow those sent and held before.
pub writen_takes_all :
    (b : BufferedWriter) (w : ℕ) (k : Sink) (data_in : List ℕ)
    → b.is_open ≡ true
    → IsRing (b.buffer) w
    → b.buffer.data_size + length data_in ≤ good k.future
    → (b' : BufferedWriter) × (k' : Sink) × (w' : ℕ) × (writen b k data_in
        ≡ some (Rc.success, b', k'))
      × IsRing (b'.buffer) w'
      × (k'.out ++ contents (b'.buffer) w' ≡ (k.out ++ contents (b.buffer) w) ++ data_in)
writen_takes_all b w k data_in opened v h =
    go (writen b k data_in) refl (writen-IsWriten b w k data_in opened v)
  where
    go :
        (o : Option (Rc × BufferedWriter × Sink))
        → writen b k data_in ≡ o
        → IsWriten b w k data_in o
        → (b' : BufferedWriter) × (k' : Sink) × (w' : ℕ) × (writen b k data_in
            ≡ some (Rc.success, b', k'))
          × IsRing (b'.buffer) w'
          × (k'.out ++ contents (b'.buffer) w' ≡ (k.out ++ contents (b.buffer) w) ++ data_in)
    go none e f = absurd (omega (arith, f))
    go (some (rc, b', k')) e f =
        let ok = f.runs h in
        (
          b',
          k',
          f.place,
          e ∙ ap (λ c. some (c, b', k')) ok,
          f.ring,
          f.bytes ∙ ap (◌++◌ (stream b w k)) (f.all ok),
        )
