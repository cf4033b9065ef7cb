-- ===== src/Frames/PurgeSteps.antt =====
-- One frame of a purge.
use ob_preliminary.Common.{
  ℕ, suc, ◌+◌, ◌≡◌, refl, sym, ap, ◌∙◌, inl, inr, true, false, false≢true, some, List, [], ◌∷◌,
  ◌==◌, leb, length, arith, Bool-cases, not_true,
}
use ob_preliminary.Common.Lists.{length-append}
use ob_preliminary.Frames.{
  FrameId, equal_to, Frame, BpFrameManager, set_frame, member, unpin, free_internal,
}
use ob_preliminary.Frames.Members.{ne_of_member}
use ob_preliminary.Frames.Inv.{equal_to_iff, frame_of, IsFrames, set_frame-IsFrames}
use ob_preliminary.Frames.Free.{
  freed, free_internal_run, freed-IsFrames, frame_of-freed, still, freed_memory, freed_frees,
}
use ob_preliminary.Frames.Find.{IsReady}

-- What a purge of some of the frames `xs` leaves: `n` frames are freed, only pages of these frames lose theirs, and the
-- other frames hold what they held.
pub record Purged (m m' : BpFrameManager) (xs : List ℕ) (n : ℕ) : Type 0 where
  pub valid : IsFrames m'
  pub others :
      (j : FrameId) (b : ℕ)
      → frame_of m j ≡ some b
      → member b xs ≡ false
      → (frame_of m' j ≡ some b) × (m'.memory b ≡ m.memory b)
  pub only : (j : FrameId) (b : ℕ) → frame_of m' j ≡ some b → frame_of m j ≡ some b
  pub more : length m'.frees ≡ length m.frees + n
  pub few : leb n (length xs) ≡ true

-- One frame is written back or not, and then freed.
pub freed_step :
    (m : BpFrameManager) (a : ℕ) (xs : List ℕ) (f : Frame)
    → IsReady m (a ∷ xs)
    → f.pin_count ≡ (m.memory a).pin_count
    → f.frame_id ≡ (m.memory a).frame_id
    → let m' = set_frame m a f in
      (free_internal m' f.frame_id a ≡ some (freed m' f.frame_id a))
      × IsReady (freed m' f.frame_id a) xs
unfolding set_frame
freed_step m a xs f r p i =
    let self : (a == a) ≡ true = ground arith in
    let (one, own) = r.own a (rw self refl) in
    let e : frame_of m f.frame_id ≡ some a = ap (frame_of m) i ∙ own in
    let m' = set_frame m a f in
    let v = set_frame-IsFrames m a f r.valid (r.valid.taken f.frame_id a e) i in
    let pins : (m'.memory a).pin_count ≡ 1 = rw self (p ∙ one) in
    (
      free_internal_run m' f.frame_id a v e pins,
      record {
        valid = freed-IsFrames m' f.frame_id a v e;
        distinct = r.distinct.1;
        own = λ b l.
            let (n, n') = ne_of_member b a xs r.distinct.0 l in
            let (one', own') = r.own b (rw n' l) in
            let same : (freed m' f.frame_id a).memory b ≡ m.memory b =
              freed_memory m' f.frame_id a b n ∙ rw n refl in
            let apart : equal_to f.frame_id (m.memory b).frame_id ≡ false = not_true λ t.
              let both : some a ≡ some b =
                sym e
                ∙ ap (frame_of m) ((equal_to_iff f.frame_id (m.memory b).frame_id).0 t)
                ∙ own' in
              let at : a ≡ b = cc in ground arith in
            (
              ap (λ (g : Frame). g.pin_count) same ∙ one',
              ap (λ (g : Frame). frame_of (freed m' f.frame_id a) g.frame_id) same
                  ∙ frame_of-freed m' f.frame_id (m.memory b).frame_id a apart
                  ∙ own',
            );
      },
    )

-- One frame is not written back, and is only unpinned.
pub kept_step :
    (m : BpFrameManager) (a : ℕ) (xs : List ℕ) (f : Frame)
    → IsReady m (a ∷ xs)
    → f.pin_count ≡ (m.memory a).pin_count
    → f.frame_id ≡ (m.memory a).frame_id
    → let g = record f { pin_count = 0 } in
      (unpin f ≡ some g) × IsReady (set_frame (set_frame m a f) a g) xs
unfolding set_frame unpin
kept_step m a xs f r p i =
    let self : (a == a) ≡ true = ground arith in
    let (one, own) = r.own a (rw self refl) in
    let e : frame_of m f.frame_id ≡ some a = ap (frame_of m) i ∙ own in
    let taken = r.valid.taken f.frame_id a e in
    let v = set_frame-IsFrames m a f r.valid taken i in
    let pins : f.pin_count ≡ 1 = p ∙ one in
    (
      rw (unpin, pins) refl,
      record {
        valid =
            set_frame-IsFrames (set_frame m a f) a (record f { pin_count = 0 }) v taken
              (sym (rw self refl));
        distinct = r.distinct.1;
        own = λ b l.
            let (n, n') = ne_of_member b a xs r.distinct.0 l in
            let (one', own') = r.own b (rw n' l) in (rw n one', rw n own');
      },
    )

outside :
    (a b : ℕ) (xs : List ℕ) → member b (a ∷ xs) ≡ false → ((a == b) ≡ false) × (member b xs ≡ false)
outside a b xs o = elim (Bool-cases (a == b)) [
  | inl t ↦ absurd (false≢true (sym o ∙ rw t refl))
  | inr f ↦ (f, sym (rw f refl) ∙ o)
]

-- A purge after a frame is freed.
pub then_freed :
    (m m' : BpFrameManager) (a n : ℕ) (xs : List ℕ) (f : Frame)
    → IsReady m (a ∷ xs)
    → f.frame_id ≡ (m.memory a).frame_id
    → Purged (freed (set_frame m a f) f.frame_id a) m' xs n
    → Purged m m' (a ∷ xs) (suc n)
unfolding set_frame
then_freed m m' a n xs f r i h =
    let self : (a == a) ≡ true = ground arith in
    let e : frame_of m f.frame_id ≡ some a = ap (frame_of m) i ∙ (r.own a (rw self refl)).1 in
    let m1 = set_frame m a f in
    let v = set_frame-IsFrames m a f r.valid (r.valid.taken f.frame_id a e) i in
    record {
      valid = h.valid;
      others = λ j b l o.
          let (apart, out) = outside a b xs o in
          let other : (b == a) ≡ false = ground arith in
          let differ : equal_to f.frame_id j ≡ false = not_true λ t.
            let both : some a ≡ some b =
              sym e ∙ ap (frame_of m) ((equal_to_iff f.frame_id j).0 t) ∙ l in
            let at : a ≡ b = cc in ground arith in
          let (l', same) = h.others j b (frame_of-freed m1 f.frame_id j a differ ∙ l) out in
          (l', same ∙ freed_memory m1 f.frame_id a b other ∙ rw other refl);
      only = λ j b l. (still m1 f.frame_id j a b v e (h.only j b l)).0;
      more =
          let grown : length (freed m1 f.frame_id a).frees ≡ length m.frees + 1 =
            ap (λ (ys : List ℕ). length ys) (freed_frees m1 f.frame_id a)
            ∙ length-append m.frees (a ∷ []) in
          let more = h.more in ground arith;
      few = let few = h.few in ground arith;
    }

pub then_kept :
    (m m' : BpFrameManager) (a n : ℕ) (xs : List ℕ) (f : Frame) (g : Frame)
    → Purged (set_frame (set_frame m a f) a g) m' xs n
    → Purged m m' (a ∷ xs) n
unfolding set_frame
then_kept m m' a n xs f g h = record {
  valid = h.valid;
  others = λ j b l o.
      let (apart, out) = outside a b xs o in
      let other : (b == a) ≡ false = ground arith in
      let (l', same) = h.others j b l out in (l', same ∙ rw other refl);
  only = λ j b l. h.only j b l;
  more = h.more;
  few = let few = h.few in ground arith;
}
