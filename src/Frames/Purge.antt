-- ===== src/Frames/Purge.antt =====
-- purge_frames of the frame manager.
use ob_preliminary.Common.{
  ℕ, suc, ◌+◌, ◌≡◌, refl, sym, ap, ◌∙◌, inl, inr, true, false, false≢true, some, List, [], ◌∷◌, leb,
  max, length, arith, Bool-cases, not_true,
}
use mathlib.Core.List.{reverse}
use ob_preliminary.Common.Rc.{Rc, ob_succ}
use ob_preliminary.LruCache.Spec.{lookup}
use ob_preliminary.Frames.{
  FrameId, equal_to, Frame, BpFrameManager, set_frame, member, can_purge, find_purgeable,
  purge_each, purge_frames,
}
use ob_preliminary.Frames.Inv.{frame_of, IsFrames}
use ob_preliminary.Frames.Free.{freed}
use ob_preliminary.Frames.PurgeSteps.{Purged, freed_step, kept_step, then_freed, then_kept}
use ob_preliminary.Frames.Find.{IsReady, Found, find_purgeable_lem, reverse-Known}

-- What a purge leaves.
pub record KeepsPinned (m m' : BpFrameManager) (count n : ℕ) : Type 0 where
  pub valid : IsFrames m'
  pub pinned :
      (j : FrameId) (b : ℕ)
      → frame_of m j ≡ some b
      → can_purge (m.memory b) ≡ false
      → (frame_of m' j ≡ some b) × (m'.memory b ≡ m.memory b)
  pub only : (j : FrameId) (b : ℕ) → frame_of m' j ≡ some b → frame_of m j ≡ some b
  pub more : length m'.frees ≡ length m.frees + n
  pub few : leb n (max count 1) ≡ true

Found-KeepsPinned :
    (m m1 m' : BpFrameManager) (xs : List ℕ) (count n : ℕ)
    → Found (max count 1) m m1 xs
    → Purged m1 m' xs n
    → KeepsPinned m m' count n
Found-KeepsPinned m m1 m' xs count n f h =
    let entries = λ (j : FrameId). ap (λ es. lookup equal_to j es) f.entries in
    record {
      valid = h.valid;
      pinned = λ j b l p.
          let out : member b xs ≡ false = not_true λ i. let idle = f.unpinned b i in ground arith in
          let (l', same) = h.others j b (entries j ∙ l) out in (l', same ∙ f.rest b out);
      only = λ j b l. sym (entries j) ∙ h.only j b l;
      more = h.more ∙ ap (λ (ys : List ℕ). length ys + n) f.pool;
      few = let found = f.few in let freed = h.few in ground arith;
    }

-- Every write of a purger succeeds.
abbrev pub Writes {ℓ} : {E : Type ℓ} → (E → Frame → E × Frame × Rc) → Type ℓ
Writes {E = E} purger = (e : E) (f : Frame) → ob_succ (purger e f).2 ≡ true

module _ {ℓ} {E : Type ℓ} (purger : E → Frame → E × Frame × Rc)
    (keeps : (e : E) (f : Frame)
      → ((purger e f).1.pin_count ≡ f.pin_count) × ((purger e f).1.frame_id ≡ f.frame_id)) where
  purge_each_lem :
      (e : E) (m : BpFrameManager) (xs : List ℕ)
      → IsReady m xs
      → (e' : E) × (m' : BpFrameManager) × (n : ℕ) × (purge_each purger e m xs ≡ some (e', m', n))
        × Purged m m' xs n
        × (Writes purger → n ≡ length xs)
  unfolding purge_each
  purge_each_lem e m [] r = (
    e,
    m,
    0,
    refl,
    record {
      valid = r.valid;
      others = λ j b l o. (l, refl);
      only = λ j b l. l;
      more = omega arith;
      few = refl;
    },
    λ w. refl,
  )
  purge_each_lem e m (a ∷ xs) r =
      let e' = (purger e (m.memory a)).0 in
      let f = (purger e (m.memory a)).1 in
      let (p, i) = keeps e (m.memory a) in
      elim (Bool-cases (ob_succ (purger e (m.memory a)).2)) [
        | inl t ↦
            let (run, ready) = freed_step m a xs f r p i in
            let (e'', m', n, more, done, all) =
              purge_each_lem e' (freed (set_frame m a f) f.frame_id a) xs ready in
            (
              e'',
              m',
              suc n,
              rw (purge_each, t, run, more) refl,
              then_freed m m' a n xs f r i done,
              λ w. ap suc (all w),
            )
        | inr o ↦
            let (run, ready) = kept_step m a xs f r p i in
            let g = record f { pin_count = 0 } in
            let (e'', m', n, more, done, all) =
              purge_each_lem e' (set_frame (set_frame m a f) a g) xs ready in
            (
              e'',
              m',
              n,
              rw (purge_each, o, run, more) refl,
              then_kept m m' a n xs f g done,
              λ w. absurd (false≢true (sym o ∙ w e (m.memory a))),
            )
      ]

  -- A purge of the frames, by a purger that changes neither the pins nor the page of a frame, meets no failing ASSERT. What holds
  -- between calls holds after it; a page whose frame is pinned keeps the frame, which holds what it held; no page gets a frame; and
  -- it frees as many frames as it says, at most max(count, 1). Where every write succeeds these are all the frames it found.
  pub purge_frames_lem :
      (e : E) (m : BpFrameManager) (count : ℕ)
      → IsFrames m
      → let found = (find_purgeable (max count 1) (reverse m.frames) m).1 in
        (e' : E) × (m' : BpFrameManager) × (n : ℕ) × (purge_frames purger e m count
          ≡ some (e', m', n))
        × KeepsPinned m m' count n
        × (Writes purger → n ≡ length found)
  unfolding purge_frames
  purge_frames_lem e m count v =
      let found = find_purgeable_lem (max count 1) (reverse m.frames) m v (reverse-Known m v) in
      let (m1, xs) = find_purgeable (max count 1) (reverse m.frames) m in
      let (e', m', n, run, h, all) = purge_each_lem e m1 xs found.ready in
      (e', m', n, run, Found-KeepsPinned m m1 m' xs count n found h, all)
