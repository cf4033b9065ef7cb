-- ===== src/Frames/Loop.antt =====
-- The loop of allocate_frame where every frame is pinned.
use ob_preliminary.Common.{
  ℕ, zero, suc, ◌≡◌, refl, sym, ap, ◌∙◌, Bool, true, false, false≢true, none, some, List, [], ◌∷◌,
  if◌then◌else◌,
}
use mathlib.Core.List.{reverse}
use ob_preliminary.Common.Int.{ℤ, eqb_ℤ}
use ob_preliminary.Common.Rc.{Rc}
use ob_preliminary.Common.System.{waits}
use ob_preliminary.Frames.{
  FrameId, Frame, BpFrameManager, member, can_purge, alloc, find_purgeable, purge_each,
  purge_frames,
}
use ob_preliminary.Frames.Pool.{PageStore, flush_page_internal, flush_page, purger, allocate_frame}
use ob_preliminary.Frames.Inv.{frame_of, IsFrames}
use ob_preliminary.Frames.Find.{Known, reverse-Known}
use ob_preliminary.Frames.Alloc.{hit, free_one, none_left, alloc_lem}

-- Every page in memory is pinned.
abbrev pub AllPinned : BpFrameManager → Type 0
AllPinned m = (j : FrameId) (b : ℕ) → frame_of m j ≡ some b → can_purge (m.memory b) ≡ false

find_none :
    (n : ℕ) (es : List (FrameId × ℕ)) (m : BpFrameManager)
    → Known m es
    → AllPinned m
    → find_purgeable n es m ≡ (m, [])
unfolding find_purgeable
find_none zero es m k p = refl
find_none (suc n) [] m k p = refl
find_none (suc n) ((id, a) ∷ es) m k p =
    rw (find_purgeable, p id a k.0) (find_none (suc n) es m k.1 p)

module _ {ℓ} {E : Type ℓ} (store : PageStore E) where
  abbrev pub Keeps : Frame → E × Frame × Rc → Type 0
  Keeps f r = (r.1.pin_count ≡ f.pin_count) × (r.1.frame_id ≡ f.frame_id)

  pub if-Keeps :
      (f : Frame) (c : Bool) (x y : E × Frame × Rc)
      → Keeps f x
      → Keeps f y
      → Keeps f (if c then x else y)
  if-Keeps f true x y h k = h
  if-Keeps f false x y h k = k

  pub flush_page_internal-Keeps :
      (pool : ℤ) (e : E) (f : Frame) → Keeps f (flush_page_internal store pool e f)
  unfolding flush_page_internal
  flush_page_internal-Keeps pool e f = if-Keeps f _ _ _ (refl, refl) (refl, refl)

  flush_page-Keeps : (e : E) (f : Frame) → Keeps f (flush_page store e f)
  unfolding flush_page
  flush_page-Keeps e f =
      if-Keeps f (store.is_open e f.frame_id.buffer_pool_id)
        (flush_page_internal store f.frame_id.buffer_pool_id e f) (e, f, Rc.internal)
        (flush_page_internal-Keeps f.frame_id.buffer_pool_id e f) (refl, refl)

  -- The purger changes neither the pins nor the page of a frame.
  pub purger-Keeps : (pool : ℤ) (e : E) (f : Frame) → Keeps f (purger store pool e f)
  unfolding purger
  purger-Keeps pool e f =
      let mine = eqb_ℤ f.frame_id.buffer_pool_id pool in
      let flush = flush_page_internal store pool e f in
      let other = flush_page store e f in
      if-Keeps f f.dirty (if mine then flush else other) (e, f, Rc.success)
        (if-Keeps f mine flush other (flush_page_internal-Keeps pool e f) (flush_page-Keeps e f))
        (refl, refl)

  nothing_left :
      (m : BpFrameManager) (id : FrameId)
      → IsFrames m
      → frame_of m id ≡ none
      → m.frees ≡ []
      → alloc m id ≡ some (m, none)
  nothing_left m id v out full = elim (alloc_lem m id v) [
    | hit a m' h run g ↦ absurd (let both = sym out ∙ h in cc)
    | free_one a m' h i run g ↦ absurd (false≢true (sym (ap (λ ys. member a ys) full) ∙ i))
    | none_left h f run ↦ run
  ]

  -- With a page that is not in memory, no free frame and every frame pinned, allocate_frame is still in its loop after
  -- any number of rounds: it never returns, neither a frame nor BUFFERPOOL_NOBUF.
  pub allocate_frame_spins :
      (e : E) (m : BpFrameManager) (id : FrameId)
      → IsFrames m
      → frame_of m id ≡ none
      → m.frees ≡ []
      → AllPinned m
      → (fuel : ℕ) → allocate_frame store fuel e m id ≡ waits
  unfolding allocate_frame purge_frames purge_each
  allocate_frame_spins e m id v out full p zero = refl
  allocate_frame_spins e m id v out full p (suc fuel) =
      rw
        (
          allocate_frame,
          nothing_left m id v out full,
          purge_frames,
          find_none 1 (reverse m.frames) m (reverse-Known m v) p,
        )
        (allocate_frame_spins e m id v out full p fuel)
