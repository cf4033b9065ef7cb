-- ===== src/Frames/Ends.antt =====
-- The loop of allocate_frame where a frame is not pinned.
use ob_preliminary.Common.{
  ℕ, suc, ◌+◌, ◌≡◌, ◌⊎◌, refl, sym, ap, ◌∙◌, inl, inr, Bool, true, false, false≢true, none, some,
  List, [], ◌==◌, leb, length, if◌then◌else◌, arith, not_true,
}
use ob_preliminary.Common.Int.{ℤ, eqb_ℤ}
use ob_preliminary.Common.Rc.{Rc, ob_succ}
use ob_preliminary.Common.System.{returns}
use ob_preliminary.Frames.{
  FrameId, equal_to, Page, Frame, BpFrameManager, member, can_purge, alloc, purge_frames,
}
use ob_preliminary.Frames.Pool.{PageStore, flush_page_internal, flush_page, purger, allocate_frame}
use ob_preliminary.Frames.Inv.{equal_to_iff, frame_of, IsFrames}
use ob_preliminary.Frames.Alloc.{HasFrame, hit, free_one, none_left, alloc_lem}
use ob_preliminary.Frames.Purge.{purge_frames_lem}
use ob_preliminary.Frames.Held.{finds_unpinned}
use ob_preliminary.Frames.Loop.{purger-Keeps}

-- A frame is free, or a page in memory is not pinned.
abbrev pub HasRoom : BpFrameManager → Type 0
HasRoom m =
    ((a : ℕ) × (member a m.frees ≡ true))
    ⊎ ((j : FrameId) × (b : ℕ) × (frame_of m j ≡ some b) × (can_purge (m.memory b) ≡ true))

-- What allocate_frame gives: the page's frame, with the other pages' pinned frames as they were.
pub record Given (m m' : BpFrameManager) (id : FrameId) (a : ℕ) : Type 0 where
  pub valid : IsFrames m'
  pub here : frame_of m' id ≡ some a
  pub alone : frame_of m id ≡ none → (m'.memory a).pin_count ≡ 1
  pub pinned :
      (j : FrameId) (b : ℕ)
      → equal_to id j ≡ false
      → frame_of m j ≡ some b
      → can_purge (m.memory b) ≡ false
      → (frame_of m' j ≡ some b) × (m'.memory b ≡ m.memory b)

-- Two pages have two frames.
frames_apart :
    (m : BpFrameManager) (i j : FrameId) (a b : ℕ)
    → IsFrames m
    → frame_of m i ≡ some a
    → frame_of m j ≡ some b
    → equal_to i j ≡ false
    → (b == a) ≡ false
frames_apart m i j a b v k l n = not_true λ t.
    let same : a ≡ b = ground arith in
    let names : i ≡ j =
      sym (v.named i a k) ∙ ap (λ c. (m.memory c).frame_id) same ∙ v.named j b l in
    sym n ∙ (equal_to_iff i j).1 names

given :
    (m0 m m' : BpFrameManager) (id : FrameId) (a n : ℕ)
    → ((j : FrameId) (b : ℕ)
        → frame_of m0 j ≡ some b
        → can_purge (m0.memory b) ≡ false
        → (frame_of m j ≡ some b) × (m.memory b ≡ m0.memory b))
    → (frame_of m0 id ≡ none → n ≡ 1)
    → HasFrame m m' id a n
    → Given m0 m' id a
given m0 m m' id a n kept one h = record {
  valid = h.valid;
  here = h.here;
  alone = λ out. h.pins ∙ one out;
  pinned = λ j b o l p.
      let (l', same) = kept j b l p in
      let l'' = h.others j o ∙ l' in
      (l'', h.rest b (frames_apart m' id j a b h.valid h.here l'' o) ∙ same);
}

module _ {ℓ} {E : Type ℓ} (store : PageStore E)
    (adds : (e : E) (id : FrameId) (p : Page) → ob_succ (store.add_page e id p).1 ≡ true)
    (opened : (e : E) (pool : ℤ) → store.is_open e pool ≡ true) where
  abbrev pub Writes : E × Frame × Rc → Type 0
  Writes r = ob_succ r.2 ≡ true

  pub if-Writes :
      (c : Bool) (x y : E × Frame × Rc) → Writes x → Writes y → Writes (if c then x else y)
  if-Writes true x y h k = h
  if-Writes false x y h k = k

  pub flush_page_internal-Writes :
      (pool : ℤ) (e : E) (f : Frame) → Writes (flush_page_internal store pool e f)
  unfolding flush_page_internal
  flush_page_internal-Writes pool e f =
      let summed : Page = record (f.page) { check_sum = store.crc32 f.page.content } in
      let at : FrameId = record { buffer_pool_id = pool; page_num = f.frame_id.page_num } in
      let done = adds (store.flush_log e pool f.page).0 at summed in rw done refl

  flush_page-Writes : (e : E) (f : Frame) → Writes (flush_page store e f)
  unfolding flush_page
  flush_page-Writes e f =
      rw (opened e f.frame_id.buffer_pool_id)
        (flush_page_internal-Writes f.frame_id.buffer_pool_id e f)

  purger-Writes : (pool : ℤ) (e : E) (f : Frame) → Writes (purger store pool e f)
  unfolding purger
  purger-Writes pool e f =
      let mine = eqb_ℤ f.frame_id.buffer_pool_id pool in
      let flush = flush_page_internal store pool e f in
      let other = flush_page store e f in
      if-Writes f.dirty (if mine then flush else other) (e, f, Rc.success)
        (if-Writes mine flush other (flush_page_internal-Writes pool e f) (flush_page-Writes e f))
        refl

  -- Where the page has no frame and no frame is free, one is freed and then taken.
  freed_then_taken :
      (e : E) (m : BpFrameManager) (id : FrameId) (fuel j_frame : ℕ) (j : FrameId)
      → IsFrames m
      → frame_of m j ≡ some j_frame
      → can_purge (m.memory j_frame) ≡ true
      → frame_of m id ≡ none
      → m.frees ≡ []
      → alloc m id ≡ some (m, none)
      → (a : ℕ) × (e' : E) × (m' : BpFrameManager) × (allocate_frame store (suc (suc fuel)) e m id
          ≡ returns (e', m', Rc.success, some a))
        × Given m m' id a
  unfolding allocate_frame purge_frames
  freed_then_taken e m id fuel j_frame j v l p out full run =
      let purge = purger store id.buffer_pool_id in
      let (e', m', n, purged, kept, all) =
        purge_frames_lem purge (purger-Keeps store id.buffer_pool_id) e m 1 v in
      let found = finds_unpinned m j j_frame l p in
      let count = all (purger-Writes id.buffer_pool_id) in
      let none_free : length m.frees ≡ 0 = ap (λ (ys : List ℕ). length ys) full in
      let some_free : leb 1 (length m'.frees) ≡ true = let more = kept.more in ground arith in
      elim (alloc_lem m' id kept.valid) [
        | hit a m'' h again g ↦ absurd (let both = sym out ∙ kept.only id a h in cc)
        | free_one a m'' h i again g ↦ (
          a,
          e',
          m'',
          rw (allocate_frame, run, purged, again) refl,
          given m m' m'' id a 1 kept.pinned (λ out. refl) g,
        )
        | none_left h f again ↦
            absurd
              (let zero : length m'.frees ≡ 0 = ap (λ (ys : List ℕ). length ys) f in ground arith)
      ]

  -- Where a frame is free or a page in memory is not pinned, every page can be added to the double write buffer and every pool is
  -- open, the second run of the loop at the latest gives allocate_frame the frame of its page, whatever fuel is left. No ASSERT
  -- fails; the page has that frame then, pinned once if it had none, and every other page whose frame was pinned has it
  -- still, with what it held.
  pub allocate_frame_ends :
      (e : E) (m : BpFrameManager) (id : FrameId) (fuel : ℕ)
      → IsFrames m
      → HasRoom m
      → (a : ℕ) × (e' : E) × (m' : BpFrameManager) × (allocate_frame store (suc (suc fuel)) e m id
          ≡ returns (e', m', Rc.success, some a))
        × Given m m' id a
  unfolding allocate_frame
  allocate_frame_ends e m id fuel v room = elim (alloc_lem m id v) [
    | hit a m' h run g ↦ (
      a,
      e,
      m',
      rw (allocate_frame, run) refl,
      given m m m' id a ((m.memory a).pin_count + 1) (λ k c l q. (l, refl))
          (λ out. let both = sym out ∙ h in absurd cc) g,
    )
    | free_one a m' h i run g ↦ (
      a,
      e,
      m',
      rw (allocate_frame, run) refl,
      given m m m' id a 1 (λ k c l q. (l, refl)) (λ out. refl) g,
    )
    | none_left h f run ↦ elim room [
      | inl (a, i) ↦ absurd (false≢true (sym (ap (λ ys. member a ys) f) ∙ i))
      | inr (j, b, l, p) ↦ freed_then_taken e m id fuel b j v l p h f run
    ]
  ]
