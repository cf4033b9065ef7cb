-- ===== src/Frames/GetPage.antt =====
-- get_this_page.
use ob_preliminary.Common.{
  ℕ, suc, ◌+◌, ◌≡◌, refl, sym, subst, ap, ◌∙◌, inl, inr, true, false, Option, none, some, ◌==◌,
  if◌then◌else◌, arith, Bool-cases, Option-cases,
}
use ob_preliminary.Common.Int.{ℤ}
use ob_preliminary.Common.Rc.{Rc, ob_succ, is_success}
use ob_preliminary.Common.System.{Call, returns, waits, stops}
use ob_preliminary.Frames.{FrameId, Page, Frame, BpFrameManager, set_frame, get_internal}
use ob_preliminary.Frames.Pool.{
  PageStore, flush_page_internal, load_page, allocate_frame, purge_frame, get_this_page,
}
use ob_preliminary.Frames.Inv.{frame_of, IsFrames, set_frame-IsFrames}
use ob_preliminary.Frames.Alloc.{HasFrame, get_hit, get_miss}
use ob_preliminary.Frames.Free.{freed}
use ob_preliminary.Frames.Ends.{
  HasRoom, Given, Writes, if-Writes, flush_page_internal-Writes, allocate_frame_ends,
}
use ob_preliminary.Frames.PurgePage.{Evicted, written-freed}
use ob_preliminary.Frames.LoadPage.{PageRead, Reads, load_page-Loads, load_page-Reads}
use ob_preliminary.Frames.WriteBack.{WrittenBack, written, written-WrittenBack}

module _ {ℓ} {E : Type ℓ} (store : PageStore E) where
  after_load :
      FrameId → ℕ → BpFrameManager → E × Rc × Frame → Call (E × BpFrameManager × Rc × Option ℕ)
  after_load id a m r =
      if ob_succ r.1
      then returns (r.0, set_frame m a r.2, Rc.success, some a)
      else elim (purge_frame store r.0 (set_frame m a r.2) id a) [
        | none ↦ stops
        | some (e3, m3, ignored) ↦ returns (e3, m3, r.1, none)
      ]

  get_hit_page :
      (fuel : ℕ) (e : E) (m : BpFrameManager) (id : FrameId) (a : ℕ)
      → (get_internal m id).1 ≡ some a
      → get_this_page store fuel e m id ≡ returns (e, (get_internal m id).0, Rc.success, some a)
  unfolding get_this_page
  get_hit_page fuel e m id a h = rw (get_this_page, h) refl

  after_get :
      FrameId
      → Call (E × BpFrameManager × Rc × Option ℕ)
      → Call (E × BpFrameManager × Rc × Option ℕ)
  after_get id r = elim r [
    | waits ↦ waits
    | stops ↦ stops
    | returns (e', m', code, frame) ↦ elim frame [
      | none ↦ returns (e', m', code, none)
      | some a ↦ after_load id a m' (load_page store e' id (m'.memory a))
    ]
  ]

  get_missed :
      (fuel : ℕ) (e : E) (m : BpFrameManager) (id : FrameId)
      → frame_of m id ≡ none
      → get_this_page store fuel e m id ≡ after_get id (allocate_frame store fuel e m id)
  unfolding get_this_page after_load after_get
  get_missed fuel e m id out =
      let none_there : (get_internal m id).1 ≡ none =
        ap (λ (r : BpFrameManager × Option ℕ). r.1) (get_miss m id out) in
      let same : (get_internal m id).0 ≡ m =
        ap (λ (r : BpFrameManager × Option ℕ). r.0) (get_miss m id out) in
      let run : get_this_page store fuel e m id
          ≡ after_get id (allocate_frame store fuel e (get_internal m id).0 id) =
        rw (get_this_page, none_there) refl in
      run ∙ ap (λ (g : BpFrameManager). after_get id (allocate_frame store fuel e g id)) same

module _ {ℓ} {E : Type ℓ} (store : PageStore E)
    (adds : (e : E) (id : FrameId) (p : Page) → ob_succ (store.add_page e id p).1 ≡ true)
    (opened : (e : E) (pool : ℤ) → store.is_open e pool ≡ true) where
  -- What get_this_page comes to.
  pub data PageGot (fuel : ℕ) (e : E) (m : BpFrameManager) (id : FrameId) : Type ℓ where
    in_memory :
        (a : ℕ) (m' : BpFrameManager)
        → frame_of m id ≡ some a
        → get_this_page store fuel e m id ≡ returns (e, m', Rc.success, some a)
        → HasFrame m m' id a ((m.memory a).pin_count + 1)
        → PageGot fuel e m id
    loaded :
        (a : ℕ) (e1 e' : E) (m1 m' : BpFrameManager) (p : Page)
        → frame_of m id ≡ none
        → allocate_frame store fuel e m id ≡ returns (e1, m1, Rc.success, some a)
        → Given m m1 id a
        → PageRead store e1 id (m1.memory a).page e' Rc.success p
        → get_this_page store fuel e m id ≡ returns (e', m', Rc.success, some a)
        → HasFrame m1 m' id a 1
        → (m'.memory a).page ≡ p
        → PageGot fuel e m id
    unread :
        (a : ℕ) (e1 e2 e' : E) (m1 m' : BpFrameManager) (p : Page) (f : Frame) (rc : Rc)
        → frame_of m id ≡ none
        → allocate_frame store fuel e m id ≡ returns (e1, m1, Rc.success, some a)
        → Given m m1 id a
        → PageRead store e1 id (m1.memory a).page e2 rc p
        → ob_succ rc ≡ false
        → get_this_page store fuel e m id ≡ returns (e', m', rc, none)
        → Evicted m1 m' id
        → (f.page ≡ p) × (f.dirty ≡ (m1.memory a).dirty) × WrittenBack store e2 id f e' Rc.success
        → PageGot fuel e m id

  written-Writes :
      (e : E) (f : Frame) (id : FrameId) → Writes store adds opened (written store e f id)
  unfolding written
  written-Writes e f id =
      if-Writes store adds opened f.dirty (flush_page_internal store id.buffer_pool_id e f)
        (e, f, Rc.success) (flush_page_internal-Writes store adds opened id.buffer_pool_id e f) refl

  -- Where a frame is free or a page in memory is not pinned, every page can be added to the double write buffer and
  -- every pool is open, get_this_page returns after two rounds of its loop at most, and meets no failing ASSERT. A
  -- page in memory is given with one pin more, and nothing is read. Any other gets a frame, with one pin, and is read
  -- from the double write buffer, or from the file if it is not there. Where that succeeds the frame is given and
  -- holds what was read. Where it fails its code is returned, and the page has no frame then; but what the frame holds
  -- is written back as the page if the frame was dirty from its last use.
  pub get_this_page_lem :
      (fuel : ℕ) (e : E) (m : BpFrameManager) (id : FrameId)
      → IsFrames m
      → HasRoom m
      → PageGot (suc (suc fuel)) e m id
  unfolding after_get after_load set_frame Reads
  get_this_page_lem fuel e m id v room = elim (Option-cases (frame_of m id)) [
    | inr (a, l) ↦
        let (same, h) = get_hit m id a v l in
        in_memory a (get_internal m id).0 l (get_hit_page store (suc (suc fuel)) e m id a same) h
    | inl out ↦
        let (a, e1, m1, run, g) = allocate_frame_ends store adds opened e m id fuel v room in
        let r = load_page store e1 id (m1.memory a) in
        let (pins, names, marks) =
          load_page-Loads store e1 id (m1.memory a) (g.valid.named id a g.here) in
        let read = load_page-Reads store e1 id (m1.memory a) in
        let m2 = set_frame m1 a r.2 in
        let w =
          set_frame-IsFrames m1 a r.2 g.valid (g.valid.taken id a g.here)
            (names ∙ sym (g.valid.named id a g.here)) in
        let self : (a == a) ≡ true = ground arith in
        let one : (m2.memory a).pin_count ≡ 1 = rw self (pins ∙ g.alone out) in
        let whole = get_missed store (suc (suc fuel)) e m id out ∙ ap (after_get store id) run in
        elim (Bool-cases (ob_succ r.1)) [
          | inl t ↦
              loaded a e1 r.0 m1 m2 r.2.page out run g
                (subst (λ c. PageRead store e1 id (m1.memory a).page r.0 c r.2.page)
                  (is_success r.1 t) read)
                (whole ∙ rw (after_load, t) refl)
                (record {
                  valid = w;
                  here = g.here;
                  others = λ j n. refl;
                  pins = one;
                  rest = λ b n. rw n refl;
                })
                (rw self refl)
          | inr n ↦
              let f = m2.memory a in
              let done = written-Writes r.0 f id in
              let back = written store r.0 f id in
              let m3 = freed (set_frame m2 a back.1) id a in
              let (gone, evicted) = written-freed store r.0 m2 id a w g.here one done in
              let wrote =
                subst (WrittenBack store r.0 id f back.0) (is_success back.2 done)
                  (written-WrittenBack store r.0 f id (w.named id a g.here)) in
              unread a e1 r.0 back.0 m1 m3 r.2.page f r.1 out run g read n
                (whole ∙ rw (after_load, n, gone) refl)
                (record { valid = evicted.valid; gone = evicted.gone; others = evicted.others })
                (rw self refl, rw self marks, wrote)
        ]
  ]
