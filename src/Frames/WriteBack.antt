-- ===== src/Frames/WriteBack.antt =====
-- The write of a page back before its frame is given up.
use ob_preliminary.Common.{
  ◌≡◌, refl, sym, ap, ◌∙◌, inl, inr, Bool, true, false, false≢true, if◌then◌else◌, Bool-cases,
}
use ob_preliminary.Common.Int.{ℤ}
use ob_preliminary.Common.Rc.{Rc, ob_succ, is_success}
use ob_preliminary.Frames.{FrameId, Page, Frame, pin}
use ob_preliminary.Frames.Pool.{PageStore, flush_page_internal}

module _ {ℓ} {E : Type ℓ} (store : PageStore E) where
  -- Nothing is written of a clean frame. Of a dirty one, the log up to it is flushed, and its page is added to the double write
  -- buffer with the check sum of its bytes; the code is what the buffer returns.
  pub data WrittenBack (e : E) (id : FrameId) (f : Frame) : E → Rc → Type ℓ where
    clean : f.dirty ≡ false → WrittenBack e id f e Rc.success
    added :
        {e' : E} {rc : Rc}
        → f.dirty ≡ true
        → store.add_page
            (store.flush_log e id.buffer_pool_id f.page).0
            id
            (record (f.page) { check_sum = store.crc32 f.page.content })
          ≡ (e', rc)
        → WrittenBack e id f e' rc

  -- The frame as the purge writes it back, when it is dirty.
  unfoldable pub written : E → Frame → FrameId → E × Frame × Rc
  written e f id =
      if f.dirty then flush_page_internal store id.buffer_pool_id e f else (e, f, Rc.success)

  flush_page_internal-WrittenBack :
      (e : E) (f : Frame) (id : FrameId)
      → f.frame_id ≡ id
      → f.dirty ≡ true
      → let r = flush_page_internal store id.buffer_pool_id e f in WrittenBack e id f r.0 r.2
  unfolding flush_page_internal
  flush_page_internal-WrittenBack e f id n d =
      let summed : Page = record (f.page) { check_sum = store.crc32 f.page.content } in
      let at : FrameId = record {
        buffer_pool_id = id.buffer_pool_id;
        page_num = f.frame_id.page_num;
      } in
      let here : at ≡ id =
        ap
          (λ (i : FrameId).
            let j : FrameId = record {
              buffer_pool_id = id.buffer_pool_id;
              page_num = i.page_num;
            } in
            j)
          n in
      let logged = (store.flush_log e id.buffer_pool_id f.page).0 in
      let w = store.add_page logged at summed in
      let run : store.add_page logged id summed ≡ w =
        ap (λ i. store.add_page logged i summed) (sym here) in
      elim (Bool-cases (ob_succ w.1)) [
        | inr bad ↦ rw bad (added d run)
        | inl ok ↦ rw ok (added d (run ∙ ap (λ c. (w.0, c)) (is_success w.1 ok)))
      ]

  pub written-WrittenBack :
      (e : E) (f : Frame) (id : FrameId)
      → f.frame_id ≡ id
      → WrittenBack e id f (written e f id).0 (written e f id).2
  unfolding written
  written-WrittenBack e f id n = by_dirty f.dirty refl
    where
      by_dirty :
          (c : Bool)
          → f.dirty ≡ c
          → let r =
              if c then flush_page_internal store id.buffer_pool_id e f else (e, f, Rc.success) in
            WrittenBack e id f r.0 r.2
      by_dirty true d = flush_page_internal-WrittenBack e f id n d
      by_dirty false d = clean d

  StaysDirty : E × Frame × Rc → Type 0
  StaysDirty r = ob_succ r.2 ≡ false → r.1.dirty ≡ true

  if-StaysDirty :
      (c : Bool) (x y : E × Frame × Rc)
      → (c ≡ true → StaysDirty x)
      → (c ≡ false → StaysDirty y)
      → StaysDirty (if c then x else y)
  if-StaysDirty true x y h k = h refl
  if-StaysDirty false x y h k = k refl

  flush_page_internal-StaysDirty :
      (e : E) (f : Frame) (pool : ℤ)
      → f.dirty ≡ true
      → StaysDirty (flush_page_internal store pool e f)
  unfolding flush_page_internal StaysDirty
  flush_page_internal-StaysDirty e f pool d =
      let summed : Page = record (f.page) { check_sum = store.crc32 f.page.content } in
      let at : FrameId = record { buffer_pool_id = pool; page_num = f.frame_id.page_num } in
      let w = store.add_page (store.flush_log e pool f.page).0 at summed in
      if-StaysDirty (ob_succ w.1) (w.0, record f { page = summed; dirty = false }, Rc.success)
        (w.0, record f { page = summed }, w.1) (λ ok bad. absurd (false≢true (sym bad)))
        (λ no bad. d)

  -- A frame that could not be written is still dirty.
  pub written-StaysDirty :
      (e : E) (f : Frame) (id : FrameId)
      → ob_succ (written e f id).2 ≡ false
      → (written e f id).1.dirty ≡ true
  unfolding written StaysDirty
  written-StaysDirty e f id =
      if-StaysDirty f.dirty (flush_page_internal store id.buffer_pool_id e f) (e, f, Rc.success)
        (λ d. flush_page_internal-StaysDirty e f id.buffer_pool_id d)
        (λ n bad. absurd (false≢true (sym bad)))

  -- The pins do not matter for what is written.
  pub pin-WrittenBack :
      (e e' : E) (id : FrameId) (f : Frame) (rc : Rc)
      → WrittenBack e id (pin f) e' rc
      → WrittenBack e id f e' rc
  unfolding pin
  pin-WrittenBack e e' id f rc (clean d) = clean d
  pin-WrittenBack e e' id f rc (added d run) = added d run
