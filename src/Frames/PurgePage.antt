-- ===== src/Frames/PurgePage.antt =====
-- purge_page, and the pins it leaves.
use ob_preliminary.Common.{
  ℕ, ◌+◌, ◌≡◌, refl, ap, subst, ◌∙◌, inl, inr, true, false, Option, none, some, ◌==◌, if◌then◌else◌,
  arith, Bool-cases, Option-cases,
}
use ob_preliminary.Common.Rc.{Rc, ob_succ, is_success}
use ob_preliminary.Frames.{
  FrameId, equal_to, Frame, BpFrameManager, set_frame, pin, can_purge, get_internal, free_internal,
}
use ob_preliminary.Frames.Pool.{PageStore, flush_page_internal, purge_frame, purge_page}
use ob_preliminary.Frames.Inv.{frame_of, IsFrames, set_frame-IsFrames}
use ob_preliminary.Frames.Alloc.{HasFrame, get_hit, get_hit_frame, get_miss}
use ob_preliminary.Frames.WriteBack.{
  WrittenBack, written, written-WrittenBack, written-StaysDirty, pin-WrittenBack,
}
use ob_preliminary.Frames.Free.{
  freed, free_internal_run, freed-IsFrames, frame_of-freed, frame_of-freed_self,
}
use ob_preliminary.Frames.Loop.{Keeps, if-Keeps, flush_page_internal-Keeps}

-- Page `id` is not in memory any more; the others have their frames.
pub record Evicted (m m' : BpFrameManager) (id : FrameId) : Type 0 where
  pub valid : IsFrames m'
  pub gone : frame_of m' id ≡ none
  pub others : (j : FrameId) → equal_to id j ≡ false → frame_of m' j ≡ frame_of m j

module _ {ℓ} {E : Type ℓ} (store : PageStore E) where
  -- What purge_page comes to.
  pub data PagePurged (e : E) (m : BpFrameManager) (id : FrameId) : Type ℓ where
    absent :
        frame_of m id ≡ none → purge_page store e m id ≡ some (e, m, Rc.success) → PagePurged e m id
    busy :
        (a : ℕ) (m' : BpFrameManager)
        → can_purge (m.memory a) ≡ false
        → purge_page store e m id ≡ some (e, m', Rc.locked_unlock)
        → HasFrame m m' id a ((m.memory a).pin_count + 1)
        → PagePurged e m id
    evicted :
        (a : ℕ) (e' : E) (m' : BpFrameManager)
        → can_purge (m.memory a) ≡ true
        → purge_page store e m id ≡ some (e', m', Rc.success)
        → frame_of m id ≡ some a
        → WrittenBack store e id (m.memory a) e' Rc.success
        → Evicted m m' id
        → PagePurged e m id
    unwritten :
        (a : ℕ) (e' : E) (m' : BpFrameManager) (rc : Rc)
        → can_purge (m.memory a) ≡ true
        → ob_succ rc ≡ false
        → purge_page store e m id ≡ some (e', m', rc)
        → WrittenBack store e id (m.memory a) e' rc
        → (m'.memory a).dirty ≡ true
        → HasFrame m m' id a 1
        → PagePurged e m id

  unfoldable pub after_purge :
      E → BpFrameManager → FrameId → ℕ → E × Frame × Rc → Option (E × BpFrameManager × Rc)
  after_purge e m id a r =
      if ob_succ r.2
      then elim (free_internal (set_frame m a r.1) id a) [
        | none ↦ none
        | some freed ↦ some (r.0, freed, Rc.success)
      ]
      else some (r.0, set_frame m a r.1, r.2)

  pub purge_frame_one :
      (e : E) (m : BpFrameManager) (id : FrameId) (a : ℕ)
      → (m.memory a).pin_count ≡ 1
      → purge_frame store e m id a ≡ after_purge e m id a (written store e (m.memory a) id)
  unfolding purge_frame after_purge written
  purge_frame_one e m id a p = rw (purge_frame, p) refl

  purge_hit :
      (e : E) (m : BpFrameManager) (id : FrameId) (a : ℕ)
      → (get_internal m id).1 ≡ some a
      → purge_page store e m id ≡ purge_frame store e (get_internal m id).0 id a
  unfolding purge_page
  purge_hit e m id a h = rw (purge_page, h) refl

  purge_miss :
      (e : E) (m : BpFrameManager) (id : FrameId)
      → get_internal m id ≡ (m, none)
      → purge_page store e m id ≡ some (e, m, Rc.success)
  unfolding purge_page
  purge_miss e m id h =
      let none_there : (get_internal m id).1 ≡ none =
        ap (λ (r : BpFrameManager × Option ℕ). r.1) h in
      let same : (get_internal m id).0 ≡ m = ap (λ (r : BpFrameManager × Option ℕ). r.0) h in
      let run : purge_page store e m id ≡ some (e, (get_internal m id).0, Rc.success) =
        rw (purge_page, none_there) refl in
      run ∙ ap (λ (g : BpFrameManager). some (e, g, Rc.success)) same

  written-Keeps : (e : E) (f : Frame) (id : FrameId) → Keeps store f (written store e f id)
  unfolding written
  written-Keeps e f id =
      if-Keeps store f f.dirty (flush_page_internal store id.buffer_pool_id e f) (e, f, Rc.success)
        (flush_page_internal-Keeps store id.buffer_pool_id e f) (refl, refl)

  -- A frame that the purge alone pins is written back, and leaves the memory.
  pub written-freed :
      (e : E) (g : BpFrameManager) (id : FrameId) (a : ℕ)
      → IsFrames g
      → frame_of g id ≡ some a
      → (g.memory a).pin_count ≡ 1
      → ob_succ (written store e (g.memory a) id).2 ≡ true
      → let r = written store e (g.memory a) id in
        let m' = freed (set_frame g a r.1) id a in
        (purge_frame store e g id a ≡ some (r.0, m', Rc.success)) × Evicted g m' id
  unfolding after_purge set_frame
  written-freed e g id a v here pins t =
      let r = written store e (g.memory a) id in
      let (same, names) = written-Keeps e (g.memory a) id in
      let self : (a == a) ≡ true = ground arith in
      let m' = set_frame g a r.1 in
      let w = set_frame-IsFrames g a r.1 v (v.taken id a here) names in
      let one : (m'.memory a).pin_count ≡ 1 = rw self (same ∙ pins) in
      (
        purge_frame_one e g id a pins
            ∙ rw (after_purge, t, free_internal_run m' id a w here one) refl,
        record {
          valid = freed-IsFrames m' id a w here;
          gone = frame_of-freed_self m' id a w;
          others = λ j n. frame_of-freed m' id j a n;
        },
      )

  -- A frame is written back while the page has it, and the pin of the purge is on it alone.
  purge_one :
      (e : E) (m g : BpFrameManager) (id : FrameId) (a : ℕ)
      → can_purge (m.memory a) ≡ true
      → frame_of m id ≡ some a
      → HasFrame m g id a 1
      → g.memory a ≡ pin (m.memory a)
      → purge_page store e m id ≡ purge_frame store e g id a
      → PagePurged e m id
  unfolding after_purge set_frame
  purge_one e m g id a free l h same run =
      let r = written store e (g.memory a) id in
      let (pins, names) = written-Keeps e (g.memory a) id in
      let self : (a == a) ≡ true = ground arith in
      let back = pin-WrittenBack store e r.0 id (m.memory a) r.2 (
        subst (λ f. WrittenBack store e id f r.0 r.2) same
          (written-WrittenBack store e (g.memory a) id (h.valid.named id a h.here))) in
      elim (Bool-cases (ob_succ r.2)) [
        | inl t ↦
            let (out, done) = written-freed e g id a h.valid h.here h.pins t in
            evicted a r.0 (freed (set_frame g a r.1) id a) free (run ∙ out) l
              (subst (WrittenBack store e id (m.memory a) r.0) (is_success r.2 t) back)
              (record {
                valid = done.valid;
                gone = done.gone;
                others = λ j n. done.others j n ∙ h.others j n;
              })
        | inr n ↦
            unwritten a r.0 (set_frame g a r.1) r.2 free n
              (run ∙ purge_frame_one e g id a h.pins ∙ rw (after_purge, n) refl) back
              (rw self (written-StaysDirty store e (g.memory a) id n))
              (record {
                valid = set_frame-IsFrames g a r.1 h.valid (h.valid.taken id a h.here) names;
                here = h.here;
                others = h.others;
                pins = rw self (pins ∙ h.pins);
                rest = λ b o. rw o (h.rest b o);
              })
      ]

  -- purge_page meets no failing ASSERT between calls. A page that is not in memory needs nothing. One that is pinned
  -- stays, with RC::LOCKED_UNLOCK, and has one pin more from then on. Of one that is not pinned, the log is flushed
  -- and the page added to the double write buffer with its check sum if it is dirty, and nothing is written if it is
  -- clean. Where that succeeds the page leaves the memory, and the other pages have their frames; where the buffer
  -- refuses it its error is returned, and the page stays, dirty and with one pin.
  pub purge_page_lem : (e : E) (m : BpFrameManager) (id : FrameId) → IsFrames m → PagePurged e m id
  unfolding purge_page purge_frame
  purge_page_lem e m id v = elim (Option-cases (frame_of m id)) [
    | inl out ↦ absent out (purge_miss e m id (get_miss m id out))
    | inr (a, l) ↦
        let (same, h) = get_hit m id a v l in
        let g = (get_internal m id).0 in
        let run = purge_hit e m id a same in
        elim (Bool-cases (can_purge (m.memory a))) [
          | inl t ↦
              let none_before : (m.memory a).pin_count ≡ 0 = ground arith in
              let one : (m.memory a).pin_count + 1 ≡ 1 = ground arith in
              purge_one e m g id a t l (subst (HasFrame m g id a) one h) (get_hit_frame m id a l)
                run
          | inr f ↦
              let pins = h.pins in
              let more : ((g.memory a).pin_count == 1) ≡ false = ground arith in
              busy a g f (run ∙ rw (purge_frame, more) refl) h
        ]
  ]
