-- ===== src/Frames/Free.antt =====
-- free of the frame manager.
use ob_preliminary.Common.{
  ℕ, ◌≡◌, refl, sym, ap, subst, ◌∙◌, inl, inr, true, false, none, some, [], ◌∷◌, ◌++◌, ◌==◌,
  if◌then◌else◌, arith, Bool-cases, not_true,
}
use ob_preliminary.Common.Int.{negsuc}
use ob_preliminary.LruCache.Spec.{without, looked_up}
use ob_preliminary.LruCache.Laws.{
  lookup-looked_up, lookup-without_ne, lookup-without_self, without-IsUnique, looked_up-IsUnique,
}
use ob_preliminary.Frames.{
  FrameId, equal_to, Frame, BpFrameManager, set_frame, set_page_num, member, drop_one, unpin,
  pool_free, free_internal,
}
use ob_preliminary.Frames.Members.{
  ne_of_member, member-drop_one, drop_one_self, drop_one-Once, member_last, last-Once,
}
use ob_preliminary.Frames.Inv.{equal_to_iff, frame_of, IsFrames, not_free}

-- The frame that is freed as it stands in the pool.
freed_frame : Frame → Frame
freed_frame f = record (set_page_num f (negsuc 0)) { pin_count = 0 }

-- What free leaves.
pub freed : BpFrameManager → FrameId → ℕ → BpFrameManager
unfolding freed_frame
freed m id a = record {
  frames = without equal_to id (looked_up equal_to id m.frames);
  memory = λ b. if b == a then freed_frame (m.memory a) else m.memory b;
  frees = m.frees ++ a ∷ [];
  in_use = drop_one a m.in_use;
}

pub free_internal_run :
    (m : BpFrameManager) (id : FrameId) (a : ℕ)
    → IsFrames m
    → frame_of m id ≡ some a
    → (m.memory a).pin_count ≡ 1
    → free_internal m id a ≡ some (freed m id a)
unfolding free_internal freed unpin set_frame pool_free
free_internal_run m id a v e p =
    let self : (a == a) ≡ true = ground arith in
    rw (free_internal, e) (rw (self, p) (rw (v.taken id a e) refl))

pub frame_of-freed :
    (m : BpFrameManager) (id j : FrameId) (a : ℕ)
    → equal_to id j ≡ false
    → frame_of (freed m id a) j ≡ frame_of m j
unfolding freed
frame_of-freed m id j a n =
    lookup-without_ne equal_to equal_to_iff id j (looked_up equal_to id m.frames) n
    ∙ lookup-looked_up equal_to equal_to_iff id j m.frames

pub frame_of-freed_self :
    (m : BpFrameManager) (id : FrameId) (a : ℕ) → IsFrames m → frame_of (freed m id a) id ≡ none
unfolding freed
frame_of-freed_self m id a v =
    lookup-without_self equal_to equal_to_iff id (looked_up equal_to id m.frames)
      (looked_up-IsUnique equal_to equal_to_iff id m.frames v.unique)

-- A page that has a frame after it had the same before, and not the one that is freed.
pub still :
    (m : BpFrameManager) (id j : FrameId) (a b : ℕ)
    → IsFrames m
    → frame_of m id ≡ some a
    → frame_of (freed m id a) j ≡ some b
    → (frame_of m j ≡ some b) × ((b == a) ≡ false)
still m id j a b v e l = elim (Bool-cases (equal_to id j)) [
  | inl t ↦
      let gone : none ≡ some b =
        sym (frame_of-freed_self m id a v)
        ∙ ap (frame_of (freed m id a)) ((equal_to_iff id j).0 t)
        ∙ l in
      absurd cc
  | inr n ↦
      let known = sym (frame_of-freed m id j a n) ∙ l in
      (
        known,
        not_true λ t.
            let same : b ≡ a = ground arith in
            let names : id ≡ j =
              sym (v.named id a e)
              ∙ ap (λ c. (m.memory c).frame_id) (sym same)
              ∙ v.named j b known in
            sym n ∙ (equal_to_iff id j).1 names,
      )
]

pub freed-IsFrames :
    (m : BpFrameManager) (id : FrameId) (a : ℕ)
    → IsFrames m
    → frame_of m id ≡ some a
    → IsFrames (freed m id a)
unfolding freed freed_frame
freed-IsFrames m id a v e =
    let h = v.taken id a e in
    let out = not_free m a v h in
    record {
      unique =
          without-IsUnique equal_to equal_to_iff id (looked_up equal_to id m.frames)
            (looked_up-IsUnique equal_to equal_to_iff id m.frames v.unique);
      named = λ j b l. let (known, n) = still m id j a b v e l in rw n (v.named j b known);
      taken = λ j b l.
          let (known, n) = still m id j a b v e l in
          member-drop_one b a m.in_use n ∙ v.taken j b known;
      idle = λ b l. elim (Bool-cases (b == a)) [
        | inl t ↦ rw t refl
        | inr n ↦ elim (member_last b a m.frees l) [
          | inl free ↦ rw n (v.idle b free)
          | inr same ↦ ground arith
        ]
      ];
      apart = λ b l. elim (member_last b a m.frees l) [
        | inl free ↦
            member-drop_one b a m.in_use (ne_of_member b a m.frees out free).0 ∙ v.apart b free
        | inr same ↦
            subst (λ c. member c (drop_one a m.in_use) ≡ false) (sym same)
              (drop_one_self a m.in_use v.once_used)
      ];
      once_free = last-Once a m.frees v.once_free out;
      once_used = drop_one-Once a m.in_use v.once_used;
    }

pub freed_memory :
    (m : BpFrameManager) (id : FrameId) (a b : ℕ)
    → (b == a) ≡ false
    → (freed m id a).memory b ≡ m.memory b
unfolding freed
freed_memory m id a b n = rw n refl

pub freed_frees :
    (m : BpFrameManager) (id : FrameId) (a : ℕ) → (freed m id a).frees ≡ m.frees ++ a ∷ []
unfolding freed
freed_frees m id a = refl
