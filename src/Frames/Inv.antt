-- ===== src/Frames/Inv.antt =====
-- What holds of the frames between calls.
use ob_preliminary.Common.{
  ℕ, ◌≡◌, ◌↔◌, sym, ap₂, subst, ◌∙◌, inl, inr, true, false, false≢true, Option, some, List, [], ◌∷◌,
  ◌==◌, arith, Bool-cases, not_true,
}
use ob_preliminary.Common.Int.{ℤ, eqb_ℤ→eq, eqb_ℤ-refl}
use ob_preliminary.LruCache.Spec.{lookup}
use ob_preliminary.LruCache.Laws.{IsUnique}
use ob_preliminary.Frames.{FrameId, equal_to, Frame, BpFrameManager, set_frame, member}

pub equal_to_iff : (a b : FrameId) → (equal_to a b ≡ true) ↔ (a ≡ b)
unfolding equal_to
equal_to_iff a b = (there, back)
  where
    there : equal_to a b ≡ true → a ≡ b
    there h =
        let pool : a.buffer_pool_id ≡ b.buffer_pool_id =
          eqb_ℤ→eq a.buffer_pool_id b.buffer_pool_id (ground arith) in
        let page : a.page_num ≡ b.page_num = eqb_ℤ→eq a.page_num b.page_num (ground arith) in
        ap₂ (λ (x y : ℤ). let f : FrameId = record { buffer_pool_id = x; page_num = y } in f) pool
          page

    back : a ≡ b → equal_to a b ≡ true
    back e =
        subst (λ c. equal_to a c ≡ true) e (rw (eqb_ℤ-refl a.buffer_pool_id, eqb_ℤ-refl a.page_num))

abbrev pub Once : List ℕ → Type 0
Once [] = Unit {0}
Once (x ∷ xs) = (member x xs ≡ false) × Once xs

-- The frame that a page has.
abbrev pub frame_of : BpFrameManager → FrameId → Option ℕ
frame_of m id = lookup equal_to id m.frames

pub record IsFrames (m : BpFrameManager) : Type 0 where
  pub unique : IsUnique equal_to m.frames
  pub named : (id : FrameId) (a : ℕ) → frame_of m id ≡ some a → (m.memory a).frame_id ≡ id
  pub taken : (id : FrameId) (a : ℕ) → frame_of m id ≡ some a → member a m.in_use ≡ true
  pub idle : (a : ℕ) → member a m.frees ≡ true → (m.memory a).pin_count ≡ 0
  pub apart : (a : ℕ) → member a m.frees ≡ true → member a m.in_use ≡ false
  pub once_free : Once m.frees
  pub once_used : Once m.in_use

-- A frame in use is no free one.
pub not_free :
    (m : BpFrameManager) (a : ℕ) → IsFrames m → member a m.in_use ≡ true → member a m.frees ≡ false
not_free m a v h = not_true (λ f. sym (v.apart a f) ∙ h)

-- A frame is changed in use, and its name stays.
pub set_frame-IsFrames :
    (m : BpFrameManager) (a : ℕ) (f : Frame)
    → IsFrames m
    → member a m.in_use ≡ true
    → f.frame_id ≡ (m.memory a).frame_id
    → IsFrames (set_frame m a f)
unfolding set_frame
set_frame-IsFrames m a f v h e = record {
  unique = v.unique;
  named = λ id b l. elim (Bool-cases (b == a)) [
    | inl t ↦
        let same : b ≡ a = ground arith in
        rw t (e ∙ subst (λ c. (m.memory c).frame_id ≡ id) same (v.named id b l))
    | inr n ↦ rw n (v.named id b l)
  ];
  taken = v.taken;
  idle = λ b l. elim (Bool-cases (b == a)) [
    | inl t ↦
        let same : b ≡ a = ground arith in
        absurd (false≢true (sym (not_free m a v h) ∙ subst (λ c. member c m.frees ≡ true) same l))
    | inr n ↦ rw n (v.idle b l)
  ];
  apart = v.apart;
  once_free = v.once_free;
  once_used = v.once_used;
}

-- The order of use changes, and no page its frame.
pub reorder-IsFrames :
    (m : BpFrameManager) (es : List (FrameId × ℕ))
    → IsFrames m
    → IsUnique equal_to es
    → ((id : FrameId) → lookup equal_to id es ≡ frame_of m id)
    → IsFrames (record m { frames = es })
reorder-IsFrames m es v u same = record {
  unique = u;
  named = λ id a l. v.named id a (sym (same id) ∙ l);
  taken = λ id a l. v.taken id a (sym (same id) ∙ l);
  idle = v.idle;
  apart = v.apart;
  once_free = v.once_free;
  once_used = v.once_used;
}
