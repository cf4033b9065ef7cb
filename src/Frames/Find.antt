-- ===== src/Frames/Find.antt =====
-- Which frames the purge finds.
use ob_preliminary.Common.{
  ℕ, zero, suc, ◌≡◌, refl, sym, ap, subst, ◌∙◌, inl, inr, true, false, false≢true, none, some, List,
  [], ◌∷◌, ◌==◌, leb, length, arith, Bool-cases, not_true,
}
use mathlib.Core.List.{reverse, reverse_aux}
use ob_preliminary.LruCache.Spec.{lookup}
use ob_preliminary.LruCache.Laws.{IsUnique}
use ob_preliminary.Frames.{
  FrameId, equal_to, Frame, BpFrameManager, set_frame, member, pin, find_purgeable,
}
use ob_preliminary.Frames.Inv.{equal_to_iff, Once, frame_of, IsFrames, set_frame-IsFrames}

-- Each entry of a list is what its page's lookup gives.
abbrev pub Known : BpFrameManager → List (FrameId × ℕ) → Type 0
Known m [] = Unit {0}
Known m ((id, a) ∷ es) = (frame_of m id ≡ some a) × Known m es

-- Frames that are about to be purged: each is its page's, and pinned by the purge alone.
pub record IsReady (m : BpFrameManager) (xs : List ℕ) : Type 0 where
  pub valid : IsFrames m
  pub distinct : Once xs
  pub own :
      (a : ℕ)
      → member a xs ≡ true
      → ((m.memory a).pin_count ≡ 1) × (frame_of m (m.memory a).frame_id ≡ some a)

pub record Found (n : ℕ) (m m' : BpFrameManager) (xs : List ℕ) : Type 0 where
  pub ready : IsReady m' xs
  pub entries : m'.frames ≡ m.frames
  pub pool : m'.frees ≡ m.frees
  pub unpinned : (a : ℕ) → member a xs ≡ true → (m.memory a).pin_count ≡ 0
  pub rest : (b : ℕ) → member b xs ≡ false → m'.memory b ≡ m.memory b
  pub few : leb (length xs) n ≡ true

find_nothing : (n : ℕ) (m : BpFrameManager) → IsFrames m → Found n m m []
find_nothing n m v = record {
  ready = record { valid = v; distinct = tt; own = λ a l. absurd (false≢true l) };
  entries = refl;
  pool = refl;
  unpinned = λ a l. absurd (false≢true l);
  rest = λ b n. refl;
  few = ground arith;
}

-- One frame more is found.
find_more :
    (n : ℕ) (m m' : BpFrameManager) (id : FrameId) (a : ℕ) (xs : List ℕ)
    → frame_of m id ≡ some a
    → (m.memory a).frame_id ≡ id
    → (m.memory a).pin_count ≡ 0
    → Found n (set_frame m a (pin (m.memory a))) m' xs
    → Found (suc n) m m' (a ∷ xs)
unfolding set_frame pin
find_more n m m' id a xs e names idle f =
    let self : (a == a) ≡ true = ground arith in
    let m1 = set_frame m a (pin (m.memory a)) in
    let one : (m1.memory a).pin_count ≡ 1 = rw (self, idle) refl in
    let new : member a xs ≡ false = not_true λ l. let zero_too = f.unpinned a l in ground arith in
    let kept : m'.memory a ≡ pin (m.memory a) = f.rest a new ∙ rw self refl in
    let apart : (b : ℕ) → (a == b) ≡ false → m1.memory b ≡ m.memory b =
      λ b o. let other : (b == a) ≡ false = ground arith in rw other refl in
    record {
      ready = record {
        valid = f.ready.valid;
        distinct = (new, f.ready.distinct);
        own = λ b l. elim (Bool-cases (a == b)) [
          | inl t ↦
              let same : a ≡ b = ground arith in
              subst
                (λ c. ((m'.memory c).pin_count ≡ 1) × (frame_of m' (m'.memory c).frame_id ≡ some c))
                same
                (
                  ap (λ (g : Frame). g.pin_count) kept ∙ rw idle refl,
                  ap (λ (es : List (FrameId × ℕ)). lookup equal_to (m'.memory a).frame_id es)
                        f.entries
                      ∙ ap (frame_of m) (ap (λ (g : Frame). g.frame_id) kept ∙ names)
                      ∙ e,
                )
          | inr o ↦ f.ready.own b (sym (rw o refl) ∙ l)
        ];
      };
      entries = f.entries;
      pool = f.pool;
      unpinned = λ b l. elim (Bool-cases (a == b)) [
        | inl t ↦
            let same : a ≡ b = ground arith in subst (λ c. (m.memory c).pin_count ≡ 0) same idle
        | inr o ↦
            ap (λ (g : Frame). g.pin_count) (sym (apart b o)) ∙ f.unpinned b (sym (rw o refl) ∙ l)
      ];
      rest = λ b l. elim (Bool-cases (a == b)) [
        | inl t ↦ absurd (false≢true (sym l ∙ rw t refl))
        | inr o ↦ f.rest b (sym (rw o refl) ∙ l) ∙ apart b o
      ];
      few = let h = f.few in ground arith;
    }

pub find_purgeable_lem :
    (n : ℕ) (es : List (FrameId × ℕ)) (m : BpFrameManager)
    → IsFrames m
    → Known m es
    → Found n m (find_purgeable n es m).0 (find_purgeable n es m).1
unfolding find_purgeable set_frame pin
find_purgeable_lem zero es m v k = find_nothing 0 m v
find_purgeable_lem (suc n) [] m v k = find_nothing (suc n) m v
find_purgeable_lem (suc n) ((id, a) ∷ es) m v k = elim (Bool-cases ((m.memory a).pin_count == 0)) [
  | inl t ↦
      let m1 = set_frame m a (pin (m.memory a)) in
      let w = set_frame-IsFrames m a (pin (m.memory a)) v (v.taken id a k.0) refl in
      let more = find_purgeable_lem n es m1 w k.1 in
      rw (find_purgeable, t)
        (find_more n m (find_purgeable n es m1).0 id a (find_purgeable n es m1).1 k.0
          (v.named id a k.0) (ground arith) more)
  | inr f ↦ rw (find_purgeable, f) (find_purgeable_lem (suc n) es m v k.1)
]

-- Where the lookups give `some a` for each entry, they still do when a page without an entry gets one.
KnownIn : List (FrameId × ℕ) → List (FrameId × ℕ) → Type 0
KnownIn all [] = Unit {0}
KnownIn all ((id, a) ∷ es) = (lookup equal_to id all ≡ some a) × KnownIn all es

cons-KnownIn :
    (all es : List (FrameId × ℕ)) (j : FrameId) (b : ℕ)
    → lookup equal_to j all ≡ none
    → KnownIn all es
    → KnownIn ((j, b) ∷ all) es
unfolding KnownIn lookup
cons-KnownIn all [] j b n k = tt
cons-KnownIn all ((id, a) ∷ es) j b n k =
    let other : equal_to j id ≡ false = not_true λ t.
      let gone : none ≡ some a =
        sym n ∙ ap (λ i. lookup equal_to i all) ((equal_to_iff j id).0 t) ∙ k.0 in
      absurd cc in
    (rw other k.0, cons-KnownIn all es j b n k.1)

IsUnique-KnownIn : (es : List (FrameId × ℕ)) → IsUnique equal_to es → KnownIn es es
unfolding KnownIn lookup
IsUnique-KnownIn [] u = tt
IsUnique-KnownIn ((j, b) ∷ es) u =
    let self : equal_to j j ≡ true = (equal_to_iff j j).1 refl in
    (rw self refl, cons-KnownIn es es j b u.0 (IsUnique-KnownIn es u.1))

reverse_aux-Known :
    (m : BpFrameManager) (es acc : List (FrameId × ℕ))
    → KnownIn m.frames es
    → Known m acc
    → Known m (reverse_aux es acc)
unfolding KnownIn
reverse_aux-Known m [] acc k h = h
reverse_aux-Known m ((id, a) ∷ es) acc k h = reverse_aux-Known m es ((id, a) ∷ acc) k.1 (k.0, h)

-- The entries, from the last one on, are what the lookups give.
pub reverse-Known : (m : BpFrameManager) → IsFrames m → Known m (reverse m.frames)
reverse-Known m v = reverse_aux-Known m m.frames [] (IsUnique-KnownIn m.frames v.unique) tt
