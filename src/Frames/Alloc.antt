-- ===== src/Frames/Alloc.antt =====
-- get and alloc of the frame manager.
use ob_preliminary.Common.{
  ℕ, ◌+◌, ◌≡◌, ◌⊎◌, refl, sym, ap, subst, ◌∙◌, inl, inr, Bool, true, false, Option, none, some,
  List, [], ◌∷◌, ◌==◌, if◌then◌else◌, arith, Bool-cases, Option-cases,
}
use ob_preliminary.LruCache.Spec.{lookup, used, looked_up}
use ob_preliminary.LruCache.Laws.{lookup-used, lookup-looked_up, used-IsUnique, looked_up-IsUnique}
use ob_preliminary.Frames.{
  FrameId, equal_to, Frame, BpFrameManager, set_frame, member, pin, get_internal, pool_alloc,
  take_frame, alloc,
}
use ob_preliminary.Frames.Members.{ne_of_member}
use ob_preliminary.Frames.Inv.{
  equal_to_iff, Once, frame_of, IsFrames, set_frame-IsFrames, reorder-IsFrames,
}

-- Page `id` has frame `a`, pinned `n` times; the other pages have their frames, and the other frames are as before.
pub record HasFrame (m m' : BpFrameManager) (id : FrameId) (a n : ℕ) : Type 0 where
  pub valid : IsFrames m'
  pub here : frame_of m' id ≡ some a
  pub others : (j : FrameId) → equal_to id j ≡ false → frame_of m' j ≡ frame_of m j
  pub pins : (m'.memory a).pin_count ≡ n
  pub rest : (b : ℕ) → (b == a) ≡ false → m'.memory b ≡ m.memory b

-- get of a page in memory.
pub get_hit :
    (m : BpFrameManager) (id : FrameId) (a : ℕ)
    → IsFrames m
    → frame_of m id ≡ some a
    → ((get_internal m id).1 ≡ some a)
      × HasFrame m (get_internal m id).0 id a ((m.memory a).pin_count + 1)
unfolding get_internal set_frame pin
get_hit m id a v e =
    let es = looked_up equal_to id m.frames in
    let same = λ (j : FrameId). lookup-looked_up equal_to equal_to_iff id j m.frames in
    let touched =
      reorder-IsFrames m es v (looked_up-IsUnique equal_to equal_to_iff id m.frames v.unique)
        same in
    let here : (a == a) ≡ true = ground arith in
    rw (get_internal, e)
      (
        refl,
        record {
          valid =
              set_frame-IsFrames (record m { frames = es }) a (pin (m.memory a)) touched
                (v.taken id a e) refl;
          here = same id ∙ e;
          others = λ j n. same j;
          pins = rw here refl;
          rest = λ b n. rw n refl;
        },
      )

pub get_hit_frame :
    (m : BpFrameManager) (id : FrameId) (a : ℕ)
    → frame_of m id ≡ some a
    → (get_internal m id).0.memory a ≡ pin (m.memory a)
unfolding get_internal set_frame pin
get_hit_frame m id a e =
    let self : (a == a) ≡ true = ground arith in rw (get_internal, e) (rw self refl)

pub get_miss :
    (m : BpFrameManager) (id : FrameId) → frame_of m id ≡ none → get_internal m id ≡ (m, none)
unfolding get_internal
get_miss m id e = rw (get_internal, e)

rest_free :
    (b a : ℕ) (rest all : List ℕ)
    → member a rest ≡ false
    → all ≡ a ∷ rest
    → member b rest ≡ true
    → (((b == a) ≡ false) × ((a == b) ≡ false)) × (member b all ≡ true)
rest_free b a rest all n e l = let ne = ne_of_member b a rest n l in (ne, rw e (rw ne.1 l))

-- The frame of a page after page `id` was put on frame `a`.
pub used_cases :
    (id j : FrameId) (a b : ℕ) (es : List (FrameId × ℕ))
    → lookup equal_to j (used equal_to id a es) ≡ some b
    → ((equal_to id j ≡ true) × (a ≡ b))
      ⊎ ((equal_to id j ≡ false) × (lookup equal_to j es ≡ some b))
used_cases id j a b es l =
    let same = sym (lookup-used equal_to equal_to_iff id j a es) ∙ l in
    let at = λ (c : Bool) (h : equal_to id j ≡ c).
      subst (λ d. (if d then some a else lookup equal_to j es) ≡ some b) h same in
    elim (Bool-cases (equal_to id j)) [
      | inl t ↦ inl (t, (let h : some a ≡ some b = at true t in cc))
      | inr o ↦ inr (o, at false o)
    ]

-- A free frame is given to a page that has none.
pub take_free-IsFrames :
    (m : BpFrameManager) (id : FrameId) (a : ℕ) (rest : List ℕ) (g : Frame)
    → IsFrames m
    → frame_of m id ≡ none
    → m.frees ≡ a ∷ rest
    → g.frame_id ≡ id
    → let es = used equal_to id a m.frames in
      IsFrames (set_frame (record m { frames = es; frees = rest; in_use = a ∷ m.in_use }) a g)
unfolding set_frame
take_free-IsFrames m id a rest g v e f n =
    let es = used equal_to id a m.frames in
    let once : (member a rest ≡ false) × Once rest = subst Once f v.once_free in
    let self : (a == a) ≡ true = ground arith in
    let free : member a m.frees ≡ true = rw f (rw self refl) in
    let unused : member a m.in_use ≡ false = v.apart a free in
    let more = λ (b : ℕ) (l : member b rest ≡ true). rest_free b a rest m.frees once.0 f l in
    let apart = λ (b : ℕ) (h : member b m.in_use ≡ true). ne_of_member b a m.in_use unused h in
    record {
      unique = used-IsUnique equal_to equal_to_iff id a m.frames v.unique;
      named = λ j b l. elim (used_cases id j a b m.frames l) [
        | inl (t, h) ↦
            let here : (b == a) ≡ true = ground arith in rw here (n ∙ (equal_to_iff id j).0 t)
        | inr (o, known) ↦ rw (apart b (v.taken j b known)).0 (v.named j b known)
      ];
      taken = λ j b l. elim (used_cases id j a b m.frames l) [
        | inl (t, h) ↦ let here : (a == b) ≡ true = ground arith in rw here refl
        | inr (o, known) ↦ rw (apart b (v.taken j b known)).1 (v.taken j b known)
      ];
      idle = λ b l. rw (more b l).0.0 (v.idle b (more b l).1);
      apart = λ b l. rw (more b l).0.1 (v.apart b (more b l).1);
      once_free = once.1;
      once_used = (unused, v.once_used);
    }

take_free :
    (m : BpFrameManager) (id : FrameId) (a : ℕ) (rest : List ℕ)
    → IsFrames m
    → frame_of m id ≡ none
    → m.frees ≡ a ∷ rest
    → let left = record m { frees = rest; in_use = a ∷ m.in_use } in
      (m' : BpFrameManager) × (take_frame left id a ≡ some (m', some a)) × HasFrame m m' id a 1
unfolding take_frame set_frame pin
take_free m id a rest v e f =
    let es = used equal_to id a m.frames in
    let new : (a == a) ≡ true = ground arith in
    let first : member a m.frees ≡ true = rw f (rw new refl) in
    let unpinned : (m.memory a).pin_count ≡ 0 = v.idle a first in
    let same = λ (j : FrameId). lookup-used equal_to equal_to_iff id j a m.frames in
    let self : equal_to id id ≡ true = (equal_to_iff id id).1 refl in
    let m' =
      set_frame (record m { frames = es; frees = rest; in_use = a ∷ m.in_use }) a
        (pin (record (m.memory a) { frame_id = id })) in
    (
      m',
      rw (take_frame, unpinned) refl,
      record {
        valid =
            take_free-IsFrames m id a rest (pin (record (m.memory a) { frame_id = id })) v e f refl;
        here = same id ∙ rw self refl;
        others = λ j n. same j ∙ rw n refl;
        pins = rw (new, unpinned) refl;
        rest = λ b n. rw n refl;
      },
    )

-- What alloc comes to: the frame that the page has, a free one, or none when no frame is free.
pub data Alloced (m : BpFrameManager) (id : FrameId) : Type 0 where
  hit :
      (a : ℕ) (m' : BpFrameManager)
      → frame_of m id ≡ some a
      → alloc m id ≡ some (m', some a)
      → HasFrame m m' id a ((m.memory a).pin_count + 1)
      → Alloced m id
  free_one :
      (a : ℕ) (m' : BpFrameManager)
      → frame_of m id ≡ none
      → member a m.frees ≡ true
      → alloc m id ≡ some (m', some a)
      → HasFrame m m' id a 1
      → Alloced m id
  none_left : frame_of m id ≡ none → m.frees ≡ [] → alloc m id ≡ some (m, none) → Alloced m id

frees_cases : (xs : List ℕ) → (xs ≡ []) ⊎ ((x : ℕ) × (rest : List ℕ) × (xs ≡ x ∷ rest))
frees_cases [] = inl refl
frees_cases (x ∷ rest) = inr (x, rest, refl)

pool_alloc_at :
    (m : BpFrameManager) (xs : List ℕ)
    → m.frees ≡ xs
    → pool_alloc m ≡ elim xs as (λ x. BpFrameManager × Option ℕ) [
      | [] ↦ (m, none)
      | a ∷ rest ↦ (record m { frees = rest; in_use = a ∷ m.in_use }, some a)
    ]
unfolding pool_alloc
pool_alloc_at m xs e =
    ap
      (λ (ys : List ℕ). elim ys as (λ x. BpFrameManager × Option ℕ) [
        | [] ↦ (m, none)
        | a ∷ rest ↦ (record m { frees = rest; in_use = a ∷ m.in_use }, some a)
      ])
      e

after_pool : FrameId → BpFrameManager × Option ℕ → Option (BpFrameManager × Option ℕ)
after_pool id p = elim p.1 [ none ↦ some (p.0, none) | some a ↦ take_frame p.0 id a ]

after_get : FrameId → BpFrameManager × Option ℕ → Option (BpFrameManager × Option ℕ)
after_get id g = elim g.1 [ none ↦ after_pool id (pool_alloc g.0) | some a ↦ some (g.0, some a) ]

alloc-after_get :
    (m : BpFrameManager) (id : FrameId) → alloc m id ≡ after_get id (get_internal m id)
unfolding alloc after_get after_pool
alloc-after_get m id = refl

alloc_miss :
    (m : BpFrameManager) (id : FrameId)
    → frame_of m id ≡ none
    → alloc m id ≡ after_pool id (pool_alloc m)
unfolding after_get
alloc_miss m id e = alloc-after_get m id ∙ ap (after_get id) (get_miss m id e)

-- Between calls, alloc of a page meets no failing ASSERT. It gives the frame that the page has with one pin more, or else a free
-- frame with one pin, and only when the page has no frame and no frame is free it gives none and changes nothing. The
-- frame it gives is the page's from then on, the other pages keep their frames and the other frames what they hold, and what
-- holds between calls holds after it.
pub alloc_lem : (m : BpFrameManager) (id : FrameId) → IsFrames m → Alloced m id
unfolding alloc after_pool
alloc_lem m id v = elim (Option-cases (frame_of m id)) [
  | inr (a, e) ↦
      let got = get_hit m id a v e in hit a (get_internal m id).0 e (rw (alloc, got.0) refl) got.1
  | inl e ↦ elim (frees_cases m.frees) [
    | inl f ↦ none_left e f (alloc_miss m id e ∙ ap (after_pool id) (pool_alloc_at m [] f))
    | inr (a, rest, f) ↦
        let (m', t, h) = take_free m id a rest v e f in
        let self : (a == a) ≡ true = ground arith in
        free_one a m' e (rw f (rw self refl))
          (alloc_miss m id e ∙ ap (after_pool id) (pool_alloc_at m (a ∷ rest) f) ∙ t) h
  ]
]
