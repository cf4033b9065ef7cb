-- ===== src/RecordPage/Ops.antt =====
-- Deletion, update, reading and redo of the records of a page.
use ob_preliminary.Common.{
  ℕ, ◌+◌, ◌≤◌, ◌<◌, ◌≡◌, ◌≢◌, refl, sym, subst, ◌∙◌, inl, inr, true, false, none, some, List, [],
  ◌∷◌, ◌++◌, if◌then◌else◌, ◌==◌, leb, length, take, arith, Bool-cases,
}
use ob_preliminary.Common.Rc.{Rc}
use ob_preliminary.Bitmap.{get_bit, set_bit}
use ob_preliminary.RecordPage.{
  Page, bits, read_record, recover_insert_record, delete_record, update_record, get_record,
  delete_log,
}
use ob_preliminary.RecordPage.Slots.{slots, IsPage}
use ob_preliminary.RecordPage.Write.{
  update, wrote, slots-wrote, wrote-IsPage, off_map, on_bit, off_bit, on_map-IsBitmap,
  off_map-IsBitmap, on_count, off_count,
}

-- A deletion of a slot below the capacity: if the slot holds a record it becomes free, the other slots
-- keep their records, the counter and the invariant are kept and the deletion is logged; if it is free the
-- page stays as it was and the code is RECORD_NOT_EXIST.
pub delete_record_lem :
    (p : Page) (i : ℕ)
    → IsPage p
    → i < p.record_capacity
    → let (rc, q) = delete_record p i in
      (slots p i ≡ none → (rc ≡ Rc.record_not_exist) × (q ≡ p))
      × (slots p i ≢ none
          → (rc ≡ Rc.success)
            × ((j : ℕ) → slots q j ≡ update (slots p) i none j)
            × IsPage q
            × (q.log ≡ p.log ++ delete_log i ∷ []))
unfolding delete_record slots read_record
delete_record_lem p i v h = elim (Bool-cases (get_bit (bits p) i)) [
  | inr off ↦ rw off (λ _. (refl, refl), λ c. absurd (c refl))
  | inl set ↦ rw set (
    λ e. cc,
    λ _. (
      refl,
      λ j. freed j (off_bit p v i h j),
      record {
        map = off_map-IsBitmap p v i h;
        counted = off_count p v i h set;
        room = v.room;
        fit = v.fit;
      },
      refl,
    ),
  )
]
  where
    freed :
        (j : ℕ)
        → get_bit (off_map p v i h) j ≡ (if j == i then false else get_bit (bits p) j)
        → (if get_bit (off_map p v i h) j then some (read_record p j) else none)
          ≡ update (slots p) i none j
    freed j e = elim (Bool-cases (j == i)) [ inl t ↦ rw (e, t) | inr t ↦ rw (e, t) ]

same_bit :
    (p : Page) (i : ℕ)
    → get_bit (bits p) i ≡ true
    → (j : ℕ) → get_bit (bits p) j ≡ (if j == i then true else get_bit (bits p) j)
same_bit p i set j = elim (Bool-cases (j == i)) [
  | inl t ↦ let e : j ≡ i = ground arith in rw (t, e) set
  | inr t ↦ rw t
]

-- An update of a slot below the capacity with enough bytes: a used slot reads back as the new record and
-- nothing else changes; a free slot is refused with RECORD_NOT_EXIST and the page stays as it was. A slot
-- past the capacity is INVALID_ARGUMENT.
pub update_record_lem :
    (p : Page) (i : ℕ) (d : List ℕ)
    → IsPage p
    → p.record_real_size ≤ length d
    → let (rc, q) = update_record p i d in
      (p.record_capacity ≤ i → (rc ≡ Rc.invalid_argument) × (q ≡ p))
      × (i < p.record_capacity → slots p i ≡ none → (rc ≡ Rc.record_not_exist) × (q ≡ p))
      × (i < p.record_capacity
          → slots p i ≢ none
          → (rc ≡ Rc.success)
            × ((j : ℕ) → slots q j ≡ update (slots p) i (some (take p.record_real_size d)) j)
            × IsPage q
            × (q.record_num ≡ p.record_num))
unfolding update_record slots read_record
update_record_lem p i d v enough = elim (Bool-cases (leb p.record_capacity i)) [
  | inl big ↦ rw big (λ _. (refl, refl), λ h. absurd (ground arith), λ h. absurd (ground arith))
  | inr small ↦ elim (Bool-cases (get_bit (bits p) i)) [
    | inr off ↦
        rw (small, off) (λ h. absurd (ground arith), λ _ _. (refl, refl), λ _ c. absurd (c refl))
    | inl set ↦
        rw (small, set)
          (
            λ h. absurd (ground arith),
            λ _ e. cc,
            λ h _. (
              refl,
              λ j. slots-wrote p v i d h enough p.record_num p.bitmap j (same_bit p i set j),
              record {
                map = v.map;
                counted = v.counted;
                room = (wrote-IsPage p v i d h enough p.record_num p.bitmap v.map v.counted).room;
                fit = v.fit;
              },
              refl,
            ),
          )
  ]
]

-- Reading a slot: past the capacity RECORD_INVALID_RID, a free slot RECORD_NOT_EXIST, and otherwise the
-- record that the page holds there.
pub get_record_lem :
    (p : Page) (i : ℕ)
    → (p.record_capacity ≤ i → get_record p i ≡ (Rc.record_invalid_rid, none))
      × (i < p.record_capacity
          → get_record p i ≡ elim (slots p i) [
            | none ↦ (Rc.record_not_exist, none)
            | some r ↦ (Rc.success, some r)
          ])
unfolding get_record slots
get_record_lem p i = (λ h. ground arith, λ h. ground arith)

-- One redo of an insertion.
redo_once :
    (p : Page) (i : ℕ) (d : List ℕ)
    → IsPage p
    → p.record_real_size ≤ length d
    → i < p.record_capacity
    → let (rc, q) = recover_insert_record p d i in
      (rc ≡ Rc.success)
      × ((j : ℕ) → slots q j ≡ update (slots p) i (some (take p.record_real_size d)) j)
      × IsPage q
      × (get_bit (bits q) i ≡ true)
      × (get_bit (bits p) i ≡ true → q.record_num ≡ p.record_num)
      × (q.record_real_size ≡ p.record_real_size)
      × (q.record_capacity ≡ p.record_capacity)
unfolding recover_insert_record slots read_record
redo_once p i d v enough h =
    let inside : leb p.record_capacity i ≡ false = ground arith in
    elim (Bool-cases (get_bit (bits p) i)) [
      | inl set ↦
          rw (inside, set)
            (
              refl,
              λ j. slots-wrote p v i d h enough p.record_num p.bitmap j (same_bit p i set j),
              plain p.record_num p.bitmap
                  (wrote-IsPage p v i d h enough p.record_num p.bitmap v.map v.counted),
              set,
              λ _. refl,
              refl,
              refl,
            )
      | inr off ↦
          let num = p.record_num + 1 in
          let map = (set_bit (bits p) i).bitmap in
          rw (inside, off)
            (
              refl,
              λ j. slots-wrote p v i d h enough num map j (on_bit p v i h j),
              plain num map (
                  wrote-IsPage p v i d h enough num map (on_map-IsBitmap p v i h)
                    (on_count p v i h off)),
              ground (arith, on_bit p v i h i),
              λ e. cc,
              refl,
              refl,
            )
    ]
  where
    plain :
        (num : ℕ) (map : List ℕ)
        → IsPage (wrote p i d num map)
        → IsPage (record (wrote p i d num map) { dirty = true })
    plain num map k = record { map = k.map; counted = k.counted; room = k.room; fit = k.fit }

-- The redo of a logged insertion succeeds below the capacity whatever the slot held: afterwards the slot
-- holds the logged record, the others are as before, and the counter and the invariant are kept. So redoing
-- it once more changes nothing that can be read.
pub recover_insert_record_lem :
    (p : Page) (i : ℕ) (d : List ℕ)
    → IsPage p
    → p.record_real_size ≤ length d
    → i < p.record_capacity
    → let (rc, q) = recover_insert_record p d i in
      let (rc', r) = recover_insert_record q d i in
      (rc ≡ Rc.success)
      × ((j : ℕ) → slots q j ≡ update (slots p) i (some (take p.record_real_size d)) j)
      × IsPage q
      × (rc' ≡ Rc.success)
      × ((j : ℕ) → slots r j ≡ slots q j)
      × (r.record_num ≡ q.record_num)
recover_insert_record_lem p i d v enough h =
    let q = (recover_insert_record p d i).1 in
    let (rc, view, w, set, _, real, cap) = redo_once p i d v enough h in
    let (rc', view', _, _, num, _, _) = redo_once q i d w (rw real enough) (rw cap h) in
    (
      rc,
      view,
      w,
      rc',
      λ j.
          view' j ∙ again q j (subst (λ n. slots q i ≡ some (take n d)) (sym real) (view i ∙ self)),
      num set,
    )
  where
    self :
        update (slots p) i (some (take p.record_real_size d)) i ≡ some (take p.record_real_size d)
    self = ground arith

    again :
        (q : Page) (j : ℕ)
        → slots q i ≡ some (take q.record_real_size d)
        → update (slots q) i (some (take q.record_real_size d)) j ≡ slots q j
    again q j e = elim (Bool-cases (j == i)) [
      | inl t ↦ let same : j ≡ i = ground arith in rw (t, same) (sym e)
      | inr t ↦ rw t
    ]
