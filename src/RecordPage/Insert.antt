-- ===== src/RecordPage/Insert.antt =====
-- Insertion into a page.
use ob_preliminary.Common.{
  ℕ, ◌+◌, ◌≤◌, ◌<◌, ◌≡◌, ◌≢◌, ◌↔◌, refl, sym, ◌∙◌, inl, inr, true, false, Option, none, some, List,
  [], ◌∷◌, ◌++◌, ◌==◌, length, take, arith, Bool-cases,
}
use ob_preliminary.Common.Rc.{Rc}
use ob_preliminary.Common.First.{FirstAt}
use ob_preliminary.Bitmap.{get_bit, set_bit, next_unsetted_bit}
use ob_preliminary.Bitmap.Search.{next_unsetted_bit_first}
use ob_preliminary.RecordPage.{Page, bits, insert_record, insert_log}
use ob_preliminary.RecordPage.Count.{count-full, count_all}
use ob_preliminary.RecordPage.Slots.{slots, IsPage}
use ob_preliminary.RecordPage.Write.{
  update, wrote, slots-wrote, wrote-IsPage, on_bit, on_map-IsBitmap, on_count,
}

-- The search for a free slot in a page that is not full.
free_slot :
    (p : Page)
    → IsPage p
    → p.record_num ≢ p.record_capacity
    → (i : ℕ) × (next_unsetted_bit (bits p) 0 ≡ some i)
      × FirstAt (get_bit (bits p)) false 0 p.record_capacity (some i)
free_slot p v ne =
    go (next_unsetted_bit (bits p) 0) refl (next_unsetted_bit_first (bits p) 0 (omega arith))
  where
    go :
        (o : Option ℕ)
        → next_unsetted_bit (bits p) 0 ≡ o
        → FirstAt (get_bit (bits p)) false 0 p.record_capacity o
        → (i : ℕ) × (next_unsetted_bit (bits p) 0 ≡ some i)
          × FirstAt (get_bit (bits p)) false 0 p.record_capacity (some i)
    go none e f = absurd (
        ne (
          v.counted ∙ count-full (get_bit (bits p)) p.record_capacity (λ j l. f j (omega arith) l)))
    go (some i) e f = (i, e, f)

-- An insertion into a page that is not full succeeds, without undefined behaviour: it takes the
-- lowest free slot, after it the page holds exactly one record more, that of the slot, which reads back as
-- the first `record_real_size` bytes given; the counter and the invariant are kept.
pub insert_record_lem :
    (p : Page) (d : List ℕ)
    → IsPage p
    → p.record_real_size ≤ length d
    → p.record_num ≢ p.record_capacity
    → (i : ℕ) × (q : Page) × (insert_record p d ≡ some (Rc.success, some i, q))
      × (i < p.record_capacity)
      × (slots p i ≡ none)
      × ((j : ℕ) → j < i → slots p j ≢ none)
      × ((j : ℕ) → slots q j ≡ update (slots p) i (some (take p.record_real_size d)) j)
      × IsPage q
unfolding insert_record slots
insert_record_lem p d v enough ne =
    let (i, e, f) = free_slot p v ne in
    let num = p.record_num + 1 in
    let bitmap = (set_bit (bits p) i).bitmap in
    let q = record (wrote p i d num bitmap) { dirty = true; log = p.log ++ insert_log i d ∷ [] } in
    let not_full : (p.record_num == p.record_capacity) ≡ false = ground arith in
    let kept =
      wrote-IsPage p v i d f.1 enough num bitmap (on_map-IsBitmap p v i f.1)
        (on_count p v i f.1 f.2) in
    (
      i,
      q,
      rw (not_full, e),
      f.1,
      rw (f.2),
      λ j l. used j (f.3 j (omega arith) l),
      λ j. slots-wrote p v i d f.1 enough num bitmap j (on_bit p v i f.1 j),
      record { map = kept.map; counted = kept.counted; room = kept.room; fit = kept.fit },
    )
  where
    used : (j : ℕ) → get_bit (bits p) j ≡ true → slots p j ≢ none
    used j e = rw e (λ c. cc)

-- A full page refuses an insertion and stays as it was; by the invariant it is full exactly when every
-- slot below the capacity holds a record.
pub insert_record_full :
    (p : Page) (d : List ℕ)
    → IsPage p
    → ((p.record_num ≡ p.record_capacity) ↔ ((j : ℕ) → j < p.record_capacity → slots p j ≢ none))
      × (p.record_num ≡ p.record_capacity → insert_record p d ≡ some (Rc.record_nomem, none, p))
unfolding insert_record slots
insert_record_full p d v = (
  (all_used, all_set),
  λ e. let full : (p.record_num == p.record_capacity) ≡ true = ground arith in rw full,
)
  where
    all_used : p.record_num ≡ p.record_capacity → (j : ℕ) → j < p.record_capacity → slots p j ≢ none
    all_used e j l =
        let set = count_all (get_bit (bits p)) p.record_capacity j (sym v.counted ∙ e) l in
        rw set (λ c. cc)

    all_set :
        ((j : ℕ) → j < p.record_capacity → slots p j ≢ none) → p.record_num ≡ p.record_capacity
    all_set h =
        v.counted
        ∙ count-full (get_bit (bits p)) p.record_capacity (λ j l.
          elim (Bool-cases (get_bit (bits p) j)) [
            | inl set ↦ set
            | inr clear ↦ absurd (h j l (rw clear))
          ])
