-- ===== src/RecordPage/Write.antt =====
-- What the writes of a page do to its abstract view and its invariant.
use ob_preliminary.Common.{
  ℕ, ◌+◌, ◌-◌, ◌≤◌, ◌<◌, ◌≡◌, ◌≢◌, ap, inl, inr, true, false, Option, some, List, if◌then◌else◌,
  ◌==◌, length, take, arith, Bool-cases,
}
use ob_preliminary.Bitmap.{Bitmap, get_bit, set_bit, clear_bit}
use ob_preliminary.Bitmap.Ops.{
  IsBitmap, get_bit-set_bit, get_bit-clear_bit, set_bit-IsBitmap, clear_bit-IsBitmap,
}
use ob_preliminary.RecordPage.{Page, bits, put_record}
use ob_preliminary.RecordPage.Count.{count, count-turn_on}
use ob_preliminary.RecordPage.Slots.{slots, IsPage, read-put_self, read-put_ne, length-put_record}

-- The view after a write of one slot.
abbrev pub update : (ℕ → Option (List ℕ)) → ℕ → Option (List ℕ) → ℕ → Option (List ℕ)
update f i r j = if j == i then r else f j

-- The page that a write of a record to slot `i` leaves, with `num` records counted.
abbrev pub wrote : Page → ℕ → List ℕ → ℕ → List ℕ → Page
wrote p i d num bitmap = record p {
  header = record (p.header) { record_num = num };
  bitmap = bitmap;
  records = put_record p i d;
}

-- What every write of a record to slot `i` gives, whatever the new bitmap, as long as it has bit `i`
-- set and the others as before.
module _ (p : Page) (v : IsPage p) (i : ℕ) (d : List ℕ) (h : i < p.record_capacity)
    (enough : p.record_real_size ≤ length d) where
  pub slots-wrote :
      (num : ℕ) (bitmap : List ℕ) (j : ℕ)
      → get_bit (record { bitmap = bitmap; size = p.record_capacity }) j
        ≡ (if j == i then true else get_bit (bits p) j)
      → slots (wrote p i d num bitmap) j ≡ update (slots p) i (some (take p.record_real_size d)) j
  unfolding slots
  slots-wrote num bitmap j on = elim (Bool-cases (j == i)) [
    | inl e ↦
        let same : j ≡ i = ground arith in
        rw (on, e, same) (ap some (read-put_self p v i d h enough))
    | inr e ↦ let ne : i ≢ j = ground arith in rw (on, e, read-put_ne p v i d h enough j ne)
  ]

  pub wrote-IsPage :
      (num : ℕ) (bitmap : List ℕ)
      → IsBitmap (record { bitmap = bitmap; size = p.record_capacity })
      → num
        ≡ count (get_bit (record { bitmap = bitmap; size = p.record_capacity })) p.record_capacity
      → IsPage (wrote p i d num bitmap)
  wrote-IsPage num bitmap m c = record {
    map = m;
    counted = c;
    room = omega (arith, v.room, length-put_record p v i d h enough);
    fit = v.fit;
  }

-- The bitmap of a page after `set_bit` and after `clear_bit`.
module _ (p : Page) (v : IsPage p) (i : ℕ) (h : i < p.record_capacity) where
  abbrev pub on_map : Bitmap
  on_map = record { bitmap = (set_bit (bits p) i).bitmap; size = p.record_capacity }

  abbrev pub off_map : Bitmap
  off_map = record { bitmap = (clear_bit (bits p) i).bitmap; size = p.record_capacity }

  pub on_bit : (j : ℕ) → get_bit on_map j ≡ (if j == i then true else get_bit (bits p) j)
  unfolding set_bit
  on_bit j = get_bit-set_bit (bits p) i j v.map h

  pub off_bit : (j : ℕ) → get_bit off_map j ≡ (if j == i then false else get_bit (bits p) j)
  unfolding clear_bit
  off_bit j = get_bit-clear_bit (bits p) i j v.map h

  pub on_map-IsBitmap : IsBitmap on_map
  unfolding set_bit
  on_map-IsBitmap = set_bit-IsBitmap (bits p) i v.map

  pub off_map-IsBitmap : IsBitmap off_map
  unfolding clear_bit
  off_map-IsBitmap = clear_bit-IsBitmap (bits p) i v.map

  pub on_count :
      get_bit (bits p) i ≡ false → p.record_num + 1 ≡ count (get_bit on_map) p.record_capacity
  on_count off = omega (
    arith,
    v.counted,
    count-turn_on (get_bit (bits p)) (get_bit on_map) i p.record_capacity h off on_bit,
  )

  off_self : get_bit off_map i ≡ false
  off_self = ground (arith, off_bit i)

  pub off_count :
      get_bit (bits p) i ≡ true → p.record_num - 1 ≡ count (get_bit off_map) p.record_capacity
  off_count set = omega (
    arith,
    v.counted,
    count-turn_on (get_bit off_map) (get_bit (bits p)) i p.record_capacity h off_self
        (λ j. back j (off_bit j)),
  )
    where
      back :
          (j : ℕ)
          → get_bit off_map j ≡ (if j == i then false else get_bit (bits p) j)
          → get_bit (bits p) j ≡ (if j == i then true else get_bit off_map j)
      back j e = elim (Bool-cases (j == i)) [
        | inl t ↦ let same : j ≡ i = ground arith in rw (t, same) set
        | inr t ↦ ground arith
      ]
