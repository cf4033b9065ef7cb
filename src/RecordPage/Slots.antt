-- ===== src/RecordPage/Slots.antt =====
-- What a page holds: at each slot a record or nothing. The page's own invariant.
use ob_preliminary.Common.{
  ℕ, ◌+◌, ◌*◌, ◌≤◌, ◌<◌, ◌≡◌, ◌≢◌, ◌∙◌, ap, ◌⊎◌, inl, inr, Option, none, some, List, if◌then◌else◌,
  length, take, length-take, read_at, write_at, arith, sym, length-write_at,
}
use ob_preliminary.Common.Copy.{read_at-write_at, read_at-write_at_ne}
use ob_preliminary.Bitmap.{get_bit}
use ob_preliminary.Bitmap.Ops.{IsBitmap}
use ob_preliminary.RecordPage.{Page, bits, slot_at, put_record, read_record}
use ob_preliminary.RecordPage.Count.{count}

-- The abstract page: the record of each used slot.
unfoldable pub slots : Page → ℕ → Option (List ℕ)
unfolding read_record
slots p j = if get_bit (bits p) j then some (read_record p j) else none

-- The invariant of a page: the bitmap covers the capacity, the counter counts the used slots, the
-- records have room, and a record fits its slot.
pub record IsPage (p : Page) : Type 0 where
  pub map : IsBitmap (bits p)
  pub counted : p.record_num ≡ count (get_bit (bits p)) p.record_capacity
  pub room : p.record_size * p.record_capacity ≤ length p.records
  pub fit : p.record_real_size ≤ p.record_size

slot_end : (size cap i : ℕ) → i < cap → size * i + size ≤ size * cap
slot_end size cap i h = grind arith

slot_order : (size i j : ℕ) → i < j → size * i + size ≤ size * j
slot_order size i j h = grind arith

-- Slots do not overlap.
slots_apart :
    (size n i j : ℕ) → n ≤ size → i ≢ j → (size * j + n ≤ size * i) ⊎ (size * i + n ≤ size * j)
slots_apart size n i j h ne = elim (order) [
  | inl l ↦ inr (omega (arith, slot_order size i j l))
  | inr l ↦ inl (omega (arith, slot_order size j i l))
]
  where
    order : (i < j) ⊎ (j < i)
    order = omega arith

module _ (p : Page) (v : IsPage p) (i : ℕ) (data_in : List ℕ) (h : i < p.record_capacity)
    (enough : p.record_real_size ≤ length data_in) where
  taken : length (take p.record_real_size data_in) ≡ p.record_real_size
  taken = omega (arith, length-take p.record_real_size data_in)

  -- A record written to a slot is read back from it.
  pub read-put_self :
      read_at (put_record p i data_in) (slot_at p i) p.record_real_size
      ≡ take p.record_real_size data_in
  unfolding put_record
  read-put_self =
      ap
        (λ n.
          read_at (write_at p.records (slot_at p i) (take p.record_real_size data_in)) (slot_at p i)
            n)
        (sym taken)
      ∙ read_at-write_at p.records (slot_at p i) (take p.record_real_size data_in)
          (omega (arith, taken, slot_end p.record_size p.record_capacity i h, v.room, v.fit))

  -- and no other slot changes.
  pub read-put_ne :
      (j : ℕ)
      → i ≢ j
      → read_at (put_record p i data_in) (slot_at p j) p.record_real_size
        ≡ read_at p.records (slot_at p j) p.record_real_size
  unfolding put_record
  read-put_ne j ne =
      read_at-write_at_ne p.records (slot_at p i) (take p.record_real_size data_in) (slot_at p j)
        p.record_real_size (rw taken (slots_apart p.record_size p.record_real_size i j v.fit ne))

  pub length-put_record : length (put_record p i data_in) ≡ length p.records
  unfolding put_record
  length-put_record = length-write_at p.records (slot_at p i) (take p.record_real_size data_in)
