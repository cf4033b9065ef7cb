-- ===== src/RecordPage/Layout.antt =====
-- The regions of a fresh page: header, bitmap and records follow one another and fit the page.
use ob_preliminary.Common.{
  ℕ, zero, suc, ◌+◌, ◌-◌, ◌*◌, ◌%◌, ◌≤◌, ◌<◌, ◌≡◌, refl, inl, inr, ltb, Bool-cases, arith,
}
use native.Mathlib.Nat.{div-mul-le_self}
use ob_preliminary.RecordPage.{
  page_header_size, bp_page_data_size, align8, page_record_capacity, page_bitmap_size, fix_from,
  empty_header,
}

-- Aligning rounds up to the next multiple of eight.
align8_bounds : (n : ℕ) → (n ≤ align8 n) × (align8 n < n + 8) × (align8 n % 8 ≡ 0)
unfolding align8
align8_bounds n = omega arith

round : (rs c off last : ℕ) → last ≡ off + suc c * rs → last - rs ≡ off + c * rs
round rs c off last e = omega arith

-- With a fuel of the capacity the loop ends with the last record inside the page.
fix_from_fits :
    (fuel record_size offset capacity last : ℕ)
    → capacity ≤ fuel
    → last ≡ offset + capacity * record_size
    → offset ≤ bp_page_data_size
    → (offset + fix_from fuel record_size capacity last * record_size ≤ bp_page_data_size)
      × (fix_from fuel record_size capacity last ≤ capacity)
unfolding fix_from
fix_from_fits zero rs off zero last h e o = omega arith
fix_from_fits zero rs off (suc c) last h e o = absurd (omega arith)
fix_from_fits (suc fuel) rs off zero last h e o = ground arith
fix_from_fits (suc fuel) rs off (suc c) last h e o =
    elim (Bool-cases (ltb bp_page_data_size last)) [
      | inl big ↦
          let rest =
            fix_from_fits fuel rs off c (last - rs) (omega arith)
              (omega (arith, round rs c off last e)) o in
          let one_less : suc c - 1 ≡ c = omega arith in rw (big, one_less) (rest.0, omega arith)
      | inr small ↦ rw small (ground arith, omega arith)
    ]

capacity_bound :
    (size : ℕ) → 8 ≤ size → page_record_capacity bp_page_data_size size 0 * 65 ≤ 4193944
unfolding page_record_capacity
capacity_bound size h = grind (arith, div-mul-le_self 4193944 (size * 8 + 1))

align8_pos : (n : ℕ) → 0 < n → 8 ≤ align8 n
unfolding align8
align8_pos n h = omega arith

offset_small :
    (size : ℕ)
    → 8 ≤ size
    → align8 (page_header_size + page_bitmap_size (page_record_capacity bp_page_data_size size 0))
      ≤ bp_page_data_size
unfolding align8 page_bitmap_size
offset_small size h = omega (arith, capacity_bound size h)

page_bitmap_size_mono :
    (c capacity offset : ℕ)
    → c ≤ capacity
    → page_header_size + page_bitmap_size capacity ≤ offset
    → page_header_size + page_bitmap_size c ≤ offset
unfolding page_bitmap_size
page_bitmap_size_mono c capacity offset h k = omega arith

-- Whatever the record size, the page that `init_empty_page` lays out has its bitmap between the header
-- and the records, holds all its records inside BP_PAGE_DATA_SIZE (the code's assertion), and
-- gives each record a slot that is large enough, less than eight bytes larger, and aligned.
pub empty_header_layout :
    (n : ℕ)
    → 0 < n
    → let h = empty_header n in
      (page_header_size + page_bitmap_size h.record_capacity ≤ h.data_offset)
      × (h.data_offset + h.record_capacity * h.record_size ≤ bp_page_data_size)
      × (h.record_real_size ≤ h.record_size)
      × (h.record_size < h.record_real_size + 8)
      × (h.data_offset % 8 ≡ 0)
      × (h.record_num ≡ 0)
unfolding empty_header
empty_header_layout n h =
    let size = align8 n in
    let capacity = page_record_capacity bp_page_data_size size 0 in
    let offset = align8 (page_header_size + page_bitmap_size capacity) in
    let a = align8_bounds n in
    let b = align8_bounds (page_header_size + page_bitmap_size capacity) in
    let small = offset_small size (omega (arith, align8_pos n h)) in
    let fits =
      fix_from_fits capacity size offset capacity (offset + capacity * size) (omega arith) refl
        small in
    (page_bitmap_size_mono _ _ _ fits.1 b.0, fits.0, a.0, a.1, b.2, refl)
