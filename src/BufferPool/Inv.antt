-- ===== src/BufferPool/Inv.antt =====
-- A well-formed header: the map fits its bytes, the count of allocated pages is that of the set bits, and page 0 is one.
use ob_preliminary.Common.{
  ℕ, ◌+◌, ◌<◌, ◌≤◌, ◌≡◌, refl, ◌∙◌, Bool, true, false, ◌==◌, if◌then◌else◌, length, length-set,
  arith,
}
use ob_preliminary.Common.Int.{pos, ◌+ℤ◌, ◌-ℤ◌}
use ob_preliminary.Bitmap.{Bitmap, bytes, get_bit, set_bit, clear_bit}
use ob_preliminary.Bitmap.Ops.{
  IsBitmap, get_bit-set_bit, get_bit-clear_bit, set_bit-IsBitmap, clear_bit-IsBitmap,
}
use ob_preliminary.RecordPage.Count.{count, count-turn_on, count-turn_off, count-grow}
use ob_preliminary.BufferPool.{BpFileHeader, page_map, mark_page, unmark_page}

-- Whether a page is allocated.
abbrev pub allocated : BpFileHeader → ℕ → Bool
allocated h i = get_bit (page_map h) i

pub record IsPool (h : BpFileHeader) : Type 0 where
  pub map : IsBitmap (page_map h)
  pub counted : h.allocated_pages ≡ pos (count (allocated h) h.page_count)
  pub some_page : 0 < h.page_count
  pub header_page : allocated h 0 ≡ true

-- Room for one more page behind the last one.
abbrev pub HasRoom : BpFileHeader → Type 0
HasRoom h = bytes (h.page_count + 1) ≤ length h.bitmap

-- `h'` is `h` with page `i` taken, and `n` pages in the file.
pub record Takes (h h' : BpFileHeader) (i n : ℕ) : Type 0 where
  pub valid : IsPool h'
  pub pages : h'.page_count ≡ n
  pub size : length h'.bitmap ≡ length h.bitmap
  pub marks : (j : ℕ) → allocated h' j ≡ (if j == i then true else allocated h j)

-- `h'` is `h` with page `i` given back.
pub record Gives (h h' : BpFileHeader) (i : ℕ) : Type 0 where
  pub valid : IsPool h'
  pub pages : h'.page_count ≡ h.page_count
  pub size : length h'.bitmap ≡ length h.bitmap
  pub marks : (j : ℕ) → allocated h' j ≡ (if j == i then false else allocated h j)

module _ (h : BpFileHeader) (v : IsPool h) where
  -- A free page of the file is taken.
  pub reuse-Takes :
      (i : ℕ)
      → i < h.page_count
      → allocated h i ≡ false
      → Takes h
          (mark_page (record h { allocated_pages = h.allocated_pages +ℤ pos 1 }) i)
          i
          h.page_count
  unfolding mark_page set_bit get_bit
  reuse-Takes i l off =
      let bits = λ (j : ℕ). get_bit-set_bit (page_map h) i j v.map l in
      record {
        valid = record {
          map = set_bit-IsBitmap (page_map h) i v.map;
          counted =
              rw (v.counted, count-turn_on (allocated h) _ i h.page_count l off bits)
                (ground arith);
          some_page = v.some_page;
          header_page = bits 0 ∙ ground (arith, v.header_page);
        };
        pages = refl;
        size = length-set h.bitmap _ _;
        marks = bits;
      }

  -- The file grows by a page, which is taken.
  pub extend-Takes :
      HasRoom h
      → Takes h
          (mark_page
            (record h {
              allocated_pages = h.allocated_pages +ℤ pos 1;
              page_count = h.page_count + 1;
            })
            h.page_count)
          h.page_count
          (h.page_count + 1)
  unfolding mark_page set_bit get_bit
  extend-Takes room =
      let n = h.page_count in
      let longer : Bitmap = record { bitmap = h.bitmap; size = n + 1 } in
      let map : IsBitmap longer = record { room = room; byte = v.map.byte } in
      let bits = λ (j : ℕ). get_bit-set_bit longer n j map (omega arith) in
      record {
        valid = record {
          map = set_bit-IsBitmap longer n map;
          counted = rw (v.counted, count-grow (allocated h) _ n bits) (ground arith);
          some_page = omega arith;
          header_page = bits 0 ∙ ground (arith, v.header_page);
        };
        pages = refl;
        size = length-set h.bitmap _ _;
        marks = bits;
      }

  -- An allocated page is given back.
  pub release-Gives :
      (i : ℕ)
      → 0 < i
      → i < h.page_count
      → allocated h i ≡ true
      → Gives h (unmark_page (record h { allocated_pages = h.allocated_pages -ℤ pos 1 }) i) i
  unfolding unmark_page clear_bit get_bit
  release-Gives i above l on =
      let bits = λ (j : ℕ). get_bit-clear_bit (page_map h) i j v.map l in
      record {
        valid = record {
          map = clear_bit-IsBitmap (page_map h) i v.map;
          counted =
              rw (v.counted, count-turn_off (allocated h) _ i h.page_count l on bits)
                (ground arith);
          some_page = v.some_page;
          header_page = bits 0 ∙ ground (arith, v.header_page);
        };
        pages = refl;
        size = length-set h.bitmap _ _;
        marks = bits;
      }
