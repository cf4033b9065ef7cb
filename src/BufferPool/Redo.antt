-- ===== src/BufferPool/Redo.antt =====
-- The replay of the pool's log entries on the header that the file had before.
use ob_preliminary.Common.{
  ℕ, ◌+◌, ◌<◌, ◌≤◌, ◌≡◌, refl, sym, ap, subst, ◌∙◌, true, false, leb, ltb, ◌==◌, if◌then◌else◌,
  length, arith,
}
use ob_preliminary.Common.Int.{ℤ, leb_ℤ, ◌<ℤ◌, ◌≤ℤ◌}
use ob_preliminary.Common.Rc.{Rc}
use ob_preliminary.Bitmap.{bytes}
use ob_preliminary.BufferPool.{
  BpFileHeader, max_page_num, DiskBufferPool, redo_allocate_page, redo_deallocate_page,
}
use ob_preliminary.BufferPool.Inv.{
  allocated, IsPool, HasRoom, Takes, Gives, reuse-Takes, extend-Takes, release-Gives,
}

-- Two headers of a file with the same pages allocated.
pub record SamePages (g h : BpFileHeader) : Type 0 where
  pub left : IsPool g
  pub right : IsPool h
  pub pages : g.page_count ≡ h.page_count
  pub size : length g.bitmap ≡ length h.bitmap
  pub marks : (j : ℕ) → allocated g j ≡ allocated h j

pub SamePages-HasRoom : (g h : BpFileHeader) → SamePages g h → HasRoom h → HasRoom g
SamePages-HasRoom g h s room =
    subst (λ n. bytes (n + 1) ≤ length g.bitmap) (sym s.pages)
      (subst (λ m. bytes (h.page_count + 1) ≤ m) (sym s.size) room)

pub Takes-SamePages :
    (g g' h h' : BpFileHeader) (i n : ℕ)
    → SamePages g h
    → Takes g g' i n
    → Takes h h' i n
    → SamePages g' h'
Takes-SamePages g g' h h' i n s t u = record {
  left = t.valid;
  right = u.valid;
  pages = t.pages ∙ sym u.pages;
  size = t.size ∙ s.size ∙ sym u.size;
  marks = λ j. t.marks j ∙ ap (λ b. if j == i then true else b) (s.marks j) ∙ sym (u.marks j);
}

pub Gives-SamePages :
    (g g' h h' : BpFileHeader) (i : ℕ)
    → SamePages g h
    → Gives g g' i
    → Gives h h' i
    → SamePages g' h'
Gives-SamePages g g' h h' i s t u = record {
  left = t.valid;
  right = u.valid;
  pages = t.pages ∙ s.pages ∙ sym u.pages;
  size = t.size ∙ s.size ∙ sym u.size;
  marks = λ j. t.marks j ∙ ap (λ b. if j == i then false else b) (s.marks j) ∙ sym (u.marks j);
}

-- What one replayed entry does, for a log number above that of the header page.
module _ {ℓ} {S : Type ℓ} (r : DiskBufferPool S) (v : IsPool r.file_header) (lsn : ℤ)
    (new : r.hdr_lsn <ℤ lsn) where
  pub redo_reuse :
      (i : ℕ)
      → i < r.file_header.page_count
      → allocated r.file_header i ≡ false
      → let q = redo_allocate_page r lsn i in
        Takes r.file_header q.0.file_header i r.file_header.page_count
        × (q.0.hdr_lsn ≤ℤ lsn)
        × (q.1 ≡ Rc.success)
  unfolding redo_allocate_page
  redo_reuse i l free =
      let later : leb_ℤ lsn r.hdr_lsn ≡ false = ground arith in
      let inside : ltb i r.file_header.page_count ≡ true = ground arith in
      rw (later, inside, free) (reuse-Takes r.file_header v i l free, omega arith, refl)

  pub redo_extend :
      r.file_header.page_count < max_page_num
      → HasRoom r.file_header
      → let n = r.file_header.page_count in
        let q = redo_allocate_page r lsn n in
        Takes r.file_header q.0.file_header n (n + 1) × (q.0.hdr_lsn ≤ℤ lsn) × (q.1 ≡ Rc.success)
  unfolding redo_allocate_page
  redo_extend l room =
      let n = r.file_header.page_count in
      let later : leb_ℤ lsn r.hdr_lsn ≡ false = ground arith in
      let outside : ltb n n ≡ false = ground arith in
      let most : leb max_page_num n ≡ false = ground arith in
      rw (later, outside, most) (extend-Takes r.file_header v room, omega arith, refl)

  pub redo_release :
      (i : ℕ)
      → 0 < i
      → i < r.file_header.page_count
      → allocated r.file_header i ≡ true
      → let q = redo_deallocate_page r lsn i in
        Gives r.file_header q.0.file_header i × (q.0.hdr_lsn ≤ℤ lsn) × (q.1 ≡ Rc.success)
  unfolding redo_deallocate_page
  redo_release i above l on =
      let later : leb_ℤ lsn r.hdr_lsn ≡ false = ground arith in
      let inside : leb r.file_header.page_count i ≡ false = ground arith in
      rw (later, inside, on) (release-Gives r.file_header v i above l on, omega arith, refl)
