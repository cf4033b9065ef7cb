-- ===== src/BufferPool/Limits.antt =====
-- Where the allocation goes wrong: pages whose bit lies behind the end of the header page, and a page that is
-- disposed of while it is free.
use ob_preliminary.Common.{
  ℕ, ◌+◌, ◌-◌, ◌*◌, ◌/◌, ◌<◌, ◌≤◌, ◌≡◌, refl, sym, subst, ◌∙◌, inl, inr, false, Option, none, some,
  leb, ◌==◌, if◌then◌else◌, arith, Bool-cases,
}
use ob_preliminary.Common.Int.{ℤ, pos, ltb_ℤ, ◌+ℤ◌, ◌-ℤ◌}
use ob_preliminary.Common.Rc.{Rc}
use ob_preliminary.Bitmap.{get_bit, clear_bit}
use ob_preliminary.Bitmap.Ops.{get_bit-clear_bit}
use ob_preliminary.RecordPage.{bp_page_data_size}
use ob_preliminary.RecordPage.Count.{count, count-ext}
use ob_preliminary.BufferPool.{
  bitmap_offset, max_page_num, DiskBufferPool, FrameOps, page_map, unmark_page, log_page, grow,
  extend_file, allocate_page, allocate, release, give_back, dispose_page,
}
use ob_preliminary.BufferPool.Inv.{allocated, IsPool}

sub-add : (n : ℕ) → (pos n -ℤ pos 1) +ℤ pos 1 ≡ pos n
sub-add n = ground arith

module _ {ℓ} {S : Type ℓ} (ops : FrameOps S) where
  grow_success :
      (q : DiskBufferPool S) (n : ℕ) (s : S) (rc : Rc) (o : Option ℕ) (new : ℕ)
      → o ≡ some new
      → let r = grow ops q n s rc o in
        (r.1 ≡ Rc.success)
        × (r.2 ≡ some new)
        × (r.0.file_header.page_count ≡ q.file_header.page_count + 1)
  unfolding grow
  grow_success q n s rc none new e = cc
  grow_success q n s rc (some x) new e = (refl, e, refl)

  -- MAX_PAGE_NUM leaves room for two of the three numbers in front of the map. When a file has all its pages
  -- allocated and at least as many as bits fit the header page, but fewer than MAX_PAGE_NUM, allocate_page gives out the
  -- next page with SUCCESS, and the byte of its bit lies behind the data of the header page.
  pub header_overflow :
      (p : DiskBufferPool S) (appended : Option ℤ) (new : ℕ)
      → let h = p.file_header in
        h.allocated_pages ≡ pos h.page_count
        → (bp_page_data_size - bitmap_offset) * 8 ≤ h.page_count
        → h.page_count < max_page_num
        → (ops.allocate_frame (log_page p allocate h.page_count appended).frames h.page_count).2
          ≡ some new
        → let r = allocate_page ops p appended in
          (r.1 ≡ Rc.success)
          × (r.2 ≡ some new)
          × (bp_page_data_size ≤ bitmap_offset + h.page_count / 8)
  unfolding allocate_page extend_file
  header_overflow p appended new all least most e =
      let n = p.file_header.page_count in
      let logged = log_page p allocate n appended in
      let r = ops.allocate_frame logged.frames n in
      let full : ltb_ℤ p.file_header.allocated_pages (pos n) ≡ false = rw all (ground arith) in
      let below : leb max_page_num n ≡ false = ground arith in
      let grown = grow_success logged n r.0 r.1 r.2 new e in
      rw (full, below) (grown.0, grown.1, omega arith)

  -- dispose_page does not look whether the page is allocated: for a free page of a well-formed file that is not the header
  -- and has no frame to be freed first, it succeeds, the set bits are the same, and allocated_pages is one too low.
  pub dispose_free_page :
      (p : DiskBufferPool S) (i : ℕ) (appended : Option ℤ) (frames : S)
      → IsPool p.file_header
      → 0 < i
      → i < p.file_header.page_count
      → allocated p.file_header i ≡ false
      → release ops p.frames i ≡ some frames
      → let q = give_back (record p { frames = frames }) i appended in
        (dispose_page ops p i appended ≡ some (q, Rc.success))
        × (q.file_header.allocated_pages +ℤ pos 1
            ≡ pos (count (allocated q.file_header) q.file_header.page_count))
  unfolding dispose_page give_back unmark_page get_bit
  dispose_free_page p i appended frames v above l free e =
      let h = p.file_header in
      let other : (i == 0) ≡ false = ground arith in
      let bits = λ (j : ℕ). get_bit-clear_bit (page_map h) i j v.map l in
      let same =
        count-ext (allocated h) (get_bit (clear_bit (page_map h) i)) h.page_count
          (λ j k. bits j ∙ still j) in
      (rw (other, e), rw (v.counted, same) (sub-add (count (allocated h) h.page_count)))
    where
      still :
          (j : ℕ)
          → (if j == i then false else allocated p.file_header j) ≡ allocated p.file_header j
      still j = elim (Bool-cases (j == i)) [
        | inl e ↦
            let here : j ≡ i = ground arith in
            rw e (sym (subst (λ k. allocated p.file_header k ≡ false) (sym here) free))
        | inr e ↦ rw e
      ]
