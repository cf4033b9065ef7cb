-- ===== src/BufferPool/Scan.antt =====
-- The search for a free page.
use ob_preliminary.Common.{
  ℕ, zero, suc, ◌+◌, ◌<◌, ◌≡◌, sym, subst, ◌⊎◌, inl, inr, true, false, Option, some, arith,
  Bool-cases, Option-cases,
}
use ob_preliminary.Common.First.{FirstAt, FirstAt-here, FirstAt-append, FirstAt-empty}
use ob_preliminary.Common.Int.{ℤ, pos, ltb_ℤ}
use ob_preliminary.RecordPage.Count.{count, count-le, count_all}
use ob_preliminary.BufferPool.{
  BpFileHeader, DiskBufferPool, FrameOps, first_free, reuse_page, extend_file, allocate_page,
}
use ob_preliminary.BufferPool.Inv.{allocated, IsPool}

first_free-FirstAt :
    (n : ℕ) (h : BpFileHeader) (i hi : ℕ)
    → i + n ≡ hi
    → FirstAt (allocated h) false i hi (first_free n h i)
unfolding first_free
first_free-FirstAt zero h i hi e = FirstAt-empty (allocated h) false i hi (omega arith)
first_free-FirstAt (suc n) h i hi e = elim (Bool-cases (allocated h i)) [
  | inr free ↦ rw free (FirstAt-here (allocated h) false i hi (omega arith) free)
  | inl taken ↦ rw taken (
      FirstAt-append (allocated h) false i (i + 1) hi _ (omega arith)
        (λ j a b.
          let same : j ≡ i = omega arith in subst (λ k. allocated h k ≡ true) (sym same) taken)
        (first_free-FirstAt n h (i + 1) hi (omega arith)))
]

-- What allocate_page does on a well-formed header: it takes the first free page of the file; or every page is
-- taken, and the file grows.
module _ {ℓ} {S : Type ℓ} (ops : FrameOps S) (p : DiskBufferPool S) (appended : Option ℤ) where
  pub free_or_full :
      IsPool p.file_header
      → ((i : ℕ) × FirstAt (allocated p.file_header) false 0 p.file_header.page_count (some i)
          × (allocate_page ops p appended ≡ reuse_page ops p i appended))
        ⊎ (((j : ℕ) → j < p.file_header.page_count → allocated p.file_header j ≡ true)
            × (allocate_page ops p appended ≡ extend_file ops p appended))
  unfolding allocate_page
  free_or_full v = elim (Bool-cases (ltb_ℤ h.allocated_pages (pos h.page_count))) [
    | inr all ↦
        let full : count (allocated h) h.page_count ≡ h.page_count =
          ground (arith, v.counted, count-le (allocated h) h.page_count) in
        inr (λ j l. count_all (allocated h) h.page_count j full l, rw all)
    | inl less ↦ elim (Option-cases (first_free h.page_count h 0)) [
      | inl e ↦
          let f = subst (FirstAt (allocated h) false 0 h.page_count) e search in
          inr (λ j l. f j (omega arith) l, rw (less, e))
      | inr (i, e) ↦
          inl (i, subst (FirstAt (allocated h) false 0 h.page_count) e search, rw (less, e))
    ]
  ]
    where
      h : BpFileHeader
      h = p.file_header

      search : FirstAt (allocated h) false 0 h.page_count (first_free h.page_count h 0)
      search = first_free-FirstAt h.page_count h 0 h.page_count (omega arith)
