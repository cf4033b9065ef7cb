-- ===== src/BufferPool/Allocate.antt =====
-- allocate_page and dispose_page on a well-formed header, on every branch.
use ob_preliminary.Common.{
  ℕ, ◌+◌, ◌<◌, ◌≤◌, ◌≡◌, ◌⊎◌, refl, sym, subst, ap, inl, inr, true, false, Option, none, some, List,
  [], ◌∷◌, ◌++◌, append-nil, leb, ◌==◌, arith, Bool-cases, Option-cases,
}
use ob_preliminary.Common.First.{FirstAt}
use ob_preliminary.Common.Int.{ℤ, pos}
use ob_preliminary.Common.Rc.{Rc}
use ob_preliminary.BufferPool.{
  max_page_num, BufferPoolOperation, BufferPoolLogEntry, DiskBufferPool, FrameOps, log_page,
  reuse_page, grow, extend_file, allocate_page, release, give_back, dispose_page, allocate,
  deallocate,
}
use ob_preliminary.BufferPool.Inv.{
  allocated, IsPool, HasRoom, Takes, Gives, reuse-Takes, extend-Takes, release-Gives,
}
use ob_preliminary.BufferPool.Scan.{free_or_full}

-- What an append adds to the log.
abbrev pub entry_of : BufferPoolOperation → ℕ → Option ℤ → List BufferPoolLogEntry
entry_of operation page_num none = []
entry_of operation page_num (some lsn) =
    record { lsn = lsn; operation = operation; page_num = page_num } ∷ []

-- The number that the header page gets.
abbrev pub lsn_of : Option ℤ → ℤ
lsn_of none = pos 0
lsn_of (some lsn) = lsn

module _ {ℓ} {S : Type ℓ} where
  abbrev pub AllTaken : DiskBufferPool S → Type 0
  AllTaken p = (j : ℕ) → j < p.file_header.page_count → allocated p.file_header j ≡ true

  -- The header and the log after a page was taken or given back.
  pub record IsLogged (p q : DiskBufferPool S) (operation : BufferPoolOperation) (page_num : ℕ)
      (appended : Option ℤ) : Type 0 where
    pub lsn : q.hdr_lsn ≡ lsn_of appended
    pub entries : q.log ≡ p.log ++ entry_of operation page_num appended
    pub dirty : q.hdr_dirty ≡ true

  -- The outcomes of allocate_page: a free page of the file, a page behind the last one, no frame for it, no room.
  pub data Allocated (ops : FrameOps S) (p : DiskBufferPool S) (appended : Option ℤ)
      (q : DiskBufferPool S) (rc : Rc) (frame : Option ℕ) : Type ℓ where
    reused :
        (i : ℕ)
        → FirstAt (allocated p.file_header) false 0 p.file_header.page_count (some i)
        → Takes p.file_header q.file_header i p.file_header.page_count
        → IsLogged p q allocate i appended
        → (q.frames, rc, frame) ≡ ops.get_this_page p.frames i
        → Allocated ops p appended q rc frame
    extended :
        (new : ℕ)
        → AllTaken p
        → p.file_header.page_count < max_page_num
        → (ops.allocate_frame p.frames p.file_header.page_count).2 ≡ some new
        → Takes p.file_header q.file_header p.file_header.page_count (p.file_header.page_count + 1)
        → IsLogged p q allocate p.file_header.page_count appended
        → rc ≡ Rc.success
        → frame ≡ some new
        → Allocated ops p appended q rc frame
    no_frame :
        AllTaken p
        → (ops.allocate_frame p.frames p.file_header.page_count).2 ≡ none
        → q.file_header ≡ p.file_header
        → frame ≡ none
        → Allocated ops p appended q rc frame
    full :
        AllTaken p
        → max_page_num ≤ p.file_header.page_count
        → q ≡ p
        → rc ≡ Rc.bufferpool_nobuf
        → frame ≡ none
        → Allocated ops p appended q rc frame

  module _ (ops : FrameOps S) (p : DiskBufferPool S) (v : IsPool p.file_header) where
    reuse-Allocated :
        (i : ℕ) (appended : Option ℤ)
        → FirstAt (allocated p.file_header) false 0 p.file_header.page_count (some i)
        → let r = reuse_page ops p i appended in Allocated ops p appended r.0 r.1 r.2
    unfolding reuse_page log_page
    reuse-Allocated i none f =
        reused i f (reuse-Takes p.file_header v i f.1 f.2)
          (record { lsn = refl; entries = sym (append-nil p.log); dirty = refl }) refl
    reuse-Allocated i (some lsn) f =
        reused i f (reuse-Takes p.file_header v i f.1 f.2)
          (record { lsn = refl; entries = refl; dirty = refl }) refl

    grown :
        (appended : Option ℤ) (frames : S) (rc : Rc) (frame : Option ℕ)
        → AllTaken p
        → HasRoom p.file_header
        → p.file_header.page_count < max_page_num
        → (ops.allocate_frame p.frames p.file_header.page_count).2 ≡ frame
        → let n = p.file_header.page_count in
          let r = grow ops (log_page p allocate n appended) n frames rc frame in
          Allocated ops p appended r.0 r.1 r.2
    unfolding grow log_page
    grown none frames rc none all room l e = no_frame all e refl refl
    grown (some lsn) frames rc none all room l e = no_frame all e refl refl
    grown none frames rc (some new) all room l e =
        extended new all l e (extend-Takes p.file_header v room)
          (record { lsn = refl; entries = sym (append-nil p.log); dirty = refl }) refl refl
    grown (some lsn) frames rc (some new) all room l e =
        extended new all l e (extend-Takes p.file_header v room)
          (record { lsn = refl; entries = refl; dirty = refl }) refl refl

    log_page-frames :
        (appended : Option ℤ) (operation : BufferPoolOperation) (n : ℕ)
        → (log_page p operation n appended).frames ≡ p.frames
    unfolding log_page
    log_page-frames none operation n = refl
    log_page-frames (some lsn) operation n = refl

    extend-Allocated :
        (appended : Option ℤ)
        → AllTaken p
        → HasRoom p.file_header
        → let r = extend_file ops p appended in Allocated ops p appended r.0 r.1 r.2
    unfolding extend_file
    extend-Allocated appended all room =
        elim (Bool-cases (leb max_page_num p.file_header.page_count)) [
          | inl most ↦ rw most (full all (ground arith) refl refl refl)
          | inr more ↦ rw more (
              grown appended _ _ _ all room (ground arith) (
                ap (λ t. (ops.allocate_frame t p.file_header.page_count).2)
                  (sym (log_page-frames appended allocate p.file_header.page_count))))
        ]

  -- On a well-formed header with room for another page, allocate_page takes the first free page of the file and
  -- gives what get_this_page gives for it; or, if all pages are taken, it takes one behind the last, unless there is no
  -- frame or the file has the largest number of pages, and then the header stays as it was. A page that is taken was
  -- free, no other page changes, the header stays well-formed, and the allocation is logged if the append succeeds.
  pub allocate_page_lem :
      (ops : FrameOps S) (p : DiskBufferPool S) (appended : Option ℤ)
      → IsPool p.file_header
      → HasRoom p.file_header
      → let r = allocate_page ops p appended in Allocated ops p appended r.0 r.1 r.2
  allocate_page_lem ops p appended v room = elim (free_or_full ops p appended v) [
    | inl (i, f, e) ↦ rw e (reuse-Allocated ops p v i appended f)
    | inr (all, e) ↦ rw e (extend-Allocated ops p v appended all room)
  ]

  -- A page leaves the frames: it has none, or its frame is freed.
  pub data Released (ops : FrameOps S) (s : S) (i : ℕ) (s' : S) : Type ℓ where
    unframed : (ops.get s i).1 ≡ none → s' ≡ (ops.get s i).0 → Released ops s i s'
    frame_freed :
        (frame : ℕ)
        → (ops.get s i).1 ≡ some frame
        → ops.free (ops.get s i).0 i frame ≡ some s'
        → Released ops s i s'

  -- The outcomes of dispose_page.
  pub data Disposed (ops : FrameOps S) (p : DiskBufferPool S) (i : ℕ) (appended : Option ℤ)
      : Option (DiskBufferPool S × Rc) → Type ℓ where
    header_page :
        {r : Option (DiskBufferPool S × Rc)}
        → i ≡ 0
        → r ≡ some (p, Rc.internal)
        → Disposed ops p i appended r
    in_use :
        {r : Option (DiskBufferPool S × Rc)}
        → 0 < i
        → (frame : ℕ) → (ops.get p.frames i).1 ≡ some frame
        → ops.free (ops.get p.frames i).0 i frame ≡ none
        → r ≡ none
        → Disposed ops p i appended r
    given_back :
        {r : Option (DiskBufferPool S × Rc)} (q : DiskBufferPool S)
        → 0 < i
        → r ≡ some (q, Rc.success)
        → Released ops p.frames i q.frames
        → Gives p.file_header q.file_header i
        → IsLogged p q deallocate i appended
        → Disposed ops p i appended r

  give_back-IsLogged :
      (p : DiskBufferPool S) (i : ℕ) (appended : Option ℤ)
      → IsLogged p (give_back p i appended) deallocate i appended
  unfolding give_back log_page
  give_back-IsLogged p i none = record {
    lsn = refl;
    entries = sym (append-nil p.log);
    dirty = refl;
  }
  give_back-IsLogged p i (some lsn) = record { lsn = refl; entries = refl; dirty = refl }

  give_back-frames :
      (p : DiskBufferPool S) (i : ℕ) (appended : Option ℤ)
      → (give_back p i appended).frames ≡ p.frames
  unfolding give_back log_page
  give_back-frames p i none = refl
  give_back-frames p i (some lsn) = refl

  give_back-Gives :
      (p : DiskBufferPool S) (i : ℕ) (appended : Option ℤ)
      → IsPool p.file_header
      → 0 < i
      → i < p.file_header.page_count
      → allocated p.file_header i ≡ true
      → Gives p.file_header (give_back p i appended).file_header i
  unfolding give_back
  give_back-Gives p i appended v above l on = release-Gives p.file_header v i above l on

  pub release-none :
      (ops : FrameOps S) (s : S) (i frame : ℕ)
      → (ops.get s i).1 ≡ some frame
      → ops.free (ops.get s i).0 i frame ≡ none
      → release ops s i ≡ none
  unfolding release
  release-none ops s i frame g f = rw (release, g, f) refl

  -- What the release of a frame comes to.
  release_cases :
      (ops : FrameOps S) (s : S) (i : ℕ)
      → ((frame : ℕ) × ((ops.get s i).1 ≡ some frame) × (ops.free (ops.get s i).0 i frame ≡ none))
        ⊎ ((s' : S) × (release ops s i ≡ some s') × Released ops s i s')
  unfolding release
  release_cases ops s i = elim (Option-cases (ops.get s i).1) [
    | inl g ↦ inr ((ops.get s i).0, rw (release, g) refl, unframed g refl)
    | inr (frame, g) ↦ elim (Option-cases (ops.free (ops.get s i).0 i frame)) [
      | inl f ↦ inl (frame, g, f)
      | inr (s', f) ↦ inr (s', rw (release, g, f) refl, frame_freed frame g f)
    ]
  ]

  -- For page 0 or an allocated page of a well-formed pool, dispose_page refuses page 0; it stops at the ASSERT if the
  -- page has a frame that cannot be freed; or its frame, if it has one, is freed and the page is free after it, no
  -- other page changes, the header stays well-formed and the deallocation is logged if the append succeeds.
  pub dispose_page_lem :
      (ops : FrameOps S) (p : DiskBufferPool S) (i : ℕ) (appended : Option ℤ)
      → IsPool p.file_header
      → i < p.file_header.page_count
      → allocated p.file_header i ≡ true
      → Disposed ops p i appended (dispose_page ops p i appended)
  unfolding dispose_page
  dispose_page_lem ops p i appended v l on = elim (Bool-cases (i == 0)) [
    | inl e ↦ rw e (header_page (ground arith) refl)
    | inr e ↦ elim (release_cases ops p.frames i) [
      | inl (frame, g, f) ↦
          let stuck = release-none ops p.frames i frame g f in
          rw (e, stuck) (in_use (ground arith) frame g f refl)
      | inr (frames, f, released) ↦
          let without : DiskBufferPool S = record p { frames = frames } in
          let logged = give_back-IsLogged without i appended in
          rw (e, f)
            (given_back (give_back without i appended) (ground arith) refl
              (subst (Released ops p.frames i) (sym (give_back-frames without i appended)) released)
              (give_back-Gives without i appended v (ground arith) l on)
              (record { lsn = logged.lsn; entries = logged.entries; dirty = logged.dirty }))
    ]
  ]
