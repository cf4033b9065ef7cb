-- ===== src/Dblwr/Added.antt =====
-- Adding a page to the double write buffer.
use ob_preliminary.Common.{
  ℕ, ◌+◌, ◌≡◌, refl, sym, ap, ap₂, subst, ◌∙◌, inl, inr, Bool, true, false, false≢true, none, some,
  List, [], ◌∷◌, ◌++◌, leb, ltb, length, if◌then◌else◌, arith, Bool-cases, Option-cases,
}
use ob_preliminary.Common.Int.{ℤ}
use ob_preliminary.Common.Lists.{length-append}
use ob_preliminary.Common.Rc.{Rc, ob_succ, is_success}
use ob_preliminary.Frames.{Page}
use ob_preliminary.Dblwr.{
  DoubleWritePageKey, same_key, DoubleWritePage, Entry, DiskDoubleWriteBuffer, DblwrFiles,
  find_page, store_page, read_page, flush_page, after_write, add_page,
}
use ob_preliminary.Dblwr.Flushes.{Flushes, HeaderWritten, header-HeaderWritten, flush_each_run}
use ob_preliminary.Dblwr.Slots.{
  Slots, store_page-Slots, last-Slots, find_page-Slots, page_of, find_page-last,
  find_page-store_page, read_back, same_key_iff,
}

-- The page is in the buffer with its content and the other pages are as before; the pages have the first slots of the file, each
-- one of its own, in the order in which they came.
pub record Kept (b b' : DiskDoubleWriteBuffer) (key : DoubleWritePageKey) (page : Page)
    : Type 0 where
  pub slots : Slots 0 b'.dblwr_pages
  pub contents :
      (k : DoubleWritePageKey)
      → page_of k b'.dblwr_pages ≡ (if same_key key k then some page else page_of k b.dblwr_pages)
  pub reads : read_page b' key ≡ some (Rc.success, some page)

Slots-Kept :
    (b b' : DiskDoubleWriteBuffer) (key : DoubleWritePageKey) (page : Page)
    → Slots 0 b'.dblwr_pages
    → ((k : DoubleWritePageKey)
        → page_of k b'.dblwr_pages
          ≡ (if same_key key k then some page else page_of k b.dblwr_pages))
    → Kept b b' key page
Slots-Kept b b' key page s c =
    let self : same_key key key ≡ true = (same_key_iff key key).1 refl in
    record { slots = s; contents = c; reads = read_back b' key page s (c key ∙ rw self refl) }

module _ {ℓ} {E : Type ℓ} (files : DblwrFiles E)
    (opened : (e : E) (pool : ℤ) → files.pool_is_open e pool ≡ true) where
  -- The entry that a new page gets: in the slot behind those of the pages in the buffer.
  abbrev pub new_entry : DiskDoubleWriteBuffer → DoubleWritePageKey → Page → Entry
  new_entry b key page =
      let p : DoubleWritePage = record {
        key = key;
        page_index = length b.dblwr_pages;
        valid = true;
        page = page;
      } in
      record { dblwr_page = p; deleted = false }

  -- What add_page comes to. `e1` is what the write of the page's slot leaves, `e2` what the header's leaves.
  pub data PageAdded (e : E) (b : DiskDoubleWriteBuffer) (key : DoubleWritePageKey) (page : Page)
      : Type ℓ where
    replaced :
        (x : Entry) (e1 : E) (b' : DiskDoubleWriteBuffer) (rc : Rc)
        → find_page key b.dblwr_pages ≡ some x
        → files.write_slot e x.dblwr_page.page_index (record (x.dblwr_page) { page = page })
          ≡ (e1, rc)
        → add_page files e b key page ≡ some (e1, b', rc)
        → Kept b b' key page
        → PageAdded e b key page
    slot_failed :
        (e1 : E) (b' : DiskDoubleWriteBuffer) (rc : Rc)
        → find_page key b.dblwr_pages ≡ none
        → files.write_slot e (length b.dblwr_pages) (new_entry b key page).dblwr_page ≡ (e1, rc)
        → ob_succ rc ≡ false
        → add_page files e b key page ≡ some (e1, b', rc)
        → Kept b b' key page
        → PageAdded e b key page
    header_failed :
        (e1 e2 : E) (b' : DiskDoubleWriteBuffer) (rc : Rc)
        → find_page key b.dblwr_pages ≡ none
        → files.write_slot e (length b.dblwr_pages) (new_entry b key page).dblwr_page
          ≡ (e1, Rc.success)
        → HeaderWritten files e1 b.page_cnt (length b.dblwr_pages) e2 rc
        → ob_succ rc ≡ false
        → add_page files e b key page ≡ some (e2, b', rc)
        → Kept b b' key page
        → PageAdded e b key page
    kept :
        (e1 e2 : E) (b' : DiskDoubleWriteBuffer)
        → find_page key b.dblwr_pages ≡ none
        → files.write_slot e (length b.dblwr_pages) (new_entry b key page).dblwr_page
          ≡ (e1, Rc.success)
        → HeaderWritten files e1 b.page_cnt (length b.dblwr_pages) e2 Rc.success
        → leb b.max_pages (length b.dblwr_pages + 1) ≡ false
        → add_page files e b key page ≡ some (e2, b', Rc.success)
        → Kept b b' key page
        → PageAdded e b key page
    flushed :
        (e1 e2 e' : E) (b' : DiskDoubleWriteBuffer)
        → find_page key b.dblwr_pages ≡ none
        → files.write_slot e (length b.dblwr_pages) (new_entry b key page).dblwr_page
          ≡ (e1, Rc.success)
        → HeaderWritten files e1 b.page_cnt (length b.dblwr_pages) e2 Rc.success
        → leb b.max_pages (length b.dblwr_pages + 1) ≡ true
        → Flushes files (files.sync e2) (b.dblwr_pages ++ new_entry b key page ∷ []) e' Rc.success
        → add_page files e b key page ≡ some (e', b', Rc.success)
        → b'.dblwr_pages ≡ []
        → b'.page_cnt ≡ 0
        → PageAdded e b key page
    unflushed :
        (e1 e2 e' : E) (b' : DiskDoubleWriteBuffer) (rc : Rc)
        → find_page key b.dblwr_pages ≡ none
        → files.write_slot e (length b.dblwr_pages) (new_entry b key page).dblwr_page
          ≡ (e1, Rc.success)
        → HeaderWritten files e1 b.page_cnt (length b.dblwr_pages) e2 Rc.success
        → leb b.max_pages (length b.dblwr_pages + 1) ≡ true
        → Flushes files (files.sync e2) (b.dblwr_pages ++ new_entry b key page ∷ []) e' rc
        → ob_succ rc ≡ false
        → add_page files e b key page ≡ some (e', b', rc)
        → PageAdded e b key page

  -- The end of add_page for a buffer that holds the new page, with `n` pages before it.
  data Ends (e : E) (b : DiskDoubleWriteBuffer) (n : ℕ) : Type ℓ where
    bad_header :
        (e2 : E) (b' : DiskDoubleWriteBuffer) (rc : Rc)
        → HeaderWritten files e b.page_cnt n e2 rc
        → ob_succ rc ≡ false
        → after_write files e b n ≡ some (e2, b', rc)
        → b'.dblwr_pages ≡ b.dblwr_pages
        → Ends e b n
    has_room :
        (e2 : E) (b' : DiskDoubleWriteBuffer)
        → HeaderWritten files e b.page_cnt n e2 Rc.success
        → leb b.max_pages (length b.dblwr_pages) ≡ false
        → after_write files e b n ≡ some (e2, b', Rc.success)
        → b'.dblwr_pages ≡ b.dblwr_pages
        → Ends e b n
    is_full :
        (e2 e' : E) (b' : DiskDoubleWriteBuffer) (rc : Rc)
        → HeaderWritten files e b.page_cnt n e2 Rc.success
        → leb b.max_pages (length b.dblwr_pages) ≡ true
        → Flushes files (files.sync e2) b.dblwr_pages e' rc
        → after_write files e b n ≡ some (e', b', rc)
        → (ob_succ rc ≡ true → (b'.dblwr_pages ≡ []) × (b'.page_cnt ≡ 0))
        → Ends e b n

  flush_page_run :
      (e : E) (b : DiskDoubleWriteBuffer)
      → Slots 0 b.dblwr_pages
      → (r : E × DiskDoubleWriteBuffer × Rc) × (flush_page files e b ≡ some r)
        × Flushes files (files.sync e) b.dblwr_pages r.0 r.2
        × (ob_succ r.2 ≡ true → (r.1.dblwr_pages ≡ []) × (r.1.page_cnt ≡ 0))
  unfolding flush_page
  flush_page_run e b s =
      let ((e', rc, left), run, how) =
        flush_each_run files opened 0 (files.sync e) b.dblwr_pages s in
      elim (Bool-cases (ob_succ rc)) [
        | inl t ↦ (
          (e', record b { page_cnt = 0; dblwr_pages = [] }, Rc.success),
          rw (flush_page, run, t) refl,
          subst (Flushes files (files.sync e) b.dblwr_pages e') (is_success rc t) how,
          λ u. (refl, refl),
        )
        | inr f ↦ (
          (e', record b { dblwr_pages = left }, rc),
          rw (flush_page, run, f) refl,
          how,
          λ u. absurd (false≢true (sym f ∙ u)),
        )
      ]

  -- What follows the write of a new page.
  after_write_run : (e : E) (b : DiskDoubleWriteBuffer) (n : ℕ) → Slots 0 b.dblwr_pages → Ends e b n
  unfolding after_write
  after_write_run e b n s =
      let grows = ltb b.page_cnt (n + 1) in
      let b' = if grows then record b { page_cnt = n + 1 } else b in
      let h = if grows then files.write_header e (n + 1) else (e, Rc.success) in
      let header = header-HeaderWritten files e b.page_cnt n grows refl in
      let (same, most) = grown b n grows in
      elim (Bool-cases (ob_succ h.1)) [
        | inr f ↦ bad_header h.0 b' h.1 header f (rw (after_write, f) refl) same
        | inl t ↦
            let written =
              subst (HeaderWritten files e b.page_cnt n h.0) (is_success h.1 t) header in
            let size : leb b'.max_pages (length b'.dblwr_pages)
                ≡ leb b.max_pages (length b.dblwr_pages) =
              ap₂ (λ (m : ℕ) (ys : List Entry). leb m (length ys)) most same in
            elim (Bool-cases (leb b'.max_pages (length b'.dblwr_pages))) [
              | inl full ↦
                  let (r, run, how, empty) = flush_page_run h.0 b' (subst (Slots 0) (sym same) s) in
                  is_full h.0 r.0 r.1 r.2 written (sym size ∙ full)
                    (subst (λ ys. Flushes files (files.sync h.0) ys r.0 r.2) same how)
                    (rw (after_write, t, full) run) empty
              | inr room ↦
                  has_room h.0 b' written (sym size ∙ room) (rw (after_write, t, room) refl) same
            ]
      ]
    where
      grown :
          (b : DiskDoubleWriteBuffer) (n : ℕ) (c : Bool)
          → ((if c then record b { page_cnt = n + 1 } else b).dblwr_pages ≡ b.dblwr_pages)
            × ((if c then record b { page_cnt = n + 1 } else b).max_pages ≡ b.max_pages)
      grown b n true = (refl, refl)
      grown b n false = (refl, refl)

  new_page :
      (e : E) (b : DiskDoubleWriteBuffer) (key : DoubleWritePageKey) (page : Page)
      → Slots 0 b.dblwr_pages
      → find_page key b.dblwr_pages ≡ none
      → PageAdded e b key page
  unfolding add_page
  new_page e b key page s out =
      let n = length b.dblwr_pages in
      let x = new_entry b key page in
      let b1 = record b { dblwr_pages = b.dblwr_pages ++ x ∷ [] } in
      let w = files.write_slot e n x.dblwr_page in
      let slots = last-Slots 0 x b.dblwr_pages s (ground arith) refl in
      let contents = λ (k : DoubleWritePageKey). find_page-last key k x b.dblwr_pages refl out in
      let keeps = λ (b2 : DiskDoubleWriteBuffer) (same : b2.dblwr_pages ≡ b1.dblwr_pages).
        Slots-Kept b b2 key page (subst (Slots 0) (sym same) slots)
          (λ k. ap (page_of k) same ∙ contents k) in
      let count : length b1.dblwr_pages ≡ n + 1 = length-append b.dblwr_pages (x ∷ []) in
      elim (Bool-cases (ob_succ w.1)) [
        | inr f ↦ slot_failed w.0 b1 w.1 out refl f (rw (add_page, out, f) refl) (keeps b1 refl)
        | inl t ↦
            let slot : w ≡ (w.0, Rc.success) = ap (λ c. (w.0, c)) (is_success w.1 t) in
            let whole : add_page files e b key page ≡ after_write files w.0 b1 n =
              rw (add_page, out, t) refl in
            elim (after_write_run w.0 b1 n slots) [
              | bad_header e2 b2 rc h bad run same ↦
                  header_failed w.0 e2 b2 rc out slot h bad (whole ∙ run) (keeps b2 same)
              | has_room e2 b2 h room run same ↦
                  kept w.0 e2 b2 out slot h (ap (leb b.max_pages) (sym count) ∙ room) (whole ∙ run)
                    (keeps b2 same)
              | is_full e2 e' b2 rc h full how run empty ↦
                  let at = ap (leb b.max_pages) (sym count) ∙ full in
                  elim (Bool-cases (ob_succ rc)) [
                    | inr bad ↦ unflushed w.0 e2 e' b2 rc out slot h at how bad (whole ∙ run)
                    | inl ok ↦
                        let code = is_success rc ok in
                        flushed w.0 e2 e' b2 out slot h at
                          (subst (Flushes files (files.sync e2) b1.dblwr_pages e') code how)
                          (whole ∙ run ∙ ap (λ (c : Rc). some (e', b2, c)) code) (empty ok).0
                          (empty ok).1
                  ]
            ]
      ]

  -- Where every pool is open and the pages are in slots, add_page meets no failing ASSERT and no deleted page. The
  -- page is written to its slot: the one it has, or the one behind the others, which the header then counts. Then
  -- either the page is in the buffer with its content, the other pages have theirs, read_page gives it, and each page
  -- has a slot of the file of its own, in their order; the code is SUCCESS or that of the failed write of the slot or
  -- of the header. Or the buffer is full, and all its pages are written to their pools one after the other: if every
  -- pool takes its page the buffer is empty and the code is SUCCESS, and else the code is that of the first page
  -- refused.
  pub add_page_lem :
      (e : E) (b : DiskDoubleWriteBuffer) (key : DoubleWritePageKey) (page : Page)
      → Slots 0 b.dblwr_pages
      → PageAdded e b key page
  unfolding add_page
  add_page_lem e b key page s = elim (Option-cases (find_page key b.dblwr_pages)) [
    | inr (x, found) ↦
        let live = find_page-Slots 0 key x b.dblwr_pages s found in
        let p : DoubleWritePage = record (x.dblwr_page) { page = page } in
        let w = files.write_slot e x.dblwr_page.page_index p in
        replaced x w.0 (record b { dblwr_pages = store_page key page b.dblwr_pages }) w.1 found refl
          (rw (add_page, found, live) refl)
          (Slots-Kept b (record b { dblwr_pages = store_page key page b.dblwr_pages }) key page
            (store_page-Slots 0 key page b.dblwr_pages s)
            (λ k. find_page-store_page key k page x b.dblwr_pages found))
    | inl out ↦ new_page e b key page s out
  ]
