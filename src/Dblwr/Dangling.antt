-- ===== src/Dblwr/Dangling.antt =====
-- A flush of the double write buffer that fails.
use ob_preliminary.Common.{
  ◌≡◌, refl, sym, ap, subst, ◌∙◌, inl, inr, true, false, false≢true, Option, none, some, List, [],
  ◌∷◌, if◌then◌else◌, Bool-cases, Option-cases,
}
use ob_preliminary.Common.Rc.{Rc, ob_succ}
use ob_preliminary.Dblwr.{
  DoubleWritePage, Entry, DiskDoubleWriteBuffer, DblwrFiles, write_page, write_page_internal,
  flush_each, flush_page,
}

module _ {ℓ} {E : Type ℓ} (files : DblwrFiles E) where
  -- A flush over a map whose first page is deleted.
  first_deleted :
      (e : E) (b : DiskDoubleWriteBuffer) (p : DoubleWritePage) (rest : List Entry)
      → flush_page files e
          (record b { dblwr_pages = record { dblwr_page = p; deleted = true } ∷ rest })
        ≡ none
  unfolding flush_page flush_each
  first_deleted e b p rest = refl

  after_flush :
      DiskDoubleWriteBuffer → Option (E × Rc × List Entry) → Option (E × DiskDoubleWriteBuffer × Rc)
  after_flush b r = elim r [
    | none ↦ none
    | some (e', rc, left) ↦
        if ob_succ rc
        then some (e', record b { page_cnt = 0; dblwr_pages = [] }, Rc.success)
        else some (e', record b { dblwr_pages = left }, rc)
  ]

  flush_page-after_flush :
      (e : E) (b : DiskDoubleWriteBuffer)
      → flush_page files e b ≡ after_flush b (flush_each files (files.sync e) b.dblwr_pages)
  unfolding flush_page after_flush
  flush_page-after_flush e b = refl

  rc_of : Option (E × DiskDoubleWriteBuffer × Rc) → Rc
  rc_of none = Rc.success
  rc_of (some r) = r.2

  state_of : DiskDoubleWriteBuffer → Option (E × DiskDoubleWriteBuffer × Rc) → DiskDoubleWriteBuffer
  state_of b none = b
  state_of b (some r) = r.1

  -- A flush that has written the first page of its walk and then fails leaves the deleted page in the map: whatever the files do
  -- then, the next flush uses it.
  pub flush_page_dangles :
      (e e'' : E) (b b' : DiskDoubleWriteBuffer) (x : Entry) (xs : List Entry) (w : E × Rc)
      (r : E × Rc)
      → b.dblwr_pages ≡ x ∷ xs
      → x.deleted ≡ false
      → write_page files (files.sync e) x.dblwr_page ≡ some w
      → ob_succ w.1 ≡ true
      → flush_page files e b ≡ some (r.0, b', r.1)
      → ob_succ r.1 ≡ false
      → flush_page files e'' b' ≡ none
  unfolding flush_each after_flush rc_of state_of
  flush_page_dangles e e'' b b' x xs w r first live run ok out bad =
      let old : DoubleWritePage = record (x.dblwr_page) { valid = false } in
      let e2 = (write_page_internal files w.0 old).0 in
      let start =
        flush_page-after_flush e b
        ∙ ap (λ ys. after_flush b (flush_each files (files.sync e) ys)) first in
      elim (Option-cases (flush_each files e2 xs)) [
        | inl stuck ↦
            let whole : flush_each files (files.sync e) (x ∷ xs) ≡ none =
              simp (flush_each, live, run, ok, stuck) in
            absurd (
              let gone : none ≡ some (r.0, b', r.1) =
                sym (start ∙ ap (after_flush b) whole) ∙ out in
              cc)
        | inr ((e3, rc, rest), more) ↦
            let left : List Entry = record { dblwr_page = old; deleted = true } ∷ rest in
            let whole : flush_each files (files.sync e) (x ∷ xs) ≡ some (e3, rc, left) =
              simp (flush_each, live, run, ok, more) in
            let ends = sym (start ∙ ap (after_flush b) whole) ∙ out in
            elim (Bool-cases (ob_succ rc)) [
              | inl t ↦
                  let code : Rc.success ≡ r.1 = sym (rw (after_flush, t) refl) ∙ ap rc_of ends in
                  absurd (false≢true (sym bad ∙ ap ob_succ (sym code)))
              | inr f ↦
                  let same : record b { dblwr_pages = left } ≡ b' =
                    sym (rw (after_flush, f) refl) ∙ ap (state_of b) ends in
                  subst (λ c. flush_page files e'' c ≡ none) same (first_deleted e'' b old rest)
            ]
      ]
