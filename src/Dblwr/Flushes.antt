-- ===== src/Dblwr/Flushes.antt =====
-- What a flush of the double write buffer writes, and what the header of its file gets.
use ob_preliminary.Common.{
  ℕ, suc, ◌+◌, ◌≡◌, refl, ap, inl, inr, Bool, true, false, some, List, [], ◌∷◌, ltb, if◌then◌else◌,
  Bool-cases,
}
use ob_preliminary.Common.Int.{ℤ}
use ob_preliminary.Common.Rc.{Rc, ob_succ, is_success}
use ob_preliminary.Dblwr.{
  DoubleWritePage, Entry, DblwrFiles, write_page, write_page_internal, flush_each,
}
use ob_preliminary.Dblwr.Slots.{Slots}

module _ {ℓ} {E : Type ℓ} (files : DblwrFiles E) where
  -- The pages are written to their pools one after the other, each valid one, and after each its slot is marked as no longer
  -- valid; up to the first that its pool does not take.
  pub data Flushes : E → List Entry → E → Rc → Type ℓ where
    done : {e : E} → Flushes e [] e Rc.success
    wrote :
        {e e1 e' : E} {rc : Rc} {x : Entry} {xs : List Entry}
        → x.dblwr_page.valid ≡ true
        → files.pool_write e x.dblwr_page.key x.dblwr_page.page ≡ (e1, Rc.success)
        → Flushes
            (files.write_slot e1 x.dblwr_page.page_index
              (record (x.dblwr_page) { valid = false })).0
            xs
            e'
            rc
        → Flushes e (x ∷ xs) e' rc
    skipped :
        {e e' : E} {rc : Rc} {x : Entry} {xs : List Entry}
        → x.dblwr_page.valid ≡ false
        → Flushes
            (files.write_slot e x.dblwr_page.page_index (record (x.dblwr_page) { valid = false })).0
            xs
            e'
            rc
        → Flushes e (x ∷ xs) e' rc
    refused :
        {e e' : E} {rc : Rc} {x : Entry} {xs : List Entry}
        → x.dblwr_page.valid ≡ true
        → files.pool_write e x.dblwr_page.key x.dblwr_page.page ≡ (e', rc)
        → ob_succ rc ≡ false
        → Flushes e (x ∷ xs) e' rc

  -- The header counts the slots in use, and is written when a new page has a slot behind them.
  pub data HeaderWritten (e : E) (page_cnt n : ℕ) : E → Rc → Type ℓ where
    counted : ltb page_cnt (n + 1) ≡ false → HeaderWritten e page_cnt n e Rc.success
    raised :
        {e' : E} {rc : Rc}
        → ltb page_cnt (n + 1) ≡ true
        → files.write_header e (n + 1) ≡ (e', rc)
        → HeaderWritten e page_cnt n e' rc

  pub header-HeaderWritten :
      (e : E) (page_cnt n : ℕ) (grows : Bool)
      → ltb page_cnt (n + 1) ≡ grows
      → let h = if grows then files.write_header e (n + 1) else (e, Rc.success) in
        HeaderWritten e page_cnt n h.0 h.1
  header-HeaderWritten e page_cnt n true g = raised g refl
  header-HeaderWritten e page_cnt n false g = counted g

  module _ (opened : (e : E) (pool : ℤ) → files.pool_is_open e pool ≡ true) where
    pub flush_each_run :
        (n : ℕ) (e : E) (xs : List Entry)
        → Slots n xs
        → (r : E × Rc × List Entry) × (flush_each files e xs ≡ some r) × Flushes e xs r.0 r.1
    unfolding flush_each write_page
    flush_each_run n e [] s = ((e, Rc.success, []), refl, done)
    flush_each_run n e (x ∷ xs) (i, d, s) =
        let p = x.dblwr_page in
        let old : DoubleWritePage = record p { valid = false } in
        let w = files.pool_write e p.key p.page in
        elim (Bool-cases p.valid) [
          | inr f ↦
              let run : write_page files e p ≡ some (e, Rc.success) = rw (write_page, f) refl in
              let (r, rest, how) =
                flush_each_run (suc n) (write_page_internal files e old).0 xs s in
              (
                (r.0, r.1, record { dblwr_page = old; deleted = true } ∷ r.2),
                simp (flush_each, d, run, rest),
                skipped f how,
              )
          | inl t ↦
              let run : write_page files e p ≡ some w =
                rw (write_page, t, opened e p.key.buffer_pool_id) refl in
              elim (Bool-cases (ob_succ w.1)) [
                | inr bad ↦ ((w.0, w.1, x ∷ xs), simp (flush_each, d, run, bad), refused t refl bad)
                | inl ok ↦
                    let (r, rest, how) =
                      flush_each_run (suc n) (write_page_internal files w.0 old).0 xs s in
                    (
                      (r.0, r.1, record { dblwr_page = old; deleted = true } ∷ r.2),
                      simp (flush_each, d, run, ok, rest),
                      wrote t (ap (λ c. (w.0, c)) (is_success w.1 ok)) how,
                    )
              ]
        ]
