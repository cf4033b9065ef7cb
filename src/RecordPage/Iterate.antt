-- ===== src/RecordPage/Iterate.antt =====
-- `RecordPageIterator`: the records that a scan of a page visits.
use ob_preliminary.Common.{
  ℕ, zero, suc, ◌+◌, ◌-◌, ◌≤◌, ◌<◌, ◌≡◌, refl, sym, ap, ap₂, ◌∙◌, true, false, Option, none, some,
  List, [], ◌∷◌, leb, arith,
}
use ob_preliminary.Common.First.{FirstAt}
use ob_preliminary.Bitmap.{get_bit, next_setted_bit}
use ob_preliminary.Bitmap.Search.{next_setted_bit_first}
use ob_preliminary.RecordPage.{Page, bits, read_record, iterator_init, iterator_next, scan}
use ob_preliminary.RecordPage.Slots.{slots}

-- The records of the used slots among the `n` slots from `lo` on, in order.
unfoldable pub live : Page → ℕ → ℕ → List (ℕ × Option (List ℕ))
live p lo zero = []
live p lo (suc n) = elim (slots p lo) [
  | none ↦ live p (suc lo) n
  | some r ↦ (lo, some r) ∷ live p (suc lo) n
]

live-none :
    (p : Page) (n lo : ℕ)
    → ((j : ℕ) → lo ≤ j → j < lo + n → get_bit (bits p) j ≡ false)
    → live p lo n ≡ []
unfolding live slots
live-none p zero lo h = refl
live-none p (suc n) lo h =
    rw (live, h lo (omega arith) (omega arith))
      (live-none p n (suc lo) (λ j a b. h j (omega arith) (omega arith)))

live-skip :
    (p : Page) (m lo k n : ℕ)
    → lo + m ≡ k
    → ((j : ℕ) → lo ≤ j → j < k → get_bit (bits p) j ≡ false)
    → live p lo (m + n) ≡ live p k n
unfolding live slots
live-skip p zero lo k n e h =
    let e' : lo ≡ k = omega arith in let z : 0 + n ≡ n = omega arith in rw (e', z)
live-skip p (suc m) lo k n e h =
    let s : suc m + n ≡ suc (m + n) = omega arith in
    rw s (
      rw (live, h lo (omega arith) (omega arith))
        (live-skip p m (suc lo) k n (omega arith) (λ j a b. h j (omega arith) b)))

live-used :
    (p : Page) (k n : ℕ)
    → get_bit (bits p) k ≡ true
    → live p k (suc n) ≡ (k, some (read_record p k)) ∷ live p (suc k) n
unfolding live slots
live-used p k n h = rw (live, h)

read_used :
    (p : Page) (k : ℕ)
    → k < p.record_capacity
    → get_bit (bits p) k ≡ true
    → (iterator_next p k).0 ≡ some (read_record p k)
unfolding iterator_next
read_used p k l h = let inside : leb p.record_capacity k ≡ false = ground arith in rw (inside, h)

scan-live :
    (fuel : ℕ) (p : Page) (start : ℕ)
    → start ≤ p.record_capacity
    → p.record_capacity - start < fuel
    → scan fuel p (next_setted_bit (bits p) start) ≡ live p start (p.record_capacity - start)
unfolding scan
scan-live zero p start h m = absurd (omega arith)
scan-live (suc fuel) p start h m =
    go (next_setted_bit (bits p) start) (next_setted_bit_first (bits p) start h) (scan-live fuel p)
  where
    cap : ℕ
    cap = p.record_capacity

    go :
        (o : Option ℕ)
        → FirstAt (get_bit (bits p)) true start cap o
        → ((s : ℕ)
            → s ≤ cap
            → cap - s < fuel
            → scan fuel p (next_setted_bit (bits p) s) ≡ live p s (cap - s))
        → scan (suc fuel) p o ≡ live p start (cap - start)
    go none f ih = sym (live-none p (cap - start) start (λ j a b. f j a (omega arith)))
    go (some k) (a, b, e, f) ih =
        let d = k - start in
        let left = cap - suc k in
        let whole : cap - start ≡ d + suc left = omega arith in
        let next : k + 1 ≡ suc k = omega arith in
        let rest : scan fuel p (next_setted_bit (bits p) (k + 1)) ≡ live p (suc k) left =
          rw next (ih (suc k) (omega arith) (omega arith)) in
        ap₂ ◌∷◌ (ap (λ r. (k, r)) (read_used p k b e)) rest
        ∙ sym (rw whole (live-skip p d start k (suc left) (omega arith) f ∙ live-used p k left e))

-- A scan of a page from a slot on, with a fuel of one more than the capacity, ends and visits exactly the
-- used slots from there to the end of the page, each once, in order, with the record that the page
-- holds there.
pub scan_lem :
    (p : Page) (start : ℕ)
    → start ≤ p.record_capacity
    → scan (suc p.record_capacity) p (iterator_init p start)
      ≡ live p start (p.record_capacity - start)
unfolding iterator_init
scan_lem p start h = scan-live (suc p.record_capacity) p start h (omega arith)
