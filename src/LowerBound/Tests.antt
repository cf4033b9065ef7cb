-- ===== src/LowerBound/Tests.antt =====
-- Runs of lower_bound on five numbers.
use ob_preliminary.Common.{ℕ, ◌≡◌, refl, true, false, ltb, ◌*◌, arith}
use ob_preliminary.LowerBound.{lower_bound_loop, lower_bound, lower_bound_default, comparator}
use ob_preliminary.LowerBound.Search.{IsSorted, IsLowerBound, lower_bound_lem}

-- The element at position `i` is `2 * i`.
abbrev evens : ℕ → ℕ
evens i = 2 * i

evens-IsSorted : (val last : ℕ) → IsSorted (λ i. comparator ltb (evens i) val) last
unfolding comparator
evens-IsSorted val last = record {
  less = λ i j a b h. ground arith;
  equal = λ i j a b h. ground arith;
}

lower_bound_lem_example :
    IsLowerBound (λ i. comparator ltb (evens i) 6) 0 5 (lower_bound evens 0 5 6 (comparator ltb))
lower_bound_lem_example =
    lower_bound_lem evens 0 5 6 (comparator ltb) (evens-IsSorted 6 5) (omega arith)

finds : lower_bound_default ltb evens 0 5 6 ≡ (3, true)
unfolding lower_bound_default lower_bound lower_bound_loop comparator
finds = refl

goes_above : lower_bound_default ltb evens 0 5 5 ≡ (3, false)
unfolding lower_bound_default lower_bound lower_bound_loop comparator
goes_above = refl
