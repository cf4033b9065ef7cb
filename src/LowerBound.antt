-- ===== src/LowerBound.antt =====
-- lower_bound of deps/common/lang/lower_bound.h: the binary search of the B+ tree nodes. An iterator is a position, and
-- `at` is the element that it points to. Fuel: the count of elements.
pub mod Search
pub mod Tests
use ob_preliminary.Common.{ℕ, zero, suc, ◌+◌, ◌-◌, ◌/◌, Bool, true, false, leb, if◌then◌else◌}
use ob_preliminary.Common.Int.{ℤ, pos, negsuc, ltb_ℤ, eqb_ℤ}

-- The loop from `first` over `last_count` elements: the position that is returned, and whether it was found.
unfoldable pub lower_bound_loop {ℓ} :
    {T : Type ℓ} → (ℕ → T) → T → (T → T → ℤ) → ℕ → ℕ → ℕ → ℕ × Bool
lower_bound_loop at val comp zero first last_count = (first, false)
lower_bound_loop at val comp (suc fuel) first last_count =
    let step = last_count / 2 in
    let iter = first + step in
    let result = comp (at iter) val in
    elim (leb last_count 0) [
      | true ↦ (first, false)
      | false ↦ elim (eqb_ℤ (pos 0) result) [
        | true ↦ (iter, true)
        | false ↦ elim (ltb_ℤ result (pos 0)) [
          | true ↦ lower_bound_loop at val comp fuel (iter + 1) (last_count - (step + 1))
          | false ↦ lower_bound_loop at val comp fuel first step
        ]
      ]
    ]

-- A `last` before `first` makes a negative count, at which the loop does not run, as at 0.
unfoldable pub lower_bound {ℓ} : {T : Type ℓ} → (ℕ → T) → ℕ → ℕ → T → (T → T → ℤ) → ℕ × Bool
lower_bound at first last val comp =
    let count = last - first in lower_bound_loop at val comp count first count

-- `Comparator<T>`, from the operator < of `T`.
unfoldable pub comparator {ℓ} : {T : Type ℓ} → (T → T → Bool) → T → T → ℤ
comparator less v1 v2 = if less v1 v2 then negsuc 0 else if less v2 v1 then pos 1 else pos 0

-- The overload without a comparison.
unfoldable pub lower_bound_default {ℓ} :
    {T : Type ℓ} → (T → T → Bool) → (ℕ → T) → ℕ → ℕ → T → ℕ × Bool
lower_bound_default less at first last val = lower_bound at first last val (comparator less)
