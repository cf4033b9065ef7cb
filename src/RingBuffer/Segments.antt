-- ===== src/RingBuffer/Segments.antt =====
-- The bytes of a ring in order, as at most two ranges of the buffer.
use ob_preliminary.Common.{
  ℕ, zero, suc, ◌+◌, ◌-◌, ◌≤◌, ◌≡◌, refl, ap, ◌∙◌, List, [], ◌∷◌, ◌++◌, length, take, drop, read_at,
  min, append-nil, arith,
}

module _ {ℓ} {A : Type ℓ} where
  pub take-add : (xs : List A) (m n : ℕ) → take (m + n) xs ≡ take m xs ++ take n (drop m xs)
  take-add xs zero n = let e : 0 + n ≡ n = omega arith in rw e
  take-add [] (suc m) zero = let e : suc m + 0 ≡ suc m = omega arith in rw e
  take-add [] (suc m) (suc n) = let e : suc m + suc n ≡ suc (m + suc n) = omega arith in rw e
  take-add (x ∷ xs) (suc m) n =
      let e : suc m + n ≡ suc (m + n) = omega arith in rw e (ap (◌∷◌ x) (take-add xs m n))

  drop-add : (xs : List A) (m n : ℕ) → drop n (drop m xs) ≡ drop (m + n) xs
  drop-add xs zero n = let e : 0 + n ≡ n = omega arith in rw e
  drop-add [] (suc m) zero = let e : suc m + 0 ≡ suc m = omega arith in rw e
  drop-add [] (suc m) (suc n) = let e : suc m + suc n ≡ suc (m + suc n) = omega arith in rw e
  drop-add (x ∷ xs) (suc m) n =
      let e : suc m + n ≡ suc (m + n) = omega arith in rw e (drop-add xs m n)

  -- A range is its first part followed by the rest.
  pub read_at-add :
      (xs : List A) (p m n : ℕ) → read_at xs p (m + n) ≡ read_at xs p m ++ read_at xs (p + m) n
  read_at-add xs p m n =
      take-add (drop p xs) m n ∙ ap (λ ys. take m (drop p xs) ++ take n ys) (drop-add xs p m)

  pub take-take : (xs : List A) (m : ℕ) → take (length (take m xs)) xs ≡ take m xs
  take-take xs zero = refl
  take-take [] (suc m) = refl
  take-take (x ∷ xs) (suc m) = ap (◌∷◌ x) (take-take xs m)

-- The `n` bytes from offset `start` on, going round at the end of the buffer.
abbrev pub cells : List ℕ → ℕ → ℕ → List ℕ
cells buf start n =
    read_at buf start (min n (length buf - start)) ++ read_at buf 0 (n - (length buf - start))

-- A ring whose bytes do not pass the end, and one whose bytes do.
pub cells_straight : (buf : List ℕ) (s n : ℕ) → s + n ≤ length buf → cells buf s n ≡ read_at buf s n
cells_straight buf s n h =
    let a : min n (length buf - s) ≡ n = omega arith in
    let b : n - (length buf - s) ≡ 0 = omega arith in rw (a, b) (append-nil (read_at buf s n))

pub cells_wrapped :
    (buf : List ℕ) (s n m : ℕ)
    → s ≤ length buf
    → s + n ≡ m + length buf
    → cells buf s n ≡ read_at buf s (length buf - s) ++ read_at buf 0 m
cells_wrapped buf s n m h e =
    let a : min n (length buf - s) ≡ length buf - s = omega arith in
    let b : n - (length buf - s) ≡ m = omega arith in rw (a, b)
