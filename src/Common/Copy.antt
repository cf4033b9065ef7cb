-- ===== src/Common/Copy.antt =====
-- `memcpy` into a buffer and out of it: what a copied range holds, and that other ranges keep theirs.
use ob_preliminary.Common.{
  ℕ, zero, suc, ◌+◌, ◌≤◌, ◌<◌, ◌≡◌, refl, ap, ap₂, ◌∙◌, ◌⊎◌, inl, inr, List, [], ◌∷◌, length,
  get_or, set, take, drop, read_at, write_at, length-set, length-write_at, get_or-set_self,
  get_or-set_ne, arith,
}

module _ {ℓ} {A : Type ℓ} where
  drop-set_lt : (xs : List A) (i q : ℕ) (v : A) → i < q → drop q (set xs i v) ≡ drop q xs
  drop-set_lt xs i zero v h = absurd (omega arith)
  drop-set_lt [] i (suc q) v h = refl
  drop-set_lt (x ∷ xs) zero (suc q) v h = refl
  drop-set_lt (x ∷ xs) (suc i) (suc q) v h = drop-set_lt xs i q v (omega arith)

  take-set_ge : (xs : List A) (i n : ℕ) (v : A) → n ≤ i → take n (set xs i v) ≡ take n xs
  take-set_ge xs i zero v h = refl
  take-set_ge [] i (suc n) v h = refl
  take-set_ge (x ∷ xs) zero (suc n) v h = absurd (omega arith)
  take-set_ge (x ∷ xs) (suc i) (suc n) v h = ap (◌∷◌ x) (take-set_ge xs i n v (omega arith))

  read_at-set_ge :
      (xs : List A) (i q n : ℕ) (v : A) → q + n ≤ i → read_at (set xs i v) q n ≡ read_at xs q n
  read_at-set_ge xs i zero n v h = take-set_ge xs i n v (omega arith)
  read_at-set_ge [] i (suc q) n v h = refl
  read_at-set_ge (x ∷ xs) zero (suc q) n v h = absurd (omega arith)
  read_at-set_ge (x ∷ xs) (suc i) (suc q) n v h = read_at-set_ge xs i q n v (omega arith)

  -- A range that lies wholly before or behind the written one keeps its bytes.
  pub read_at-write_at_ne :
      (buf : List A) (pos : ℕ) (src : List A) (q n : ℕ)
      → (q + n ≤ pos) ⊎ (pos + length src ≤ q)
      → read_at (write_at buf pos src) q n ≡ read_at buf q n
  read_at-write_at_ne buf pos [] q n h = refl
  read_at-write_at_ne buf pos (x ∷ xs) q n (inl h) =
      read_at-write_at_ne (set buf pos x) (suc pos) xs q n (inl (omega arith))
      ∙ read_at-set_ge buf pos q n x h
  read_at-write_at_ne buf pos (x ∷ xs) q n (inr h) =
      read_at-write_at_ne (set buf pos x) (suc pos) xs q n (inr (omega arith))
      ∙ ap (take n) (drop-set_lt buf pos q x (omega arith))

  pub get_or-write_at_lt :
      (buf : List A) (pos : ℕ) (src : List A) (q : ℕ) (d : A)
      → q < pos
      → get_or (write_at buf pos src) q d ≡ get_or buf q d
  get_or-write_at_lt buf pos [] q d h = refl
  get_or-write_at_lt buf pos (x ∷ xs) q d h =
      get_or-write_at_lt (set buf pos x) (suc pos) xs q d (omega arith)
      ∙ get_or-set_ne buf pos q x d (λ e. omega arith)

  pub read_at-suc :
      (xs : List A) (p n : ℕ) (d : A)
      → p < length xs
      → read_at xs p (suc n) ≡ get_or xs p d ∷ read_at xs (suc p) n
  read_at-suc [] p n d h = absurd (omega arith)
  read_at-suc (x ∷ xs) zero n d h = refl
  read_at-suc (x ∷ xs) (suc p) n d h = read_at-suc xs p n d (omega arith)

  -- The written range holds the source.
  pub read_at-write_at :
      (buf : List A) (pos : ℕ) (src : List A)
      → pos + length src ≤ length buf
      → read_at (write_at buf pos src) pos (length src) ≡ src
  read_at-write_at buf pos [] h = refl
  read_at-write_at buf pos (x ∷ xs) h =
      let next = set buf pos x in
      let room = length-set buf pos x in
      read_at-suc (write_at next (suc pos) xs) pos (length xs) x
        (omega (arith, length-write_at next (suc pos) xs))
      ∙ ap₂ ◌∷◌
          (get_or-write_at_lt next (suc pos) xs pos x (omega arith)
            ∙ get_or-set_self buf pos x x (omega arith))
          (read_at-write_at next (suc pos) xs (omega arith))
