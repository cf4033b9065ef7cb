-- ===== src/RecordPage/Count.antt =====
-- How many bits of a map are set.
use ob_preliminary.Common.{
  ℕ, zero, suc, ◌+◌, ◌<◌, ◌≤◌, ◌≡◌, refl, sym, subst, ◌⊎◌, inl, inr, Bool, true, false, ◌==◌,
  if◌then◌else◌, arith, Bool-cases,
}

unfoldable pub count : (ℕ → Bool) → ℕ → ℕ
count p zero = 0
count p (suc n) = count p n + (if p n then 1 else 0)

pub count-ext : (p q : ℕ → Bool) (n : ℕ) → ((j : ℕ) → j < n → q j ≡ p j) → count q n ≡ count p n
unfolding count
count-ext p q zero h = refl
count-ext p q (suc n) h =
    ground (arith, count-ext p q n (λ j l. h j (omega arith)), h n (omega arith))

-- Turning one clear bit below `n` on adds one to the count.
pub count-turn_on :
    (p q : ℕ → Bool) (i n : ℕ)
    → i < n
    → p i ≡ false
    → ((j : ℕ) → q j ≡ (if j == i then true else p j))
    → count q n ≡ count p n + 1
unfolding count
count-turn_on p q i zero l off h = absurd (omega arith)
count-turn_on p q i (suc n) l off h = elim (split) [
  | inl below ↦ ground (arith, count-turn_on p q i n below off h, h n)
  | inr e ↦
      let same = count-ext p q n (λ j k. ground (arith, h j)) in
      let at_n : q n ≡ true = ground (arith, h n) in
      let was : p n ≡ false = subst (λ k. p k ≡ false) e off in rw (same, at_n, was) (omega arith)
]
  where
    split : (i < n) ⊎ (i ≡ n)
    split = omega arith

pub count-full : (p : ℕ → Bool) (n : ℕ) → ((j : ℕ) → j < n → p j ≡ true) → count p n ≡ n
unfolding count
count-full p zero h = refl
count-full p (suc n) h =
    ground (arith, count-full p n (λ j l. h j (omega arith)), h n (omega arith))

pub count-le : (p : ℕ → Bool) (n : ℕ) → count p n ≤ n
unfolding count
count-le p zero = omega arith
count-le p (suc n) = ground (arith, count-le p n)

pub count-pos : (p : ℕ → Bool) (n i : ℕ) → i < n → p i ≡ true → 0 < count p n
unfolding count
count-pos p zero i l h = absurd (omega arith)
count-pos p (suc n) i l h = elim (split) [
  | inl below ↦ ground (arith, count-pos p n i below h)
  | inr e ↦ let at_n : p n ≡ true = subst (λ k. p k ≡ true) e h in rw at_n (omega arith)
]
  where
    split : (i < n) ⊎ (i ≡ n)
    split = omega arith

-- A count of `n` below `n` leaves no clear bit.
pub count_all : (p : ℕ → Bool) (n j : ℕ) → count p n ≡ n → j < n → p j ≡ true
unfolding count
count_all p zero j e l = absurd (omega arith)
count_all p (suc n) j e l = elim (split) [
  | inl below ↦ count_all p n j (ground (arith, count-le p n)) below
  | inr same ↦ subst (λ k. p k ≡ true) (sym same) (ground (arith, count-le p n))
]
  where
    split : (j < n) ⊎ (j ≡ n)
    split = omega arith

-- Turning a set bit off takes one from the count.
pub count-turn_off :
    (p q : ℕ → Bool) (i n : ℕ)
    → i < n
    → p i ≡ true
    → ((j : ℕ) → q j ≡ (if j == i then false else p j))
    → count p n ≡ count q n + 1
count-turn_off p q i n l on h = count-turn_on q p i n l (ground (arith, h i)) λ j.
    elim (Bool-cases (j == i)) [
      | inl e ↦ let same : j ≡ i = ground arith in rw e (subst (λ k. p k ≡ true) (sym same) on)
      | inr e ↦ rw e (ground (arith, h j))
    ]

-- One more bit, which is set.
pub count-grow :
    (p q : ℕ → Bool) (n : ℕ)
    → ((j : ℕ) → q j ≡ (if j == n then true else p j))
    → count q (n + 1) ≡ count p n + 1
unfolding count
count-grow p q n h =
    let next : n + 1 ≡ suc n = omega arith in
    let same = count-ext p q n (λ j l. ground (arith, h j)) in
    let on : q n ≡ true = ground (arith, h n) in rw (next, same, on) refl
