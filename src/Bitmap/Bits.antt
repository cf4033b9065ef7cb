-- ===== src/Bitmap/Bits.antt =====
-- Bits of one byte, checked over all bytes.
use ob_preliminary.Common.{
  ℕ, zero, suc, ◌-◌, ◌/◌, ◌^◌, ◌<◌, ◌≡◌, refl, Bool, true, false, ◌&&◌, not, arith, bit_and, bit_or,
  ◌==◌, if◌then◌else◌,
}
use ob_preliminary.Bitmap.{is_clear}

-- The test `p` on each of the first `n` numbers, and what its result says of one of them.
check_first : ℕ → (ℕ → Bool) → Bool
check_first zero p = true
check_first (suc last) p = if p last then check_first last p else false

checked : (p : ℕ → Bool) (x n : ℕ) → x < n → check_first n p ≡ true → p x ≡ true
unfolding check_first
checked p x zero small run = absurd (omega arith)
checked p x (suc last) small run = ground (arith, checked p x last)

abbrev same : Bool → Bool → Bool
same true b = b
same false b = not b

same→eq : (a b : Bool) → same a b ≡ true → a ≡ b
same→eq a b h = ground arith

-- What the three tables say of a byte `b` and the bits `j` and `k`.
abbrev after_set : ℕ → ℕ → ℕ → Bool
after_set b k j = same (is_clear (bit_or b (2 ^ k)) j) (if j == k then false else is_clear b j)

abbrev after_clear : ℕ → ℕ → ℕ → Bool
after_clear b k j =
    same (is_clear (bit_and b (255 - 2 ^ k)) j) (if j == k then true else is_clear b j)

set_table : check_first 256 (λ b. check_first 8 (λ k. check_first 8 (after_set b k))) ≡ true
unfolding check_first
set_table = refl

clear_table : check_first 256 (λ b. check_first 8 (λ k. check_first 8 (after_clear b k))) ≡ true
unfolding check_first
clear_table = refl

-- Setting bit `k` of a byte makes bit `k` one and leaves the others.
pub is_clear-set :
    (b k j : ℕ)
    → b < 256
    → k < 8
    → j < 8
    → is_clear (bit_or b (2 ^ k)) j ≡ (if j == k then false else is_clear b j)
is_clear-set b k j hb hk hj =
    let row =
      checked (λ b. check_first 8 (λ k. check_first 8 (after_set b k))) b 256 hb set_table in
    same→eq _ _
      (checked (after_set b k) j 8 hj (checked (λ k. check_first 8 (after_set b k)) k 8 hk row))

pub is_clear-clear :
    (b k j : ℕ)
    → b < 256
    → k < 8
    → j < 8
    → is_clear (bit_and b (255 - 2 ^ k)) j ≡ (if j == k then true else is_clear b j)
is_clear-clear b k j hb hk hj =
    let row =
      checked (λ b. check_first 8 (λ k. check_first 8 (after_clear b k))) b 256 hb clear_table in
    same→eq _ _
      (checked (after_clear b k) j 8 hj (checked (λ k. check_first 8 (after_clear b k)) k 8 hk row))

-- The result of either operation is a byte.
abbrev stays : ℕ → ℕ → Bool
stays b k = (bit_or b (2 ^ k) / 256 == 0) && (bit_and b (255 - 2 ^ k) / 256 == 0)

byte_table : check_first 256 (λ b. check_first 8 (stays b)) ≡ true
unfolding check_first
byte_table = refl

pub bytes_stay :
    (b k : ℕ) → b < 256 → k < 8 → (bit_or b (2 ^ k) < 256) × (bit_and b (255 - 2 ^ k) < 256)
bytes_stay b k hb hk =
    ground
      (arith, checked (stays b) k 8 hk (checked (λ b. check_first 8 (stays b)) b 256 hb byte_table))

full_table : check_first 8 (λ k. not (is_clear 255 k)) ≡ true
unfolding check_first
full_table = refl

-- A byte of ones has no clear bit, and a zero byte no set bit.
pub is_clear-full : (k : ℕ) → k < 8 → is_clear 255 k ≡ false
is_clear-full k h = ground (arith, checked (λ k. not (is_clear 255 k)) k 8 h full_table)

zero_table : check_first 8 (λ k. is_clear 0 k) ≡ true
unfolding check_first
zero_table = refl

pub is_clear-zero : (k : ℕ) → k < 8 → is_clear 0 k ≡ true
is_clear-zero k h = checked (λ k. is_clear 0 k) k 8 h zero_table
