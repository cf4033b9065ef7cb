-- ===== src/Bitmap.antt =====
-- deps/common/lang/bitmap.cpp: a bitmap over the bytes of a page. `bitmap_` is the list of the bytes
-- as bit patterns (0 to 255), `-1` as a result is `none`, indices are never negative.
pub mod Bits
pub mod Search
pub mod Ops
mod Tests
use ob_preliminary.Common.{
  ℕ, zero, suc, ◌+◌, ◌-◌, ◌*◌, ◌/◌, ◌%◌, ◌^◌, Bool, true, false, not, Option, none, some, List, leb,
  ◌==◌, if◌then◌else◌, get_or, set, bit_and, bit_or,
}

-- `(byte & (1 << i)) == 0`
abbrev pub is_clear : ℕ → ℕ → Bool
is_clear byte i = bit_and byte (2 ^ i) == 0

-- `for (i = start; i < 8; i++)`: the count of rounds left comes first.
unfoldable pub first_zero_from : ℕ → ℕ → ℕ → Option ℕ
first_zero_from zero byte i = none
first_zero_from (suc n) byte i =
    let rest = first_zero_from n byte (i + 1) in if is_clear byte i then some i else rest

unfoldable pub find_first_zero : ℕ → ℕ → Option ℕ
unfolding first_zero_from
find_first_zero byte start = first_zero_from (8 - start) byte start

unfoldable pub first_setted_from : ℕ → ℕ → ℕ → Option ℕ
first_setted_from zero byte i = none
first_setted_from (suc n) byte i =
    let rest = first_setted_from n byte (i + 1) in if is_clear byte i then rest else some i

unfoldable pub find_first_setted : ℕ → ℕ → Option ℕ
unfolding first_setted_from
find_first_setted byte start = first_setted_from (8 - start) byte start

unfoldable pub bytes : ℕ → ℕ
bytes size = if size % 8 == 0 then size / 8 else size / 8 + 1

pub record Bitmap : Type 0 where
  pub bitmap : List ℕ
  pub size : ℕ

unfoldable pub get_bit : Bitmap → ℕ → Bool
get_bit b index = not (is_clear (get_or b.bitmap (index / 8) 0) (index % 8))

unfoldable pub set_bit : Bitmap → ℕ → Bitmap
set_bit b index = record b {
  bitmap = set b.bitmap (index / 8) (bit_or (get_or b.bitmap (index / 8) 0) (2 ^ (index % 8)));
}

-- `bits &= ~(1 << k)` on a byte
unfoldable pub clear_bit : Bitmap → ℕ → Bitmap
clear_bit b index = record b {
  bitmap =
      set b.bitmap (index / 8) (bit_and (get_or b.bitmap (index / 8) 0) (255 - 2 ^ (index % 8)));
}

-- The loop of `next_unsetted_bit` over the bytes from `iter` on. A byte of ones is passed over.
unfoldable pub unsetted_from : ℕ → List ℕ → ℕ → ℕ → Option ℕ
unsetted_from zero bs iter start_in_byte = none
unsetted_from (suc n) bs iter start_in_byte =
    let rest = unsetted_from n bs (iter + 1) 0 in
    let byte = get_or bs iter 0 in
    if byte == 255
    then rest
    else elim (find_first_zero byte start_in_byte) [ none ↦ rest | some k ↦ some (iter * 8 + k) ]

-- `if (ret >= size_) ret = -1`
abbrev pub within : ℕ → Option ℕ → Option ℕ
within size none = none
within size (some ret) = if leb size ret then none else some ret

unfoldable pub next_unsetted_bit : Bitmap → ℕ → Option ℕ
unfolding unsetted_from find_first_zero
next_unsetted_bit b start =
    within b.size (unsetted_from (bytes b.size - start / 8) b.bitmap (start / 8) (start % 8))

unfoldable pub setted_from : ℕ → List ℕ → ℕ → ℕ → Option ℕ
setted_from zero bs iter start_in_byte = none
setted_from (suc n) bs iter start_in_byte =
    let rest = setted_from n bs (iter + 1) 0 in
    let byte = get_or bs iter 0 in
    if byte == 0
    then rest
    else elim (find_first_setted byte start_in_byte) [ none ↦ rest | some k ↦ some (iter * 8 + k) ]

unfoldable pub next_setted_bit : Bitmap → ℕ → Option ℕ
unfolding setted_from find_first_setted
next_setted_bit b start =
    within b.size (setted_from (bytes b.size - start / 8) b.bitmap (start / 8) (start % 8))
