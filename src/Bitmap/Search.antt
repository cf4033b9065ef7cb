-- ===== src/Bitmap/Search.antt =====
-- The searches of bitmap.cpp against their description: the first index of a range with a given bit.
use ob_preliminary.Common.{
  ℕ, zero, suc, ◌+◌, ◌-◌, ◌*◌, ◌/◌, ◌%◌, ◌≤◌, ◌<◌, ◌≡◌, refl, subst, inl, inr, Bool, true, false,
  not, Option, none, some, leb, ◌==◌, if◌then◌else◌, get_or, arith, Bool-cases, ==_iff,
}
use ob_preliminary.Common.First.{
  FirstAt, FirstAt-here, FirstAt-append, FirstAt-widen, FirstAt-cut, FirstAt-shorten, FirstAt-empty,
  FirstAt-shift,
}
use ob_preliminary.Bitmap.{
  Bitmap, is_clear, first_zero_from, find_first_zero, first_setted_from, find_first_setted, bytes,
  get_bit, unsetted_from, setted_from, next_unsetted_bit, next_setted_bit, within,
}
use ob_preliminary.Bitmap.Bits.{is_clear-full, is_clear-zero}

-- Bit `i` of one byte.
abbrev bit : ℕ → ℕ → Bool
bit byte i = not (is_clear byte i)

first_zero-FirstAt :
    (n byte i : ℕ) → i + n ≡ 8 → FirstAt (bit byte) false i 8 (first_zero_from n byte i)
unfolding first_zero_from
first_zero-FirstAt zero byte i e = FirstAt-empty (bit byte) false i 8 (omega arith)
first_zero-FirstAt (suc n) byte i e = elim (Bool-cases (is_clear byte i)) [
  | inl c ↦ rw c (FirstAt-here (bit byte) false i 8 (omega arith) (rw c))
  | inr c ↦ rw c (
      FirstAt-append (bit byte) false i (i + 1) 8 _ (omega arith)
        (λ j a b. let e' : j ≡ i = omega arith in rw (e', c))
        (first_zero-FirstAt n byte (i + 1) (omega arith)))
]

first_setted-FirstAt :
    (n byte i : ℕ) → i + n ≡ 8 → FirstAt (bit byte) true i 8 (first_setted_from n byte i)
unfolding first_setted_from
first_setted-FirstAt zero byte i e = FirstAt-empty (bit byte) true i 8 (omega arith)
first_setted-FirstAt (suc n) byte i e = elim (Bool-cases (is_clear byte i)) [
  | inr c ↦ rw c (FirstAt-here (bit byte) true i 8 (omega arith) (rw c))
  | inl c ↦ rw c (
      FirstAt-append (bit byte) true i (i + 1) 8 _ (omega arith)
        (λ j a b. let e' : j ≡ i = omega arith in rw (e', c))
        (first_setted-FirstAt n byte (i + 1) (omega arith)))
]

-- Bit `j` of byte `iter` is bit `iter * 8 + j` of the map.
get_bit-byte :
    (b : Bitmap) (iter byte j : ℕ)
    → get_or b.bitmap iter 0 ≡ byte
    → j < 8
    → get_bit b (iter * 8 + j) ≡ bit byte j
unfolding get_bit
get_bit-byte b iter byte j e h =
    let q : (iter * 8 + j) / 8 ≡ iter = omega arith in
    let r : (iter * 8 + j) % 8 ≡ j = omega arith in rw (q, r, e)

-- What one round of either loop gives: `test` is the shortcut for a byte without hits.
abbrev round : Bool → ℕ → Option ℕ → Option ℕ → Option ℕ
round test iter o rest =
    if test then rest else elim o [ none ↦ rest | some k ↦ some (iter * 8 + k) ]

-- One byte searched in vain, then the rest; or a hit in the byte.
module _ (b : Bitmap) (want : Bool) (iter s top : ℕ) (byte : ℕ)
    (read : get_or b.bitmap iter 0 ≡ byte) where
  lift_byte :
      (o : Option ℕ)
      → FirstAt (bit byte) want s 8 o
      → FirstAt
          (get_bit b)
          want
          (iter * 8 + s)
          (iter * 8 + 8)
          (elim o [ none ↦ none | some k ↦ some (iter * 8 + k) ])
  lift_byte o f =
      FirstAt-shift (bit byte) (get_bit b) want (iter * 8) s 8 o
        (λ j h. get_bit-byte b iter byte j read h) f

  pass_byte :
      (rest : Option ℕ)
      → s ≤ 8
      → FirstAt (bit byte) want s 8 none
      → FirstAt (get_bit b) want ((iter + 1) * 8 + 0) top rest
      → FirstAt (get_bit b) want (iter * 8 + s) top rest
  pass_byte rest h f g =
      FirstAt-append (get_bit b) want (iter * 8 + s) (iter * 8 + 8) top rest (omega arith)
        (lift_byte none f) (let e : (iter + 1) * 8 + 0 ≡ iter * 8 + 8 = omega arith in rw e at g)

  in_byte :
      (o rest : Option ℕ)
      → s ≤ 8
      → iter * 8 + 8 ≤ top
      → FirstAt (bit byte) want s 8 o
      → FirstAt (get_bit b) want ((iter + 1) * 8 + 0) top rest
      → FirstAt
          (get_bit b)
          want
          (iter * 8 + s)
          top
          (elim o [ none ↦ rest | some k ↦ some (iter * 8 + k) ])
  in_byte none rest h t f g = pass_byte rest h f g
  in_byte (some k) rest h t f g =
      FirstAt-widen (get_bit b) want (iter * 8 + s) (iter * 8 + 8) top (iter * 8 + k) t
        (lift_byte (some k) f)

  round-FirstAt :
      (test : Bool) (o rest : Option ℕ)
      → s ≤ 8
      → iter * 8 + 8 ≤ top
      → (test ≡ true → FirstAt (bit byte) want s 8 none)
      → FirstAt (bit byte) want s 8 o
      → FirstAt (get_bit b) want ((iter + 1) * 8 + 0) top rest
      → FirstAt (get_bit b) want (iter * 8 + s) top (round test iter o rest)
  round-FirstAt true o rest h t p f g = pass_byte rest h (p refl) g
  round-FirstAt false o rest h t p f g = in_byte o rest h t f g

unsetted_from-FirstAt :
    (b : Bitmap) (n iter s top : ℕ)
    → top ≡ (iter + n) * 8
    → s ≤ 8
    → FirstAt (get_bit b) false (iter * 8 + s) top (unsetted_from n b.bitmap iter s)
unfolding unsetted_from find_first_zero
unsetted_from-FirstAt b zero iter s top e h =
    FirstAt-empty (get_bit b) false (iter * 8 + s) top (omega arith)
unsetted_from-FirstAt b (suc n) iter s top e h =
    let byte = get_or b.bitmap iter 0 in
    round-FirstAt b false iter s top byte refl (byte == 255) (find_first_zero byte s)
      (unsetted_from n b.bitmap (iter + 1) 0) h (omega arith)
      (λ full j _ l. let e' : byte ≡ 255 = (==_iff byte 255).0 full in rw (e', is_clear-full j l))
      (first_zero-FirstAt (8 - s) byte s (omega arith))
      (unsetted_from-FirstAt b n (iter + 1) 0 top (omega arith) (omega arith))

setted_from-FirstAt :
    (b : Bitmap) (n iter s top : ℕ)
    → top ≡ (iter + n) * 8
    → s ≤ 8
    → FirstAt (get_bit b) true (iter * 8 + s) top (setted_from n b.bitmap iter s)
unfolding setted_from find_first_setted
setted_from-FirstAt b zero iter s top e h =
    FirstAt-empty (get_bit b) true (iter * 8 + s) top (omega arith)
setted_from-FirstAt b (suc n) iter s top e h =
    let byte = get_or b.bitmap iter 0 in
    round-FirstAt b true iter s top byte refl (byte == 0) (find_first_setted byte s)
      (setted_from n b.bitmap (iter + 1) 0) h (omega arith)
      (λ empty j _ l. let e' : byte ≡ 0 = (==_iff byte 0).0 empty in rw (e', is_clear-zero j l))
      (first_setted-FirstAt (8 - s) byte s (omega arith))
      (setted_from-FirstAt b n (iter + 1) 0 top (omega arith) (omega arith))

-- `if (ret >= size_) ret = -1` narrows the range from whole bytes to `size` bits.
within-FirstAt :
    (p : ℕ → Bool) (want : Bool) (lo size top : ℕ) (o : Option ℕ)
    → size ≤ top
    → FirstAt p want lo top o
    → FirstAt p want lo size (within size o)
within-FirstAt p want lo size top none h f = FirstAt-shorten p want lo size top h f
within-FirstAt p want lo size top (some k) h f = elim (Bool-cases (leb size k)) [
  | inl big ↦ rw big (FirstAt-cut p want lo size top k (ground arith) f)
  | inr small ↦ rw small (f.0, ground arith, f.2, f.3)
]

-- The bytes from `start / 8` to the end of the map hold the bits from `start` to the end.
whole_bytes :
    (size start : ℕ)
    → start ≤ size
    → let top = (start / 8 + (bytes size - start / 8)) * 8 in
      (size ≤ top) × (start / 8 * 8 + start % 8 ≡ start)
unfolding bytes
whole_bytes size start h = ground arith

-- For a start inside the map, `next_unsetted_bit` returns the first index of [start, size) whose bit
-- is clear, and -1 exactly if every bit of that range is set.
pub next_unsetted_bit_first :
    (b : Bitmap) (start : ℕ)
    → start ≤ b.size
    → FirstAt (get_bit b) false start b.size (next_unsetted_bit b start)
unfolding next_unsetted_bit
next_unsetted_bit_first b start h =
    within-FirstAt (get_bit b) false start b.size ((start / 8 + (bytes b.size - start / 8)) * 8)
      (unsetted_from (bytes b.size - start / 8) b.bitmap (start / 8) (start % 8))
      (whole_bytes b.size start h).0
      (subst
        (λ lo.
          FirstAt (get_bit b) false lo ((start / 8 + (bytes b.size - start / 8)) * 8)
            (unsetted_from (bytes b.size - start / 8) b.bitmap (start / 8) (start % 8)))
        (whole_bytes b.size start h).1
        (unsetted_from-FirstAt b (bytes b.size - start / 8) (start / 8) (start % 8) _ refl
          (omega arith)))

-- For a start inside the map, `next_setted_bit` returns the first index of [start, size) whose bit is
-- set, and -1 exactly if every bit of that range is clear.
pub next_setted_bit_first :
    (b : Bitmap) (start : ℕ)
    → start ≤ b.size
    → FirstAt (get_bit b) true start b.size (next_setted_bit b start)
unfolding next_setted_bit
next_setted_bit_first b start h =
    within-FirstAt (get_bit b) true start b.size ((start / 8 + (bytes b.size - start / 8)) * 8)
      (setted_from (bytes b.size - start / 8) b.bitmap (start / 8) (start % 8))
      (whole_bytes b.size start h).0
      (subst
        (λ lo.
          FirstAt (get_bit b) true lo ((start / 8 + (bytes b.size - start / 8)) * 8)
            (setted_from (bytes b.size - start / 8) b.bitmap (start / 8) (start % 8)))
        (whole_bytes b.size start h).1
        (setted_from-FirstAt b (bytes b.size - start / 8) (start / 8) (start % 8) _ refl
          (omega arith)))
