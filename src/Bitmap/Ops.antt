-- ===== src/Bitmap/Ops.antt =====
-- `set_bit` and `clear_bit` on one bit, every other bit unchanged.
use ob_preliminary.Common.{
  ℕ, zero, suc, ◌/◌, ◌%◌, ◌-◌, ◌^◌, ◌<◌, ◌≤◌, ◌≡◌, ◌≢◌, Bool, true, false, not, List, [], ◌∷◌, ◌==◌,
  if◌then◌else◌, get_or, set, length, length-set, get_or-set_self, get_or-set_ne, bit_or, bit_and,
  arith, inl, inr, Bool-cases,
}
use ob_preliminary.Bitmap.{Bitmap, is_clear, bytes, get_bit, set_bit, clear_bit}
use ob_preliminary.Bitmap.Bits.{is_clear-set, is_clear-clear, bytes_stay}

abbrev pub AllBytes : List ℕ → Type 0
AllBytes [] = Unit {0}
AllBytes (x ∷ xs) = (x < 256) × AllBytes xs

-- The memory behind a bitmap: whole bytes, enough for `size` bits.
pub record IsBitmap (b : Bitmap) : Type 0 where
  pub room : bytes b.size ≤ length b.bitmap
  pub byte : AllBytes b.bitmap

pub AllBytes-get_or : (xs : List ℕ) (i : ℕ) → AllBytes xs → get_or xs i 0 < 256
AllBytes-get_or [] i h = omega arith
AllBytes-get_or (x ∷ xs) zero h = h.0
AllBytes-get_or (x ∷ xs) (suc i) h = AllBytes-get_or xs i h.1

AllBytes-set : (xs : List ℕ) (i v : ℕ) → v < 256 → AllBytes xs → AllBytes (set xs i v)
AllBytes-set [] i v hv h = tt
AllBytes-set (x ∷ xs) zero v hv h = (hv, h.1)
AllBytes-set (x ∷ xs) (suc i) v hv h = (h.0, AllBytes-set xs i v hv h.1)

byte-lt : (size i : ℕ) → i < size → i / 8 < bytes size
unfolding bytes
byte-lt size i h = ground arith

pub in_room : (b : Bitmap) (i : ℕ) → IsBitmap b → i < b.size → i / 8 < length b.bitmap
in_room b i v h = omega (arith, byte-lt b.size i h, v.room)

-- An update of the byte of bit `i` that turns bit `i` into `to` and keeps the byte's other bits.
module _ (b : Bitmap) (i j byte : ℕ) (to : Bool) (h : i / 8 < length b.bitmap) where
  update_byte :
      ((k : ℕ)
        → k < 8
        → is_clear byte k ≡ (if k == i % 8 then to else is_clear (get_or b.bitmap (i / 8) 0) k))
      → not (is_clear (get_or (set b.bitmap (i / 8) byte) (j / 8) 0) (j % 8))
        ≡ (if j == i then not to else not (is_clear (get_or b.bitmap (j / 8) 0) (j % 8)))
  update_byte same = elim (Bool-cases (j / 8 == i / 8)) [
    | inl e ↦
        let e' : j / 8 ≡ i / 8 = ground arith in
        rw (e', get_or-set_self b.bitmap (i / 8) byte 0 h, same (j % 8) (omega arith))
          (ground arith)
    | inr e ↦
        let ne : i / 8 ≢ j / 8 = ground arith in
        rw (get_or-set_ne b.bitmap (i / 8) (j / 8) byte 0 ne) (ground arith)
  ]

-- Setting a bit inside the map makes that bit one and leaves every other bit as it was.
pub get_bit-set_bit :
    (b : Bitmap) (i j : ℕ)
    → IsBitmap b
    → i < b.size
    → get_bit (set_bit b i) j ≡ (if j == i then true else get_bit b j)
unfolding get_bit set_bit
get_bit-set_bit b i j v h = update_byte b i j _ false (in_room b i v h) (λ k hk.
    is_clear-set (get_or b.bitmap (i / 8) 0) (i % 8) k (AllBytes-get_or b.bitmap (i / 8) v.byte)
      (omega arith) hk)

-- Clearing a bit inside the map makes that bit zero and leaves every other bit as it was.
pub get_bit-clear_bit :
    (b : Bitmap) (i j : ℕ)
    → IsBitmap b
    → i < b.size
    → get_bit (clear_bit b i) j ≡ (if j == i then false else get_bit b j)
unfolding get_bit clear_bit
get_bit-clear_bit b i j v h = update_byte b i j _ true (in_room b i v h) (λ k hk.
    is_clear-clear (get_or b.bitmap (i / 8) 0) (i % 8) k (AllBytes-get_or b.bitmap (i / 8) v.byte)
      (omega arith) hk)

pub set_bit-IsBitmap : (b : Bitmap) (i : ℕ) → IsBitmap b → IsBitmap (set_bit b i)
unfolding set_bit
set_bit-IsBitmap b i v = record {
  room = omega (arith, length-set b.bitmap (i / 8) new, v.room);
  byte =
      AllBytes-set b.bitmap (i / 8) new
        (bytes_stay (get_or b.bitmap (i / 8) 0) (i % 8) (AllBytes-get_or b.bitmap (i / 8) v.byte)
          (omega arith)).0
        v.byte;
}
  where
    new : ℕ
    new = bit_or (get_or b.bitmap (i / 8) 0) (2 ^ (i % 8))

pub clear_bit-IsBitmap : (b : Bitmap) (i : ℕ) → IsBitmap b → IsBitmap (clear_bit b i)
unfolding clear_bit
clear_bit-IsBitmap b i v = record {
  room = omega (arith, length-set b.bitmap (i / 8) new, v.room);
  byte =
      AllBytes-set b.bitmap (i / 8) new
        (bytes_stay (get_or b.bitmap (i / 8) 0) (i % 8) (AllBytes-get_or b.bitmap (i / 8) v.byte)
          (omega arith)).1
        v.byte;
}
  where
    new : ℕ
    new = bit_and (get_or b.bitmap (i / 8) 0) (255 - 2 ^ (i % 8))
