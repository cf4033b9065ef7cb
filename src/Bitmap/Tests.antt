-- ===== src/Bitmap/Tests.antt =====
-- Runs of the bitmap on two bytes.
use ob_preliminary.Common.{◌≡◌, refl, none, some, [], ◌∷◌, arith}
use ob_preliminary.Bitmap.{Bitmap, bytes, next_unsetted_bit, next_setted_bit}
use ob_preliminary.Bitmap.Ops.{IsBitmap}

-- Bits 0 to 10 are set, bit 11 is not, and the map ends at 12.
abbrev map : Bitmap
map = record { bitmap = 255 ∷ 7 ∷ []; size = 12 }

map-IsBitmap : IsBitmap map
unfolding bytes
map-IsBitmap = record { room = omega arith; byte = (omega arith, (omega arith, tt)) }

free_bit : next_unsetted_bit map 3 ≡ some 11
unfolding next_unsetted_bit bytes
free_bit = refl

none_past_eleven : next_setted_bit map 11 ≡ none
unfolding next_setted_bit bytes
none_past_eleven = refl
