-- ===== src/Clog/Codec.antt =====
-- The bytes of headers and entries, and that they are read back.
use ob_preliminary.Common.{
  ℕ, zero, suc, ◌/◌, ◌%◌, ◌^◌, ◌<◌, ◌≡◌, refl, sym, ap, ◌∙◌, subst, List, [], ◌∷◌, ◌++◌, length,
  length-append, take, drop, arith,
}
use ob_preliminary.Common.Int.{pos}
use ob_preliminary.Clog.{
  LogHeader, log_header_size, signed, bits_of, le, le_value, header_bytes, read_header,
}

pub length-le : (n x : ℕ) → length (le n x) ≡ n
unfolding le
length-le zero x = refl
length-le (suc n) x = ap suc (length-le n (x / 256))

le_value-le : (n x : ℕ) → x < 256 ^ n → le_value (le n x) ≡ x
unfolding le le_value
le_value-le zero x h = omega arith
le_value-le (suc n) x h = omega (arith, le_value-le n (x / 256) (grind arith))

pub take-append : (n : ℕ) (xs ys : List ℕ) → length xs ≡ n → take n (xs ++ ys) ≡ xs
take-append zero [] ys e = refl
take-append zero (x ∷ xs) ys e = absurd (omega arith)
take-append (suc n) [] ys e = absurd (omega arith)
take-append (suc n) (x ∷ xs) ys e = ap (◌∷◌ x) (take-append n xs ys (omega arith))

pub drop-append : (n : ℕ) (xs ys : List ℕ) → length xs ≡ n → drop n (xs ++ ys) ≡ ys
drop-append zero [] ys e = refl
drop-append zero (x ∷ xs) ys e = absurd (omega arith)
drop-append (suc n) [] ys e = absurd (omega arith)
drop-append (suc n) (x ∷ xs) ys e = drop-append n xs ys (omega arith)

-- A header whose fields are in the range of their types and not negative.
pub record IsHeader (h : LogHeader) : Type 0 where
  pub number : ℕ
  pub payload : ℕ
  pub module_number : ℕ
  pub lsn_is : h.lsn ≡ pos number
  pub size_is : h.size ≡ pos payload
  pub module_is : h.module_id ≡ pos module_number
  pub lsn_fits : number < 2 ^ 63
  pub size_fits : payload < 2 ^ 31
  pub module_fits : module_number < 2 ^ 31

signed_back : (n : ℕ) → n < 2 ^ 31 → signed 32 (le_value (le 4 (bits_of 32 (pos n)))) ≡ pos n
signed_back n h = ap (signed 32) (le_value-le 4 (n % 2 ^ 32) (omega arith)) ∙ ground arith

signed_back_64 : (n : ℕ) → n < 2 ^ 63 → signed 64 (le_value (le 8 (bits_of 64 (pos n)))) ≡ pos n
signed_back_64 n h = ap (signed 64) (le_value-le 8 (n % 2 ^ 64) (omega arith)) ∙ ground arith

pub length-header_bytes : (h : LogHeader) → length (header_bytes h) ≡ log_header_size
unfolding header_bytes
length-header_bytes h = omega (
  arith,
  length-append (le 8 (bits_of 64 h.lsn))
      (le 4 (bits_of 32 h.size) ++ le 4 (bits_of 32 h.module_id)),
  length-append (le 4 (bits_of 32 h.size)) (le 4 (bits_of 32 h.module_id)),
  length-le 8 (bits_of 64 h.lsn),
  length-le 4 (bits_of 32 h.size),
  length-le 4 (bits_of 32 h.module_id),
)

-- A header in the range of its fields is read back from its bytes.
pub read_header-header_bytes : (h : LogHeader) → IsHeader h → read_header (header_bytes h) ≡ h
unfolding header_bytes read_header
read_header-header_bytes h v =
    let lsn_back =
      subst (λ z. signed 64 (le_value (le 8 (bits_of 64 z))) ≡ z) (sym v.lsn_is)
        (signed_back_64 v.number v.lsn_fits) in
    let size_back =
      subst (λ z. signed 32 (le_value (le 4 (bits_of 32 z))) ≡ z) (sym v.size_is)
        (signed_back v.payload v.size_fits) in
    let module_back =
      subst (λ z. signed 32 (le_value (le 4 (bits_of 32 z))) ≡ z) (sym v.module_is)
        (signed_back v.module_number v.module_fits) in
    λ i. record { lsn = lsn_back i; size = size_back i; module_id = module_back i }
