-- ===== src/Clog/Reading.antt =====
-- `iterate` on the bytes of well-formed entries.
use ob_preliminary.Common.{
  ℕ, suc, ◌+◌, ◌≤◌, ◌<◌, ◌≡◌, refl, sym, ap, ap₂, ◌∙◌, subst, Bool, true, false, none, some, List,
  [], ◌∷◌, ◌++◌, leb, if◌then◌else◌, length, length-append, arith,
}
use ob_preliminary.Common.Int.{pos, pos_part}
use ob_preliminary.Common.Rc.{Rc, ob_succ}
use ob_preliminary.Clog.{LogEntry, log_header_size, max_payload_size, header_bytes}
use ob_preliminary.Clog.Reader.{readn, bad_size, take_header, take_payload, visit}
use ob_preliminary.Clog.Codec.{
  IsHeader, take-append, drop-append, length-header_bytes, read_header-header_bytes,
}

-- An entry as `init` and `set_lsn` make it.
pub record IsEntry (e : LogEntry) : Type 0 where
  pub header_ok : IsHeader (e.header)
  pub size_ok : e.header.size ≡ pos (length e.data_bytes)
  pub small : length e.data_bytes ≤ max_payload_size

-- The bytes of entries, then others.
unfoldable pub encode : List LogEntry → List ℕ → List ℕ
encode [] rest = rest
encode (e ∷ es) rest = header_bytes (e.header) ++ (e.data_bytes ++ encode es rest)

abbrev pub AllEntries : List LogEntry → Type 0
AllEntries [] = Unit {0}
AllEntries (e ∷ es) = IsEntry e × AllEntries es

pub readn_lem : (xs ys : List ℕ) (n : ℕ) → length xs ≡ n → readn (xs ++ ys) n ≡ (some xs, ys)
unfolding readn
readn_lem xs ys n e =
    let enough : leb n (length (xs ++ ys)) ≡ true = ground (arith, length-append xs ys) in
    rw enough (ap₂ (λ a b. (some a, b)) (take-append n xs ys e) (drop-append n xs ys e))

pub none_there : (part : List ℕ) (n : ℕ) → length part < n → readn part n ≡ (none, [])
unfolding readn
none_there part n h = let short : leb n (length part) ≡ false = ground arith in rw short

pub good_size : (e : LogEntry) → IsEntry e → bad_size e.header.size ≡ false
good_size e v = subst (λ z. bad_size z ≡ false) (sym v.size_ok) (ground (arith, v.small))

-- The entries that a callback is given, and what follows.
module _ {S : Type 0} (callback : S → LogEntry → Rc × S) where
  abbrev pub visit_then : List LogEntry → S → (S → Rc × S) → Rc × S
  visit_then [] s after = after s
  visit_then (e ∷ es) s after =
      if ob_succ (callback s e).0 then visit_then es (callback s e).1 after else callback s e

  visit_round :
      (fuel : ℕ) (s : S) (e : LogEntry) (rest : List ℕ)
      → IsEntry e
      → visit callback (suc fuel) s (header_bytes (e.header) ++ (e.data_bytes ++ rest)) ≡ (
          if ob_succ (callback s e).0
          then visit callback fuel (callback s e).1 rest
          else callback s e)
  unfolding visit take_header take_payload
  visit_round fuel s e rest v =
      let h = e.header in
      let payload = e.data_bytes in
      let next = visit callback fuel in
      ap (take_header callback next s)
        (readn_lem (header_bytes h) (payload ++ rest) log_header_size (length-header_bytes h))
      ∙ ap
          (λ h'.
            if bad_size h'.size
            then (Rc.ioerr_read, s)
            else take_payload callback next s h' (readn (payload ++ rest) (pos_part h'.size)))
          (read_header-header_bytes h v.header_ok)
      ∙ ap
          (λ b.
            if b
            then (Rc.ioerr_read, s)
            else take_payload callback next s h (readn (payload ++ rest) (pos_part h.size)))
          (good_size e v)
      ∙ ap (take_payload callback next s h)
          (readn_lem payload rest (pos_part h.size) (ap pos_part (sym v.size_ok)))
      ∙ choose (ob_succ (callback s e).0)
    where
      choose :
          (b : Bool)
          → elim b as (λ x. Rc × S) [
            | true ↦ visit callback fuel (callback s e).1 rest
            | false ↦ callback s e
          ]
            ≡ (if b then visit callback fuel (callback s e).1 rest else callback s e)
      choose true = refl
      choose false = refl

  -- Fuel for a round per entry, and the rest of the file with what is left of it.
  pub visit-encode :
      (es : List LogEntry) (fuel : ℕ) (s : S) (rest : List ℕ)
      → AllEntries es
      → visit callback (length es + fuel) s (encode es rest)
        ≡ visit_then es s (λ s'. visit callback fuel s' rest)
  unfolding encode
  visit-encode [] fuel s rest v = let e : 0 + fuel ≡ fuel = omega arith in rw e
  visit-encode (e ∷ es) fuel s rest v =
      let one : length (e ∷ es) + fuel ≡ suc (length es + fuel) = omega arith in
      ap (λ n. visit callback n s (encode (e ∷ es) rest)) one
      ∙ visit_round (length es + fuel) s e (encode es rest) v.0
      ∙ ap (λ r. if ob_succ (callback s e).0 then r else callback s e)
          (visit-encode es fuel (callback s e).1 rest v.1)
