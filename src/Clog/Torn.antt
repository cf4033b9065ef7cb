-- ===== src/Clog/Torn.antt =====
-- `iterate` on a file whose last entry was not written whole.
use cubical.Cubical.Foundations.Prelude.{fun_ext}
use ob_preliminary.Common.{
  ℕ, suc, ◌+◌, ◌-◌, ◌<◌, ◌≡◌, refl, sym, ap, ◌∙◌, subst, Bool, true, false, none, List, [], ◌∷◌,
  ◌++◌, if◌then◌else◌, length, drop, arith,
}
use ob_preliminary.Common.Int.{pos, pos_part, leb_ℤ}
use ob_preliminary.Common.Rc.{Rc}
use ob_preliminary.Clog.{LogHeader, LogEntry, log_header_size, header_bytes}
use ob_preliminary.Clog.Reader.{
  readn, bad_size, skip_header, skip_to, take_header, take_payload, visit, iterate,
}
use ob_preliminary.Clog.Codec.{IsHeader, length-header_bytes, read_header-header_bytes}
use ob_preliminary.Clog.Reading.{
  AllEntries, encode, readn_lem, none_there, visit_then, visit-encode,
}
use ob_preliminary.Clog.Skipping.{encode-length, after_skip}

skip_none :
    (fuel : ℕ) (h : LogHeader) (rest : List ℕ)
    → IsHeader h
    → skip_to (suc fuel) (header_bytes h ++ rest) (pos 0) ≡ (Rc.success, header_bytes h ++ rest)
unfolding skip_to skip_header
skip_none fuel h rest v =
    let file = header_bytes h ++ rest in
    let next = λ (rest' : List ℕ). skip_to fuel rest' (pos 0) in
    let known : leb_ℤ (pos 0) h.lsn ≡ true =
      subst (λ z. leb_ℤ (pos 0) z ≡ true) (sym v.lsn_is) (ground arith) in
    ap (skip_header next file (pos 0))
      (readn_lem (header_bytes h) rest log_header_size (length-header_bytes h))
    ∙ ap
        (λ (h' : LogHeader). elim (leb_ℤ (pos 0) h'.lsn) as (λ x. Rc × List ℕ) [
          | true ↦ (Rc.success, file)
          | false ↦ elim (bad_size h'.size) as (λ x. Rc × List ℕ) [
            | true ↦ (Rc.ioerr_read, rest)
            | false ↦ next (drop (pos_part h'.size) rest)
          ]
        ])
        (read_header-header_bytes h v)
    ∙ ap
        (λ b. elim b as (λ x. Rc × List ℕ) [
          | true ↦ (Rc.success, file)
          | false ↦ elim (bad_size h.size) as (λ x. Rc × List ℕ) [
            | true ↦ (Rc.ioerr_read, rest)
            | false ↦ next (drop (pos_part h.size) rest)
          ]
        ])
        known

skip_none-encode :
    (fuel : ℕ) (es : List LogEntry) (h : LogHeader) (rest : List ℕ)
    → AllEntries es
    → IsHeader h
    → skip_to (suc fuel) (encode es (header_bytes h ++ rest)) (pos 0)
      ≡ (Rc.success, encode es (header_bytes h ++ rest))
unfolding encode
skip_none-encode fuel [] h rest v vh = skip_none fuel h rest vh
skip_none-encode fuel (e ∷ es) h rest v vh =
    skip_none fuel (e.header) (e.data_bytes ++ encode es (header_bytes h ++ rest)) (v.0.header_ok)

visit_torn :
    {S : Type 0} (callback : S → LogEntry → Rc × S) (fuel : ℕ) (s : S) (h : LogHeader)
    (part : List ℕ) (v : IsHeader h)
    → length part < v.payload
    → visit callback (suc fuel) s (header_bytes h ++ part) ≡ (Rc.ioerr_read, s)
unfolding visit take_header take_payload
visit_torn {S = S} callback fuel s h part v short =
    let next = visit callback fuel in
    ap (take_header callback next s)
      (readn_lem (header_bytes h) part log_header_size (length-header_bytes h))
    ∙ ap
        (λ (h' : LogHeader).
          if bad_size h'.size
          then (Rc.ioerr_read, s)
          else take_payload callback next s h' (readn part (pos_part h'.size)))
        (read_header-header_bytes h v)
    ∙ ap (λ x. if bad_size h.size then (Rc.ioerr_read, s) else take_payload callback next s h x)
        missing
    ∙ either (bad_size h.size)
  where
    missing : readn part (pos_part h.size) ≡ (none, [])
    missing =
        subst (λ z. readn part (pos_part z) ≡ (none, [])) (sym v.size_is)
          (none_there part v.payload short)

    either :
        (b : Bool)
        → ◌≡◌ {A = Rc × S} (if b then (Rc.ioerr_read, s) else (Rc.ioerr_read, s)) (Rc.ioerr_read, s)
    either true = refl
    either false = refl

-- Reading a file of well-formed entries, whose last entry lost some of its payload, from number 0 on: the entries
-- before it are visited, each once and in order, until the callback fails, and then the code is the callback's; if it
-- fails for none of them, the code is IOERR_READ.
pub iterate_torn :
    {S : Type 0} (callback : S → LogEntry → Rc × S) (s : S) (es : List LogEntry) (h : LogHeader)
    (part : List ℕ) (v : IsHeader h)
    → AllEntries es
    → length part < v.payload
    → iterate callback s (encode es (header_bytes h ++ part)) (pos 0)
      ≡ visit_then callback es s (λ s'. (Rc.ioerr_read, s'))
iterate_torn callback s es h part v ves short =
    let rest = header_bytes h ++ part in
    let file = encode es rest in
    let left = length file - length es in
    let fuel : suc (length file) ≡ length es + suc left = omega (arith, encode-length es rest) in
    after_skip callback s file file (pos 0) (skip_none-encode (length file) es h part ves v)
    ∙ ap (λ n. visit callback n s file) fuel
    ∙ visit-encode callback es (suc left) s rest ves
    ∙ ap (visit_then callback es s) (fun_ext (λ s'. visit_torn callback left s' h part v short))
