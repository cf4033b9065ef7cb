-- ===== src/Clog/Skipping.antt =====
-- `skip_to` and `iterate` on the bytes of well-formed entries.
use cubical.Cubical.Foundations.Prelude.{fun_ext}
use ob_preliminary.Common.{
  ℕ, zero, suc, ◌+◌, ◌-◌, ◌≤◌, ◌<◌, ◌≡◌, refl, sym, ap, ◌∙◌, inl, inr, Bool, true, false, List, [],
  ◌∷◌, ◌++◌, leb, if◌then◌else◌, length, length-append, drop, arith, Bool-cases,
}
use ob_preliminary.Common.Int.{ℤ, pos_part, leb_ℤ}
use ob_preliminary.Common.Rc.{Rc, ob_succ}
use ob_preliminary.Clog.{LogHeader, LogEntry, log_header_size, header_bytes}
use ob_preliminary.Clog.Reader.{readn, bad_size, skip_header, skip_to, take_header, visit, iterate}
use ob_preliminary.Clog.Codec.{drop-append, length-header_bytes, read_header-header_bytes}
use ob_preliminary.Clog.Reading.{
  IsEntry, AllEntries, encode, readn_lem, good_size, visit_then, visit-encode,
}

-- The entries from the first on whose number is `start_lsn` or more.
abbrev pub from : ℤ → List LogEntry → List LogEntry
from start_lsn [] = []
from start_lsn (e ∷ es) = if leb_ℤ start_lsn e.header.lsn then e ∷ es else from start_lsn es

-- The end of a file that is reached in no header, or in a torn one.
skip_end :
    (fuel : ℕ) (rest : List ℕ) (start_lsn : ℤ)
    → length rest < log_header_size
    → skip_to (suc fuel) rest start_lsn ≡ (Rc.success, [])
unfolding skip_to skip_header readn
skip_end fuel rest start_lsn h =
    let short : leb log_header_size (length rest) ≡ false = ground arith in rw short

visit_end :
    {S : Type 0} (callback : S → LogEntry → Rc × S) (fuel : ℕ) (s : S) (rest : List ℕ)
    → length rest < log_header_size
    → visit callback (suc fuel) s rest ≡ (Rc.success, s)
unfolding visit take_header readn
visit_end callback fuel s rest h =
    let short : leb log_header_size (length rest) ≡ false = ground arith in rw short

skip_round :
    (fuel : ℕ) (e : LogEntry) (rest : List ℕ) (start_lsn : ℤ)
    → IsEntry e
    → skip_to (suc fuel) (header_bytes (e.header) ++ (e.data_bytes ++ rest)) start_lsn ≡ (
        if leb_ℤ start_lsn e.header.lsn
        then (Rc.success, header_bytes (e.header) ++ (e.data_bytes ++ rest))
        else skip_to fuel rest start_lsn)
unfolding skip_to skip_header
skip_round fuel e rest start_lsn v =
    let h = e.header in
    let payload = e.data_bytes in
    let file = header_bytes h ++ (payload ++ rest) in
    let next = λ (rest' : List ℕ). skip_to fuel rest' start_lsn in
    ap (skip_header next file start_lsn)
      (readn_lem (header_bytes h) (payload ++ rest) log_header_size (length-header_bytes h))
    ∙ ap
        (λ (h' : LogHeader). elim (leb_ℤ start_lsn h'.lsn) as (λ x. Rc × List ℕ) [
          | true ↦ (Rc.success, file)
          | false ↦ elim (bad_size h'.size) as (λ x. Rc × List ℕ) [
            | true ↦ (Rc.ioerr_read, payload ++ rest)
            | false ↦ next (drop (pos_part h'.size) (payload ++ rest))
          ]
        ])
        (read_header-header_bytes h v.header_ok)
    ∙ choose (leb_ℤ start_lsn h.lsn) (bad_size h.size) (good_size e v)
        (drop-append (pos_part h.size) payload rest (ap pos_part (sym v.size_ok)))
  where
    choose :
        (b bad : Bool)
        → bad ≡ false
        → drop (pos_part e.header.size) (e.data_bytes ++ rest) ≡ rest
        → elim b as (λ x. Rc × List ℕ) [
          | true ↦ (Rc.success, header_bytes (e.header) ++ (e.data_bytes ++ rest))
          | false ↦ elim bad as (λ x. Rc × List ℕ) [
            | true ↦ (Rc.ioerr_read, e.data_bytes ++ rest)
            | false ↦ skip_to fuel (drop (pos_part e.header.size) (e.data_bytes ++ rest)) start_lsn
          ]
        ]
          ≡ (if b
              then (Rc.success, header_bytes (e.header) ++ (e.data_bytes ++ rest))
              else skip_to fuel rest start_lsn)
    choose true bad good past = refl
    choose false true good past = absurd (ground arith)
    choose false false good past = ap (λ f. skip_to fuel f start_lsn) past

skip_to-encode :
    (es : List LogEntry) (fuel : ℕ) (rest : List ℕ) (start_lsn : ℤ)
    → AllEntries es
    → length rest < log_header_size
    → length es < fuel
    → (rest' : List ℕ) × (skip_to fuel (encode es rest) start_lsn
        ≡ (Rc.success, encode (from start_lsn es) rest'))
      × (length rest' < log_header_size)
      × AllEntries (from start_lsn es)
      × (length (from start_lsn es) ≤ length es)
unfolding encode
skip_to-encode es zero rest start_lsn v h l = absurd (omega arith)
skip_to-encode [] (suc fuel) rest start_lsn v h l =
    ([], skip_end fuel rest start_lsn h, omega arith, tt, omega arith)
skip_to-encode (e ∷ es) (suc fuel) rest start_lsn v h l =
    elim (Bool-cases (leb_ℤ start_lsn e.header.lsn)) [
      | inl here ↦ (
        rest,
        skip_round fuel e (encode es rest) start_lsn v.0 ∙ rw here refl,
        h,
        rw here v,
        rw here (omega arith),
      )
      | inr past ↦
          let (rest', run, h', v', l') =
            skip_to-encode es fuel rest start_lsn v.1 h (omega arith) in
          (
            rest',
            skip_round fuel e (encode es rest) start_lsn v.0 ∙ rw past run,
            h',
            rw past v',
            rw past (omega (arith, l')),
          )
    ]

pub encode-length :
    (es : List LogEntry) (rest : List ℕ) → length es + length rest ≤ length (encode es rest)
unfolding encode
encode-length [] rest = omega arith
encode-length (e ∷ es) rest = omega (
  arith,
  encode-length es rest,
  length-append (header_bytes (e.header)) (e.data_bytes ++ encode es rest),
  length-append e.data_bytes (encode es rest),
  length-header_bytes (e.header),
)

pub after_skip :
    {S : Type 0} (callback : S → LogEntry → Rc × S) (s : S) (file rest : List ℕ) (start_lsn : ℤ)
    → skip_to (suc (length file)) file start_lsn ≡ (Rc.success, rest)
    → iterate callback s file start_lsn ≡ visit callback (suc (length file)) s rest
unfolding iterate
after_skip callback s file rest start_lsn e =
    ap (λ p. if ob_succ p.0 then visit callback (suc (length file)) s p.1 else (p.0, s)) e

-- Reading a file of well-formed entries, with less than a header behind them at most, visits exactly the entries
-- from the first on whose number is `start_lsn` or more, each once and in order, until the callback
-- fails; the code is the callback's, or SUCCESS at the end.
pub iterate_lem :
    {S : Type 0} (callback : S → LogEntry → Rc × S) (s : S) (es : List LogEntry) (rest : List ℕ)
    (start_lsn : ℤ)
    → AllEntries es
    → length rest < log_header_size
    → iterate callback s (encode es rest) start_lsn
      ≡ visit_then callback (from start_lsn es) s (λ s'. (Rc.success, s'))
iterate_lem callback s es rest start_lsn v h =
    let file = encode es rest in
    let (rest', run, h', v', l) =
      skip_to-encode es (suc (length file)) rest start_lsn v h
        (omega (arith, encode-length es rest)) in
    let visited = from start_lsn es in
    let left = length file - length visited in
    let fuel : suc (length file) ≡ length visited + suc left =
      omega (arith, l, encode-length es rest) in
    after_skip callback s file (encode visited rest') start_lsn run
    ∙ ap (λ n. visit callback n s (encode visited rest')) fuel
    ∙ visit-encode callback visited (suc left) s rest' v'
    ∙ ap (visit_then callback visited s) (fun_ext (λ s'. visit_end callback left s' rest' h'))
