-- ===== src/Clog/Reader.antt =====
-- LogFileReader of src/observer/storage/clog/log_file.cpp, on the bytes of an open file, whose reads and seeks
-- do not fail: what is read past its end is missing.
use ob_preliminary.Common.{
  ℕ, zero, suc, Bool, true, false, ◌||◌, Option, none, some, List, [], leb, if◌then◌else◌, length,
  take, drop,
}
use ob_preliminary.Common.Int.{ℤ, pos, pos_part, ltb_ℤ, leb_ℤ}
use ob_preliminary.Common.Rc.{Rc, ob_succ}
use ob_preliminary.Clog.{LogHeader, LogEntry, log_header_size, max_payload_size, read_header}

-- `readn` of io.cpp on the rest of a file: the bytes, or the end of the file, where the rest is used up.
unfoldable pub readn : List ℕ → ℕ → Option (List ℕ) × List ℕ
readn file n = if leb n (length file) then (some (take n file), drop n file) else (none, [])

abbrev pub bad_size : ℤ → Bool
bad_size size = ltb_ℤ size (pos 0) || ltb_ℤ (pos max_payload_size) size

-- A round of `skip_to` on what was read of a header: the end of the file, the header to stop at, a bad size, or
-- a payload to pass over.
unfoldable pub skip_header :
    (List ℕ → Rc × List ℕ) → List ℕ → ℤ → Option (List ℕ) × List ℕ → Rc × List ℕ
unfolding read_header
skip_header next file start_lsn (none, rest) = (Rc.success, rest)
skip_header next file start_lsn (some bs, rest) = elim (leb_ℤ start_lsn (read_header bs).lsn) [
  | true ↦ (Rc.success, file)
  | false ↦ elim (bad_size (read_header bs).size) [
    | true ↦ (Rc.ioerr_read, rest)
    | false ↦ next (drop (pos_part (read_header bs).size) rest)
  ]
]

-- `skip_to`: the rest of the file from the first header on whose number is `start_lsn` or more. Each round
-- uses up a header, so the length of the file is fuel enough.
unfoldable pub skip_to : ℕ → List ℕ → ℤ → Rc × List ℕ
unfolding readn skip_header
skip_to zero file start_lsn = (Rc.success, file)
skip_to (suc fuel) file start_lsn =
    skip_header (λ rest. skip_to fuel rest start_lsn) file start_lsn (readn file log_header_size)

-- The loop of `iterate`, with a callback that has a state of its own.
module _ {S : Type 0} (callback : S → LogEntry → Rc × S) where
  unfoldable pub take_payload :
      (S → List ℕ → Rc × S) → S → LogHeader → Option (List ℕ) × List ℕ → Rc × S
  take_payload next s h (none, rest) = (Rc.ioerr_read, s)
  take_payload next s h (some payload, rest) =
      let result = callback s (record { header = h; data_bytes = payload }) in
      elim (ob_succ result.0) [ true ↦ next result.1 rest | false ↦ result ]

  unfoldable pub take_header : (S → List ℕ → Rc × S) → S → Option (List ℕ) × List ℕ → Rc × S
  unfolding read_header readn take_payload
  take_header next s (none, rest) = (Rc.success, s)
  take_header next s (some bs, rest) =
      if bad_size (read_header bs).size
      then (Rc.ioerr_read, s)
      else take_payload next s (read_header bs) (readn rest (pos_part (read_header bs).size))

  unfoldable pub visit : ℕ → S → List ℕ → Rc × S
  unfolding take_header
  visit zero s file = (Rc.success, s)
  visit (suc fuel) s file = take_header (visit fuel) s (readn file log_header_size)

  unfoldable pub iterate : S → List ℕ → ℤ → Rc × S
  unfolding skip_to visit
  iterate s file start_lsn =
      let (rc, rest) = skip_to (suc (length file)) file start_lsn in
      if ob_succ rc then visit (suc (length file)) s rest else (rc, s)
