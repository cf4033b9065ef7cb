-- ===== src/Clog/RoundTrip.antt =====
-- From `append` to `iterate`: what was logged is what is replayed.
use ob_preliminary.Common.{
  ℕ, ◌+◌, ◌*◌, ◌^◌, ◌≤◌, ◌<◌, ◌≡◌, sym, ap, ◌∙◌, true, List, [], ◌∷◌, ◌++◌, length, arith,
}
use ob_preliminary.Common.Int.{ℤ, pos, ◌-ℤ◌, ltb_ℤ}
use ob_preliminary.Common.Rc.{Rc}
use ob_preliminary.Common.System.{good, returns}
use ob_preliminary.Clog.{LogEntry, LogEntryBuffer, LogFileWriter, Disk, flush}
use ob_preliminary.Clog.Reader.{iterate}
use ob_preliminary.Clog.Reading.{encode, visit_then}
use ob_preliminary.Clog.Skipping.{from, iterate_lem}
use ob_preliminary.Clog.Append.{
  numbered, AllPayloads, append_all, appended, append_all_lem, numbered-AllEntries,
}
use ob_preliminary.Clog.Writing.{IsWriter}
use ob_preliminary.Clog.Flushing.{total, flush_lem}

-- An empty buffer whose entries up to number `n` are on disk.
pub record IsIdle (b : LogEntryBuffer) (n limit : ℕ) : Type 0 where
  pub nothing : b.entries ≡ []
  pub none_counted : b.bytes ≡ pos 0
  pub at_lsn : b.current_lsn ≡ pos n
  pub flushed_at : b.flushed_lsn ≡ pos n
  pub limit_is : b.max_bytes ≡ pos limit

-- Payloads that are not empty, not too large and few enough for the buffer and the file are appended to an idle
-- buffer and flushed to a new file, on a disk that takes a byte often enough. All of it succeeds; the flushed
-- number is the current one; and reading the file from any number on gives the callback exactly the entries
-- from that number on, in order, with the payloads and the consecutive numbers that the appends gave them.
pub log_round_trip :
    {S : Type 0} (callback : S → LogEntry → Rc × S) (s : S) (start_lsn : ℤ) (b : LogEntryBuffer)
    (w : LogFileWriter) (d : Disk) (n limit last end_at m : ℕ) (ps : List (List ℕ))
    → IsIdle b n limit
    → IsWriter w last end_at
    → d.content ≡ []
    → AllPayloads ps
    → 16 * length ps < limit
    → last ≤ n
    → n + length ps ≤ end_at
    → n + length ps < 2 ^ 31
    → m < 2 ^ 31
    → total ps ≤ good d.future
    → (b1 : LogEntryBuffer) × (b2 : LogEntryBuffer) × (w' : LogFileWriter) × (d' : Disk)
      × (append_all b m ps ≡ returns (Rc.success, b1))
      × (flush b1 w d ≡ returns (Rc.success, length ps, b2, w', d'))
      × (b2.entries ≡ [])
      × (b2.flushed_lsn ≡ b2.current_lsn)
      × (iterate callback s d'.content start_lsn
          ≡ visit_then callback (from start_lsn (numbered n m ps)) s (λ s'. (Rc.success, s')))
log_round_trip callback s start_lsn b w d n limit last end_at m ps idle v new_file h room after
      before small hm enough =
    let b1 = appended b n 0 m ps in
    let ran =
      append_all_lem ps b n 0 m limit idle.at_lsn idle.none_counted idle.limit_is h
        (omega (arith, room)) in
    let (b2, w', d', run, none_left, at_last, current, _, content) =
      flush_lem ps b1 w d last end_at n m (ap (λ es. es ++ numbered n m ps) idle.nothing)
        idle.flushed_at v after before small h enough in
    (
      b1,
      b2,
      w',
      d',
      ran,
      run,
      none_left,
      at_last ∙ sym current,
      ap (λ c. iterate callback s c start_lsn)
            (content ∙ ap (λ c. c ++ encode (numbered n m ps) []) new_file)
          ∙ iterate_lem callback s (numbered n m ps) [] start_lsn
              (numbered-AllEntries n m ps (omega arith) hm h) (omega arith),
    )

-- The sixteen bytes that an append counts and the full size that a flush takes off do not cancel: after appends
-- to an idle buffer and their flush, which succeed and leave the buffer empty, its count of bytes is the
-- difference of the two sums, and so negative.
pub bytes_drift :
    (b : LogEntryBuffer) (w : LogFileWriter) (d : Disk) (n limit last end_at m : ℕ) (p : List ℕ)
    (ps : List (List ℕ))
    → IsIdle b n limit
    → IsWriter w last end_at
    → AllPayloads (p ∷ ps)
    → 16 * length (p ∷ ps) < limit
    → last ≤ n
    → n + length (p ∷ ps) ≤ end_at
    → n + length (p ∷ ps) < 2 ^ 31
    → total (p ∷ ps) ≤ good d.future
    → (b1 : LogEntryBuffer) × (b2 : LogEntryBuffer) × (w' : LogFileWriter) × (d' : Disk)
      × (append_all b m (p ∷ ps) ≡ returns (Rc.success, b1))
      × (flush b1 w d ≡ returns (Rc.success, length (p ∷ ps), b2, w', d'))
      × (b2.entries ≡ [])
      × (b2.bytes ≡ pos (16 * length (p ∷ ps)) -ℤ pos (total (p ∷ ps)))
      × (ltb_ℤ b2.bytes (pos 0) ≡ true)
bytes_drift b w d n limit last end_at m p ps idle v h room after before small enough =
    let qs = p ∷ ps in
    let b1 = appended b n 0 m qs in
    let ran =
      append_all_lem qs b n 0 m limit idle.at_lsn idle.none_counted idle.limit_is h
        (omega (arith, room)) in
    let (b2, w', d', run, none_left, _, _, bytes, _) =
      flush_lem qs b1 w d last end_at n m (ap (λ es. es ++ numbered n m qs) idle.nothing)
        idle.flushed_at v after before small h enough in
    let drift = bytes ∙ ap (λ c. pos c -ℤ pos (total qs)) (omega arith) in
    (
      b1,
      b2,
      w',
      d',
      ran,
      run,
      none_left,
      drift,
      ap (λ z. ltb_ℤ z (pos 0)) drift ∙ below (16 * length qs) (total qs) more,
    )
  where
    sizes : (rs : List (List ℕ)) → 16 * length rs ≤ total rs
    sizes [] = omega arith
    sizes (r ∷ rs) = omega (arith, sizes rs)

    more : 16 * length (p ∷ ps) < total (p ∷ ps)
    more = omega (arith, sizes ps, h.0)

    below : (a c : ℕ) → a < c → ltb_ℤ (pos a -ℤ pos c) (pos 0) ≡ true
    below a c l = ground arith
