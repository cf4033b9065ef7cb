-- ===== src/Clog/Flushing.antt =====
-- `flush` over a queue of numbered entries.
use ob_preliminary.Common.{
  ℕ, suc, ◌+◌, ◌^◌, ◌≤◌, ◌<◌, ◌≡◌, refl, sym, ap, ◌∙◌, subst, Bool, true, ◌&&◌, List, [], ◌∷◌, ◌++◌,
  append_assoc, append-nil, if◌then◌else◌, length, arith,
}
use ob_preliminary.Common.Int.{ℤ, pos, negsuc, ◌+ℤ◌, ◌-ℤ◌, ltb_ℤ}
use ob_preliminary.Common.Rc.{Rc}
use ob_preliminary.Common.System.{good, returns, stops}
use ob_preliminary.Clog.{
  LogEntry, LogEntryBuffer, LogFileWriter, Disk, log_header_size, header_bytes, write_entry,
  total_size, entry_flushed, flush_entries, flush,
}
use ob_preliminary.Clog.Reading.{encode}
use ob_preliminary.Clog.Append.{add_pos, entry_at, numbered, AllPayloads}
use ob_preliminary.Clog.Writing.{IsWriter, write_entry_lem}

-- The bytes of the entries with the payloads `ps`.
abbrev pub total : List (List ℕ) → ℕ
total [] = 0
total (p ∷ ps) = log_header_size + length p + total ps

-- The buffer and the writer after the entries from number `n` on have gone out.
abbrev pub flushed : LogEntryBuffer → ℕ → List (List ℕ) → LogEntryBuffer
flushed b n [] = b
flushed b n (p ∷ ps) =
    flushed
      (record b { bytes = b.bytes -ℤ pos (log_header_size + length p); flushed_lsn = pos (n + 1) })
      (n + 1) ps

abbrev pub advanced : LogFileWriter → ℕ → List (List ℕ) → LogFileWriter
advanced w n [] = w
advanced w n (p ∷ ps) = advanced (record w { last_lsn = pos (n + 1) }) (n + 1) ps

pub flushed-lsn :
    (ps : List (List ℕ)) (b : LogEntryBuffer) (n : ℕ)
    → b.flushed_lsn ≡ pos n
    → (flushed b n ps).flushed_lsn ≡ pos (n + length ps)
flushed-lsn [] b n e = e ∙ ap pos (omega arith)
flushed-lsn (p ∷ ps) b n e =
    flushed-lsn ps
      (record b { bytes = b.bytes -ℤ pos (log_header_size + length p); flushed_lsn = pos (n + 1) })
      (n + 1) refl
    ∙ ap pos (omega arith)

pub flushed-current :
    (ps : List (List ℕ)) (b : LogEntryBuffer) (n : ℕ) → (flushed b n ps).current_lsn ≡ b.current_lsn
flushed-current [] b n = refl
flushed-current (p ∷ ps) b n =
    flushed-current ps
      (record b { bytes = b.bytes -ℤ pos (log_header_size + length p); flushed_lsn = pos (n + 1) })
      (n + 1)

take_twice : (x : ℤ) (a c : ℕ) → x -ℤ pos a -ℤ pos c ≡ x -ℤ pos (a + c)
take_twice x a c = ground arith

take_none : (x : ℤ) → x ≡ x -ℤ pos 0
take_none (pos n) = ground arith
take_none (negsuc n) = ground arith

pub flushed-bytes :
    (ps : List (List ℕ)) (b : LogEntryBuffer) (n : ℕ)
    → (flushed b n ps).bytes ≡ b.bytes -ℤ pos (total ps)
flushed-bytes [] b n = take_none b.bytes
flushed-bytes (p ∷ ps) b n =
    flushed-bytes ps
      (record b { bytes = b.bytes -ℤ pos (log_header_size + length p); flushed_lsn = pos (n + 1) })
      (n + 1)
    ∙ take_twice b.bytes (log_header_size + length p) (total ps)

advanced-end :
    (ps : List (List ℕ)) (w : LogFileWriter) (n : ℕ) → (advanced w n ps).end_lsn ≡ w.end_lsn
advanced-end [] w n = refl
advanced-end (p ∷ ps) w n = advanced-end ps (record w { last_lsn = pos (n + 1) }) (n + 1)

-- The first entries of a queue go out one by one.
pub flush_numbered :
    (ps : List (List ℕ)) (es : List LogEntry) (b : LogEntryBuffer) (count : ℕ) (w : LogFileWriter)
    (d : Disk) (last end_at n m : ℕ)
    → IsWriter w last end_at
    → last ≤ n
    → n + length ps ≤ end_at
    → n + length ps < 2 ^ 31
    → AllPayloads ps
    → total ps ≤ good d.future
    → (d' : Disk) × (flush_entries (numbered n m ps ++ es) b count w d
        ≡ flush_entries es (flushed b n ps) (count + length ps) (advanced w n ps) d')
      × (d'.content ≡ d.content ++ encode (numbered n m ps) [])
unfolding flush_entries entry_flushed numbered encode
flush_numbered [] es b count w d last end_at n m v after before small h enough =
    (d, ap (λ c. flush_entries es b c w d) (omega arith), sym (append-nil d.content))
flush_numbered (p ∷ ps) es b count w d last end_at n m v after before small h enough =
    let e = entry_at (n + 1) m p in
    let (d1, run, content1, kept) =
      write_entry_lem w d last end_at (n + 1) m p v (omega arith) (omega arith) (omega arith)
        (omega arith) in
    let b1 : LogEntryBuffer = record b {
      bytes = b.bytes -ℤ pos (log_header_size + length p);
      flushed_lsn = pos (n + 1);
    } in
    let w1 : LogFileWriter = record w { last_lsn = pos (n + 1) } in
    let (d', rest, content') =
      flush_numbered ps es b1 (suc count) w1 d1 (n + 1) end_at (n + 1) m
        (record { opened = v.opened; last_is = refl; end_is = v.end_is }) (omega arith)
        (omega arith) (omega arith) h.2 (omega (arith, kept, enough)) in
    let others = numbered (n + 1) m ps ++ es in
    let positive : (ltb_ℤ (pos 0) (pos (n + 1)) && ltb_ℤ (pos 0) (pos (length p))) ≡ true =
      ground (arith, h.0) in
    let next = flush_entries others in
    let off = λ (z : ℤ). record b { bytes = b.bytes -ℤ z } in
    (
      d',
      ap
            (λ (t : Bool).
              if t
              then entry_flushed next e others (off (total_size e)) count (write_entry w d e)
              else stops)
            positive
          ∙ ap (entry_flushed next e others (off (total_size e)) count) run
          ∙ ap (λ z. next (record (off z) { flushed_lsn = pos (n + 1) }) (suc count) w1 d1)
              (add_pos log_header_size (length p))
          ∙ rest
          ∙ ap (λ c. flush_entries es (flushed b1 (n + 1) ps) c (advanced w1 (n + 1) ps) d')
              (omega arith),
      content'
          ∙ ap (λ c. c ++ encode (numbered (n + 1) m ps) []) content1
          ∙ append_assoc d.content (header_bytes (e.header) ++ p)
              (encode (numbered (n + 1) m ps) [])
          ∙ ap (◌++◌ d.content)
              (append_assoc (header_bytes (e.header)) p (encode (numbered (n + 1) m ps) [])),
    )

-- `flush` on a queue of numbered entries that fit the file, with a disk that takes a byte often enough: it
-- succeeds, counts the entries and leaves none; the file gets their bytes in order, and the flushed number
-- is the last one.
pub flush_lem :
    (ps : List (List ℕ)) (b : LogEntryBuffer) (w : LogFileWriter) (d : Disk) (last end_at n m : ℕ)
    → b.entries ≡ numbered n m ps
    → b.flushed_lsn ≡ pos n
    → IsWriter w last end_at
    → last ≤ n
    → n + length ps ≤ end_at
    → n + length ps < 2 ^ 31
    → AllPayloads ps
    → total ps ≤ good d.future
    → (b' : LogEntryBuffer) × (w' : LogFileWriter) × (d' : Disk) × (flush b w d
        ≡ returns (Rc.success, length ps, b', w', d'))
      × (b'.entries ≡ [])
      × (b'.flushed_lsn ≡ pos (n + length ps))
      × (b'.current_lsn ≡ b.current_lsn)
      × (b'.bytes ≡ b.bytes -ℤ pos (total ps))
      × (d'.content ≡ d.content ++ encode (numbered n m ps) [])
unfolding flush
flush_lem ps b w d last end_at n m queue at_n v after before small h enough =
    let (d', run, content) =
      flush_numbered ps [] b 0 w d last end_at n m v after before small h enough in
    (
      record (flushed b n ps) { entries = [] },
      advanced w n ps,
      d',
      ap (λ es. flush_entries es b 0 w d) (queue ∙ sym (append-nil (numbered n m ps)))
          ∙ run
          ∙ done d',
      refl,
      flushed-lsn ps b n at_n,
      flushed-current ps b n,
      flushed-bytes ps b n,
      content,
    )
  where
    done :
        (d' : Disk)
        → flush_entries [] (flushed b n ps) (0 + length ps) (advanced w n ps) d'
          ≡ returns
              (Rc.success, length ps, record (flushed b n ps) { entries = [] }, advanced w n ps, d')
    done d' =
        ap
          (λ c.
            returns (Rc.success, c, record (flushed b n ps) { entries = [] }, advanced w n ps, d'))
          (omega arith)

-- A flush of a queue that goes on past the last number of the file, on a disk that takes a byte at least as often as
-- the entries up to it have bytes before it fails: these entries go out, then the code is LOG_FILE_FULL and the others
-- stay in the queue, in order; but the size of the first of them has been taken off the count of bytes.
pub flush_full :
    (ps qs : List (List ℕ)) (q : List ℕ) (b : LogEntryBuffer) (w : LogFileWriter) (d : Disk)
    (last n m : ℕ)
    → b.entries ≡ numbered n m ps ++ numbered (n + length ps) m (q ∷ qs)
    → IsWriter w last (n + length ps)
    → last ≤ n
    → n + length ps < 2 ^ 31
    → AllPayloads ps
    → 0 < length q
    → total ps ≤ good d.future
    → (b' : LogEntryBuffer) × (w' : LogFileWriter) × (d' : Disk) × (flush b w d
        ≡ returns (Rc.log_file_full, length ps, b', w', d'))
      × (b'.entries ≡ numbered (n + length ps) m (q ∷ qs))
      × (d'.content ≡ d.content ++ encode (numbered n m ps) [])
      × (b'.bytes ≡ b.bytes -ℤ pos (total ps) -ℤ (pos log_header_size +ℤ pos (length q)))
unfolding flush flush_entries entry_flushed write_entry numbered
flush_full ps qs q b w d last n m queue v after small h some_payload enough =
    let k = n + length ps in
    let others = numbered k m (q ∷ qs) in
    let (d', run, content) =
      flush_numbered ps others b 0 w d last k n m v after (omega arith) small h enough in
    let e = entry_at (k + 1) m q in
    let b1 = flushed b n ps in
    let w1 = advanced w n ps in
    let b2 : LogEntryBuffer = record b1 { bytes = b1.bytes -ℤ total_size e; entries = others } in
    let positive : (ltb_ℤ (pos 0) (pos (k + 1)) && ltb_ℤ (pos 0) (pos (length q))) ≡ true =
      ground arith in
    let full : ltb_ℤ w1.end_lsn (pos (k + 1)) ≡ true =
      subst (λ z. ltb_ℤ z (pos (k + 1)) ≡ true) (sym (advanced-end ps w n ∙ v.end_is))
        (ground arith) in
    let here : write_entry w1 d' e ≡ returns (Rc.log_file_full, w1, d') = rw full refl in
    let rest = numbered (k + 1) m qs in
    let b3 : LogEntryBuffer = record b1 { bytes = b1.bytes -ℤ total_size e } in
    (
      b2,
      w1,
      d',
      ap (λ es. flush_entries es b 0 w d) queue
          ∙ run
          ∙ ap
              (λ (t : Bool).
                if t
                then entry_flushed (flush_entries rest) e rest b3 (0 + length ps)
                    (write_entry w1 d' e)
                else stops)
              positive
          ∙ ap (entry_flushed (flush_entries rest) e rest b3 (0 + length ps)) here
          ∙ ap (λ c. returns (Rc.log_file_full, c, b2, w1, d')) (omega arith),
      refl,
      content,
      ap (λ z. z -ℤ total_size e) (flushed-bytes ps b n),
    )
