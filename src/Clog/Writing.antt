-- ===== src/Clog/Writing.antt =====
-- `write` of the log file and `flush`: the file gets the entries in order.
use ob_preliminary.Common.{
  ℕ, zero, suc, ◌+◌, ◌^◌, ◌≤◌, ◌<◌, ◌≡◌, sym, ap, ◌∙◌, subst, true, false, not, List, [], ◌∷◌, ◌++◌,
  append_assoc, append-nil, length, length-drop, take, drop, take-all, take-drop, arith,
}
use ob_preliminary.Common.Int.{pos, ltb_ℤ, leb_ℤ}
use ob_preliminary.Common.Rc.{Rc}
use ob_preliminary.Common.System.{WriteResult, wrote, again, fails, good, returns}
use ob_preliminary.Clog.{
  LogFileWriter, Disk, log_header_size, narrow, header_bytes, io_writen, payload_written,
  header_written, write_entry,
}
use ob_preliminary.Clog.Codec.{length-header_bytes}
use ob_preliminary.Clog.Append.{entry_at}

-- If the file takes a byte often enough before a failure, `writen` writes all of the data.
io_writen_lem :
    (future : List WriteResult) (content data_in : List ℕ)
    → length data_in ≤ good future
    → (rest : List WriteResult) × (io_writen future content data_in
        ≡ returns (true, record { content = content ++ data_in; future = rest }))
      × (good future ≤ good rest + length data_in)
unfolding io_writen
io_writen_lem future content [] h = (
  future,
  ap (λ c. returns (true, record { content = c; future = future })) (sym (append-nil content)),
  omega arith,
)
io_writen_lem [] content (x ∷ xs) h = absurd (omega arith)
io_writen_lem (again ∷ future) content (x ∷ xs) h = io_writen_lem future content (x ∷ xs) h
io_writen_lem (fails ∷ future) content (x ∷ xs) h = absurd (omega arith)
io_writen_lem (wrote zero ∷ future) content (x ∷ xs) h =
    let (rest, run, kept) = io_writen_lem future (content ++ []) (x ∷ xs) h in
    (
      rest,
      run
          ∙ ap (λ c. returns (true, record { content = c ++ x ∷ xs; future = rest }))
              (append-nil content),
      kept,
    )
io_writen_lem (wrote (suc k) ∷ future) content (x ∷ xs) h =
    let some_of = take (suc k) (x ∷ xs) in
    let others = drop (suc k) (x ∷ xs) in
    let (rest, run, kept) =
      io_writen_lem future (content ++ some_of) others (omega (arith, h, length-drop k xs)) in
    (
      rest,
      run
          ∙ ap (λ c. returns (true, record { content = c; future = rest }))
              (append_assoc content some_of others
                ∙ ap (◌++◌ content) (take-drop (suc k) (x ∷ xs))),
      omega (arith, kept, length-drop k xs),
    )

-- A writer of a file whose last entry has number `last`, with room up to number `end_at`.
pub record IsWriter (w : LogFileWriter) (last end_at : ℕ) : Type 0 where
  pub opened : w.is_open ≡ true
  pub last_is : w.last_lsn ≡ pos last
  pub end_is : w.end_lsn ≡ pos end_at

pub write_entry_lem :
    (w : LogFileWriter) (d : Disk) (last end_at n m : ℕ) (p : List ℕ)
    → IsWriter w last end_at
    → last < n
    → n ≤ end_at
    → n < 2 ^ 31
    → log_header_size + length p ≤ good d.future
    → (d' : Disk) × (write_entry w d (entry_at n m p)
        ≡ returns (Rc.success, record w { last_lsn = pos n }, d'))
      × (d'.content ≡ d.content ++ (header_bytes (entry_at n m p).header ++ p))
      × (good d.future ≤ good d'.future + (log_header_size + length p))
unfolding write_entry header_written payload_written
write_entry_lem w d last end_at n m p v after before small enough =
    let e = entry_at n m p in
    let not_full : ltb_ℤ w.end_lsn (pos n) ≡ false =
      subst (λ z. ltb_ℤ z (pos n) ≡ false) (sym v.end_is) (ground arith) in
    let opened : not w.is_open ≡ false = ap not v.opened in
    let later : leb_ℤ (pos n) w.last_lsn ≡ false =
      subst (λ z. leb_ℤ (pos n) z ≡ false) (sym v.last_is) (ground arith) in
    let head = header_bytes (e.header) in
    let len = length-header_bytes (e.header) in
    let (rest, run, kept) = io_writen_lem d.future d.content head (omega (arith, len, enough)) in
    let (rest', run', kept') =
      io_writen_lem rest (d.content ++ head) p (omega (arith, len, enough, kept)) in
    let whole : take (length p) p ≡ p = take-all (length p) p (omega arith) in
    let number : narrow (pos n) ≡ pos n = ground arith in
    (
      record { content = (d.content ++ head) ++ p; future = rest' },
      rw (not_full, opened, later)
          (ap (header_written w e) run
            ∙ ap (λ q. payload_written w e (io_writen rest (d.content ++ head) q)) whole
            ∙ ap (payload_written w e) run'
            ∙ ap
                (λ z. returns (
                  Rc.success,
                  record w { last_lsn = z },
                  record { content = (d.content ++ head) ++ p; future = rest' },
                ))
                number),
      append_assoc d.content head p,
      omega (arith, kept, kept', len),
    )
