-- ===== src/Clog/Tests.antt =====
-- Runs of the log: two entries appended, flushed and read back.
mod Restart
use ob_preliminary.Common.{ℕ, ◌≡◌, refl, true, List, [], ◌∷◌, ◌++◌, replicate, arith}
use ob_preliminary.Common.Int.{pos, ◌+ℤ◌, ◌-ℤ◌, ltb_ℤ}
use ob_preliminary.Common.Rc.{Rc}
use ob_preliminary.Common.System.{wrote, returns}
use ob_preliminary.Clog.{
  LogHeader, LogEntry, LogEntryBuffer, LogFileWriter, Disk, header_bytes, read_header, flush,
}
use ob_preliminary.Clog.Reader.{iterate}
use ob_preliminary.Clog.Codec.{IsHeader, read_header-header_bytes}
use ob_preliminary.Clog.Reading.{encode, visit_then, AllEntries}
use ob_preliminary.Clog.Skipping.{from, iterate_lem}
use ob_preliminary.Clog.Torn.{iterate_torn}
use ob_preliminary.Clog.Append.{
  entry_at, numbered, AllPayloads, append_all, appended, append_all_lem, entry_at-IsEntry,
}
use ob_preliminary.Clog.Writing.{IsWriter}
use ob_preliminary.Clog.Flushing.{flush_full}
use ob_preliminary.Clog.RoundTrip.{IsIdle, log_round_trip, bytes_drift}

abbrev one : List ℕ
one = 7 ∷ 8 ∷ []

abbrev two : List ℕ
two = 9 ∷ []

abbrev payloads : List (List ℕ)
payloads = one ∷ two ∷ []

payloads-AllPayloads : AllPayloads payloads
payloads-AllPayloads = (omega arith, omega arith, (omega arith, omega arith, tt))

abbrev idle : LogEntryBuffer
idle = record {
  entries = [];
  bytes = pos 0;
  current_lsn = pos 4;
  flushed_lsn = pos 4;
  max_bytes = pos 100;
}

idle-IsIdle : IsIdle idle 4 100
idle-IsIdle = record {
  nothing = refl;
  none_counted = refl;
  at_lsn = refl;
  flushed_at = refl;
  limit_is = refl;
}

abbrev writer : ℕ → LogFileWriter
writer end_at = record { is_open = true; last_lsn = pos 4; end_lsn = pos end_at }

writer-IsWriter : (end_at : ℕ) → IsWriter (writer end_at) 4 end_at
writer-IsWriter end_at = record { opened = refl; last_is = refl; end_is = refl }

abbrev disk : Disk
disk = record { content = []; future = replicate 40 (wrote 1) }

-- A callback that keeps what it is given.
abbrev keep : List LogEntry → LogEntry → Rc × List LogEntry
keep seen e = (Rc.success, seen ++ e ∷ [])

log_round_trip_example :
    (b1 : LogEntryBuffer) × (b2 : LogEntryBuffer) × (w' : LogFileWriter) × (d' : Disk) × (append_all
        idle 3 payloads
      ≡ returns (Rc.success, b1))
    × (flush b1 (writer 999) disk ≡ returns (Rc.success, 2, b2, w', d'))
    × (b2.entries ≡ [])
    × (b2.flushed_lsn ≡ b2.current_lsn)
    × (iterate keep [] d'.content (pos 6)
        ≡ visit_then keep (from (pos 6) (numbered 4 3 payloads)) [] (λ s'. (Rc.success, s')))
log_round_trip_example =
    log_round_trip keep [] (pos 6) idle (writer 999) disk 4 100 4 999 3 payloads idle-IsIdle
      (writer-IsWriter 999) refl payloads-AllPayloads (omega arith) (omega arith) (omega arith)
      (omega arith) (omega arith) (omega arith)

bytes_drift_example :
    (b1 : LogEntryBuffer) × (b2 : LogEntryBuffer) × (w' : LogFileWriter) × (d' : Disk) × (append_all
        idle 3 payloads
      ≡ returns (Rc.success, b1))
    × (flush b1 (writer 999) disk ≡ returns (Rc.success, 2, b2, w', d'))
    × (b2.entries ≡ [])
    × (b2.bytes ≡ pos 32 -ℤ pos 35)
    × (ltb_ℤ b2.bytes (pos 0) ≡ true)
bytes_drift_example =
    bytes_drift idle (writer 999) disk 4 100 4 999 3 one (two ∷ []) idle-IsIdle
      (writer-IsWriter 999) payloads-AllPayloads (omega arith) (omega arith) (omega arith)
      (omega arith) (omega arith)

-- The second entry has no place in the file.
abbrev queued : LogEntryBuffer
queued = appended idle 4 0 3 payloads

queued-entries : queued.entries ≡ numbered 4 3 (one ∷ []) ++ numbered 5 3 (two ∷ [])
unfolding numbered
queued-entries = refl

flush_full_example :
    (b' : LogEntryBuffer) × (w' : LogFileWriter) × (d' : Disk) × (flush queued (writer 5) disk
      ≡ returns (Rc.log_file_full, 1, b', w', d'))
    × (b'.entries ≡ numbered 5 3 (two ∷ []))
    × (d'.content ≡ encode (numbered 4 3 (one ∷ [])) [])
    × (b'.bytes ≡ pos 32 -ℤ pos 18 -ℤ (pos 16 +ℤ pos 1))
flush_full_example =
    flush_full (one ∷ []) [] two queued (writer 5) disk 4 4 3 queued-entries (writer-IsWriter 5)
      (omega arith) (omega arith) (omega arith, omega arith, tt) (omega arith) (omega arith)

abbrev stored : List LogEntry
stored = entry_at 5 3 one ∷ entry_at 6 3 two ∷ []

stored-AllEntries : AllEntries stored
stored-AllEntries = (
  entry_at-IsEntry 5 3 one (omega arith) (omega arith) (omega arith),
  (entry_at-IsEntry 6 3 two (omega arith) (omega arith) (omega arith), tt),
)

iterate_lem_example :
    iterate keep [] (encode stored (1 ∷ [])) (pos 6)
    ≡ visit_then keep (from (pos 6) stored) [] (λ s'. (Rc.success, s'))
iterate_lem_example = iterate_lem keep [] stored (1 ∷ []) (pos 6) stored-AllEntries (omega arith)

abbrev torn_header : LogHeader
torn_header = record { lsn = pos 7; size = pos 5; module_id = pos 0 }

abbrev torn_fields : IsHeader torn_header
torn_fields = record {
  number = 7;
  payload = 5;
  module_number = 0;
  lsn_is = refl;
  size_is = refl;
  module_is = refl;
  lsn_fits = omega arith;
  size_fits = omega arith;
  module_fits = omega arith;
}

iterate_torn_example :
    iterate keep [] (encode stored (header_bytes torn_header ++ (1 ∷ 2 ∷ []))) (pos 0)
    ≡ visit_then keep stored [] (λ s'. (Rc.ioerr_read, s'))
iterate_torn_example =
    iterate_torn keep [] stored torn_header (1 ∷ 2 ∷ []) torn_fields stored-AllEntries (omega arith)
