-- ===== src/Clog.antt =====
-- src/observer/storage/clog/log_entry.cpp, log_buffer.cpp and log_file.cpp, and the loops over them of
-- disk_log_handler.cpp: the write-ahead log. A log sequence number is an `int64_t`, a size an `int32_t`.
-- A header goes to disk as it lies in memory: little-endian, two's complement, 8 + 4 + 4 bytes. The results of
-- ::write are a list given from outside. A call of `append` or `flush` runs without another between.
pub mod Reader
pub mod Codec
pub mod Append
pub mod Writing
pub mod Flushing
pub mod RoundTrip
pub mod Handler
pub mod Restart
pub mod Files
pub mod Reading
pub mod Skipping
pub mod Torn
mod Tests
use ob_preliminary.Common.{
  ℕ, zero, suc, ◌+◌, ◌-◌, ◌*◌, ◌/◌, ◌%◌, ◌^◌, Bool, true, false, not, ◌&&◌, ◌||◌, Option, none,
  some, List, [], ◌∷◌, ◌++◌, ltb, leb, ◌==◌, if◌then◌else◌, length, take, drop, min,
}
use ob_preliminary.Common.Int.{ℤ, pos, negsuc, pos_part, ◌+ℤ◌, ◌-ℤ◌, ltb_ℤ, leb_ℤ}
use ob_preliminary.Common.Rc.{Rc, ob_succ}
use ob_preliminary.Common.System.{WriteResult, wrote, again, fails, Call, returns, waits, stops}

pub record LogHeader : Type 0 where
  pub lsn : ℤ
  pub size : ℤ
  pub module_id : ℤ

abbrev pub log_header_size : ℕ
log_header_size = 16

abbrev pub max_payload_size : ℕ
max_payload_size = 4 * 1024 * 1024 - log_header_size

pub record LogEntry : Type 0 where
  pub header : LogHeader
  pub data_bytes : List ℕ

-- The value of `w` bits, as a signed number.
abbrev pub signed : ℕ → ℕ → ℤ
signed w n = if ltb n (2 ^ (w - 1)) then pos n else negsuc (2 ^ w - 1 - n)

abbrev pub bits_of : ℕ → ℤ → ℕ
bits_of w (pos n) = n % 2 ^ w
bits_of w (negsuc n) = 2 ^ w - 1 - n % 2 ^ w

-- `static_cast<int32_t>(data.size())`
abbrev pub int32_of : ℕ → ℤ
int32_of n = signed 32 (n % 2 ^ 32)

-- The narrowing of an `int64_t` to an `int32_t`.
abbrev pub narrow : ℤ → ℤ
narrow x = signed 32 (bits_of 32 x)

-- `none` is INVALID_ARGUMENT.
unfoldable pub init : ℤ → ℤ → List ℕ → Option LogEntry
init lsn module_id payload =
    if ltb_ℤ (pos max_payload_size) (int32_of (length payload))
    then none
    else some (record {
      header = record { lsn = lsn; size = int32_of (length payload); module_id = module_id };
      data_bytes = payload;
    })

abbrev pub total_size : LogEntry → ℤ
total_size e = pos log_header_size +ℤ e.header.size

-- What the move constructor and the move assignment leave behind.
unfoldable pub moved_from : LogEntry → LogEntry
moved_from e = record { header = record (e.header) { lsn = pos 0; size = pos 0 }; data_bytes = [] }

pub record LogEntryBuffer : Type 0 where
  pub entries : List LogEntry
  pub bytes : ℤ
  pub current_lsn : ℤ
  pub flushed_lsn : ℤ
  pub max_bytes : ℤ

unfoldable pub init_buffer : LogEntryBuffer → ℤ → ℤ → LogEntryBuffer
init_buffer b lsn max_bytes = record b {
  current_lsn = lsn;
  flushed_lsn = lsn;
  max_bytes = if ltb_ℤ (pos 0) max_bytes then max_bytes else b.max_bytes;
}

-- `append`: it waits while the buffer counts too many bytes. The entry is moved into the queue before its
-- size is added. The number passed on for `lsn` is the new entry's.
unfoldable pub append : LogEntryBuffer → ℤ → List ℕ → Call (Rc × Option ℤ × LogEntryBuffer)
unfolding init moved_from
append b module_id payload =
    if leb_ℤ b.max_bytes b.bytes then waits else elim (init (pos 0) module_id payload) [
      | none ↦ returns (Rc.invalid_argument, none, b)
      | some e ↦
          let lsn = b.current_lsn +ℤ pos 1 in
          let entry = record e { header = record (e.header) { lsn = lsn } } in
          returns (
            Rc.success,
            some lsn,
            record b {
              entries = b.entries ++ entry ∷ [];
              bytes = b.bytes +ℤ total_size (moved_from entry);
              current_lsn = lsn;
            },
          )
    ]

-- Little-endian bytes of a number.
unfoldable pub le : ℕ → ℕ → List ℕ
le zero x = []
le (suc n) x = x % 256 ∷ le n (x / 256)

unfoldable pub le_value : List ℕ → ℕ
le_value [] = 0
le_value (b ∷ bs) = b + 256 * le_value bs

unfoldable pub header_bytes : LogHeader → List ℕ
unfolding le
header_bytes h =
    le 8 (bits_of 64 h.lsn) ++ le 4 (bits_of 32 h.size) ++ le 4 (bits_of 32 h.module_id)

unfoldable pub read_header : List ℕ → LogHeader
unfolding le_value
read_header bs = record {
  lsn = signed 64 (le_value (take 8 bs));
  size = signed 32 (le_value (take 4 (drop 8 bs)));
  module_id = signed 32 (le_value (take 4 (drop 12 bs)));
}

-- A file and the results of the calls of ::write to come.
pub record Disk : Type 0 where
  pub content : List ℕ
  pub future : List WriteResult

-- `writen` of io.cpp: whether it returned 0, and the disk after it.
unfoldable pub io_writen : List WriteResult → List ℕ → List ℕ → Call (Bool × Disk)
io_writen future content [] = returns (true, record { content = content; future = future })
io_writen [] content (x ∷ xs) = waits
io_writen (again ∷ future) content (x ∷ xs) = io_writen future content (x ∷ xs)
io_writen (fails ∷ future) content (x ∷ xs) =
    returns (false, record { content = content; future = future })
io_writen (wrote k ∷ future) content (x ∷ xs) =
    io_writen future (content ++ take k (x ∷ xs)) (drop k (x ∷ xs))

pub record LogFileWriter : Type 0 where
  -- `fd_ >= 0`
  pub is_open : Bool
  pub last_lsn : ℤ
  pub end_lsn : ℤ

-- `open` on a file that the system lets it open, or not.
unfoldable pub open_writer : LogFileWriter → Bool → ℤ → Rc × LogFileWriter
open_writer w opens end_lsn =
    if w.is_open
    then (Rc.file_open, w)
    else if opens
    then (Rc.success, record w { is_open = true; end_lsn = narrow end_lsn })
    else (Rc.file_open, record w { end_lsn = narrow end_lsn })

unfoldable pub close_writer : LogFileWriter → Rc × LogFileWriter
close_writer w =
    if w.is_open then (Rc.success, record w { is_open = false }) else (Rc.file_not_opened, w)

unfoldable pub is_full : LogFileWriter → Bool
is_full w = leb_ℤ w.end_lsn w.last_lsn

-- The end of `write`, with what came of the payload.
unfoldable pub payload_written :
    LogFileWriter → LogEntry → Call (Bool × Disk) → Call (Rc × LogFileWriter × Disk)
payload_written w e waits = waits
payload_written w e stops = stops
payload_written w e (returns (wrote_all, d)) =
    if wrote_all
    then returns (Rc.success, record w { last_lsn = narrow e.header.lsn }, d)
    else returns (Rc.ioerr_write, w, d)

unfoldable pub header_written :
    LogFileWriter → LogEntry → Call (Bool × Disk) → Call (Rc × LogFileWriter × Disk)
unfolding payload_written io_writen
header_written w e waits = waits
header_written w e stops = stops
header_written w e (returns (wrote_all, d)) =
    if wrote_all
    then payload_written w e
        (io_writen d.future d.content (take (pos_part e.header.size) e.data_bytes))
    else returns (Rc.ioerr_write, w, d)

-- The header goes out first, then the payload; what was written of a failed one stays in the file.
unfoldable pub write_entry : LogFileWriter → Disk → LogEntry → Call (Rc × LogFileWriter × Disk)
unfolding header_written header_bytes
write_entry w d e =
    if ltb_ℤ w.end_lsn e.header.lsn
    then returns (Rc.log_file_full, w, d)
    else if not w.is_open
    then returns (Rc.file_not_opened, w, d)
    else if leb_ℤ e.header.lsn w.last_lsn
    then returns (Rc.invalid_argument, w, d)
    else header_written w e (io_writen d.future d.content (header_bytes (e.header)))

-- `flush` over the queue: the code, the count, the buffer, the writer and the disk when it returns. An entry
-- is taken out, and its size off, before it is written; a failed one goes back to the front.
unfoldable pub entry_flushed :
    (LogEntryBuffer
      → ℕ
      → LogFileWriter
      → Disk
      → Call (Rc × ℕ × LogEntryBuffer × LogFileWriter × Disk))
    → LogEntry
    → List LogEntry
    → LogEntryBuffer
    → ℕ
    → Call (Rc × LogFileWriter × Disk)
    → Call (Rc × ℕ × LogEntryBuffer × LogFileWriter × Disk)
entry_flushed next e rest b count waits = waits
entry_flushed next e rest b count stops = stops
entry_flushed next e rest b count (returns (rc, w, d)) = elim (ob_succ rc) [
  | true ↦ next (record b { flushed_lsn = e.header.lsn }) (suc count) w d
  | false ↦ returns (rc, count, record b { entries = e ∷ rest }, w, d)
]

unfoldable pub flush_entries :
    List LogEntry
    → LogEntryBuffer
    → ℕ
    → LogFileWriter
    → Disk
    → Call (Rc × ℕ × LogEntryBuffer × LogFileWriter × Disk)
unfolding entry_flushed
flush_entries [] b count w d = returns (Rc.success, count, record b { entries = [] }, w, d)
flush_entries (e ∷ rest) b count w d =
    let b' = record b { bytes = b.bytes -ℤ total_size e } in
    let next = flush_entries rest in
    if ltb_ℤ (pos 0) e.header.lsn && ltb_ℤ (pos 0) e.header.size
    then entry_flushed next e rest b' count (write_entry w d e)
    else stops

unfoldable pub flush :
    LogEntryBuffer → LogFileWriter → Disk → Call (Rc × ℕ × LogEntryBuffer × LogFileWriter × Disk)
unfolding flush_entries
flush b w d = flush_entries b.entries b 0 w d
