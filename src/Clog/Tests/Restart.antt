-- ===== src/Clog/Tests/Restart.antt =====
-- Runs of the file manager and of a replay over two files.
use ob_preliminary.Common.{ℕ, ◌≡◌, refl, false, List, [], ◌∷◌, ◌++◌, arith}
use ob_preliminary.Common.Int.{pos}
use ob_preliminary.Common.Rc.{Rc}
use ob_preliminary.Clog.{LogEntry, LogEntryBuffer, LogFileWriter}
use ob_preliminary.Clog.Handler.{LogFileManager, replay_log}
use ob_preliminary.Clog.Restart.{files_of, AllFiles, feed_files, replay_log_lem}

abbrev chunks : List (List (List ℕ))
chunks = ((7 ∷ 8 ∷ []) ∷ (9 ∷ []) ∷ []) ∷ ((6 ∷ []) ∷ []) ∷ []

chunks-AllFiles : AllFiles chunks
chunks-AllFiles = (
  (omega arith, omega arith, (omega arith, omega arith, tt)),
  ((omega arith, omega arith, tt), tt),
)

abbrev keep_all : List LogEntry → LogEntry → Rc × List LogEntry
keep_all seen e = (Rc.success, seen ++ e ∷ [])

keeps : (seen : List LogEntry) (e : LogEntry) → (keep_all seen e).0 ≡ Rc.success
keeps seen e = refl

abbrev blank_buffer : LogEntryBuffer
blank_buffer = record {
  entries = [];
  bytes = pos 0;
  current_lsn = pos 0;
  flushed_lsn = pos 0;
  max_bytes = pos 100;
}

replay_log_lem_example : replay_log keep_all [] (files_of 0 3 chunks) (pos 0) blank_buffer ≡ (
  Rc.success,
  feed_files keep_all keeps [] 0 3 chunks,
  record blank_buffer { current_lsn = pos 3; flushed_lsn = pos 3 },
)
replay_log_lem_example =
    replay_log_lem keep_all [] 3 chunks blank_buffer keeps chunks-AllFiles (omega arith)
      (omega arith)

abbrev closed : LogFileWriter
closed = record { is_open = false; last_lsn = pos 0; end_lsn = pos 0 }

abbrev two_files : LogFileManager
two_files = record { log_files = 0 ∷ 1000 ∷ []; max_entry_number_per_file = 1000 }
