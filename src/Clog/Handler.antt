-- ===== src/Clog/Handler.antt =====
-- LogFileManager of src/observer/storage/clog/log_file.cpp, and replay, iterate and wait_lsn of
-- disk_log_handler.cpp. A log file is known by its first number, which its name spells; `log_files_` is the list
-- of these numbers in ascending order. Opening and closing a file to read does not fail. The directory scan of
-- `init` and the thread are not modelled.
use ob_preliminary.Common.{
  ℕ, ◌+◌, ◌-◌, Bool, Option, none, some, List, [], ◌∷◌, ◌++◌, leb, if◌then◌else◌,
}
use ob_preliminary.Common.Int.{ℤ, pos, ltb_ℤ, leb_ℤ}
use ob_preliminary.Common.Rc.{Rc, ob_succ}
use ob_preliminary.Clog.{
  LogEntry, LogEntryBuffer, LogFileWriter, init_buffer, open_writer, close_writer,
}
use ob_preliminary.Clog.Reader.{iterate}

pub record LogFileManager : Type 0 where
  pub log_files : List ℕ
  pub max_entry_number_per_file : ℕ

-- The files of the list that may hold an entry whose number is `start_lsn` or more.
unfoldable pub wanted_files : ℕ → ℕ → List ℕ → List ℕ
wanted_files max start_lsn [] = []
wanted_files max start_lsn (first ∷ files) =
    let rest = wanted_files max start_lsn files in
    if leb start_lsn (first + max - 1) then first ∷ rest else rest

unfoldable pub list_files : LogFileManager → ℕ → List ℕ
unfolding wanted_files
list_files fm start_lsn = wanted_files fm.max_entry_number_per_file start_lsn fm.log_files

unfoldable pub last_of : List ℕ → Option ℕ
last_of [] = none
last_of (x ∷ []) = some x
last_of (x ∷ y ∷ xs) = last_of (y ∷ xs)

-- `opens` says whether the system lets the file be opened. The new file is in the list in either case.
unfoldable pub next_file :
    LogFileManager → LogFileWriter → Bool → Rc × LogFileManager × LogFileWriter
unfolding last_of
next_file fm w opens =
    let first : ℕ = elim (last_of fm.log_files) [
      | none ↦ 0
      | some last ↦ last + fm.max_entry_number_per_file
    ] in
    let (rc, w') =
      open_writer (close_writer w).1 opens (pos (first + fm.max_entry_number_per_file - 1)) in
    (rc, record fm { log_files = fm.log_files ++ first ∷ [] }, w')

unfoldable pub last_file :
    LogFileManager → LogFileWriter → Bool → Rc × LogFileManager × LogFileWriter
unfolding next_file
last_file fm w opens = elim (last_of fm.log_files) [
  | none ↦ next_file fm w opens
  | some first ↦
      let (rc, w') =
        open_writer (close_writer w).1 opens (pos (first + fm.max_entry_number_per_file - 1)) in
      (rc, fm, w')
]

-- `iterate` of the handler over the contents of the listed files.
module _ {S : Type 0} (callback : S → LogEntry → Rc × S) where
  unfoldable pub iterate_files : S → List (List ℕ) → ℤ → Rc × S
  iterate_files s [] start_lsn = (Rc.success, s)
  iterate_files s (file ∷ files) start_lsn =
      let result = iterate callback s file start_lsn in
      let rest = iterate_files result.1 files start_lsn in if ob_succ result.0 then rest else result

  -- `replay_callback`: it keeps the largest number seen.
  unfoldable pub track : S × ℤ → LogEntry → Rc × (S × ℤ)
  track (s, max_lsn) e =
      let (rc, s') = callback s e in
      (rc, (s', if ltb_ℤ max_lsn e.header.lsn then e.header.lsn else max_lsn))

-- `replay`, with the state of the replayer: the buffer goes on from the largest number.
unfoldable pub replay_log :
    {S : Type 0}
    → (S → LogEntry → Rc × S)
    → S
    → List (List ℕ)
    → ℤ
    → LogEntryBuffer
    → Rc × S × LogEntryBuffer
unfolding iterate_files track
replay_log callback s files start_lsn b =
    let (rc, (s', max_lsn)) = iterate_files (track callback) (s, pos 0) files start_lsn in
    if ob_succ rc then (Rc.success, s', init_buffer b max_lsn (pos 0)) else (rc, s', b)

-- `wait_lsn`, with the flushed number when the waiting ends.
unfoldable pub wait_lsn : ℤ → ℤ → Rc
wait_lsn flushed_lsn lsn = if leb_ℤ lsn flushed_lsn then Rc.success else Rc.internal
