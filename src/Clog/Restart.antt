-- ===== src/Clog/Restart.antt =====
-- After a restart: the files that are read, and the number that the log goes on from.
use ob_preliminary.Common.{ℕ, ◌+◌, ◌^◌, ◌<◌, ◌≡◌, refl, ap, ◌∙◌, true, List, [], ◌∷◌, length, arith}
use ob_preliminary.Common.Int.{pos, ltb_ℤ, leb_ℤ}
use ob_preliminary.Common.Rc.{Rc, ob_succ}
use ob_preliminary.Clog.{LogEntry, LogEntryBuffer, init_buffer}
use ob_preliminary.Clog.Reader.{iterate}
use ob_preliminary.Clog.Reading.{encode, visit_then}
use ob_preliminary.Clog.Skipping.{from, iterate_lem}
use ob_preliminary.Clog.Append.{entry_at, numbered, AllPayloads, numbered-AllEntries}
use ob_preliminary.Clog.Handler.{iterate_files, track, replay_log}

-- The payloads of the files, one list for each; the entries are numbered through.
abbrev pub files_of : ℕ → ℕ → List (List (List ℕ)) → List (List ℕ)
files_of n m [] = []
files_of n m (ps ∷ pss) = encode (numbered n m ps) [] ∷ files_of (n + length ps) m pss

abbrev pub count_all : List (List (List ℕ)) → ℕ
count_all [] = 0
count_all (ps ∷ pss) = length ps + count_all pss

abbrev pub AllFiles : List (List (List ℕ)) → Type 0
AllFiles [] = Unit {0}
AllFiles (ps ∷ pss) = AllPayloads ps × AllFiles pss

from-zero : (n m : ℕ) (ps : List (List ℕ)) → from (pos 0) (numbered n m ps) ≡ numbered n m ps
unfolding numbered
from-zero n m [] = refl
from-zero n m (p ∷ ps) =
    let known : leb_ℤ (pos 0) (pos (n + 1)) ≡ true = ground arith in rw known refl

module _ {S : Type 0} (callback : S → LogEntry → Rc × S)
    (never_fails : (s : S) (e : LogEntry) → (callback s e).0 ≡ Rc.success) where
  -- The state of the replayer after entries.
  abbrev pub feed : S → List LogEntry → S
  feed s [] = s
  feed s (e ∷ es) = feed (callback s e).1 es

  abbrev pub feed_files : S → ℕ → ℕ → List (List (List ℕ)) → S
  feed_files s n m [] = s
  feed_files s n m (ps ∷ pss) = feed_files (feed s (numbered n m ps)) (n + length ps) m pss

  visit-track :
      (ps : List (List ℕ)) (s : S) (n m : ℕ)
      → visit_then (track callback) (numbered n m ps) (s, pos n) (λ s'. (Rc.success, s'))
        ≡ (Rc.success, (feed s (numbered n m ps), pos (n + length ps)))
  unfolding track numbered
  visit-track [] s n m = ap (λ k. (Rc.success, (s, pos k))) (omega arith)
  visit-track (p ∷ ps) s n m =
      let e = entry_at (n + 1) m p in
      let larger : ltb_ℤ (pos n) (pos (n + 1)) ≡ true = ground arith in
      let good : ob_succ (callback s e).0 ≡ true = ap ob_succ (never_fails s e) in
      rw (good, larger)
        (visit-track ps (callback s e).1 (n + 1) m
          ∙ ap (λ k. (Rc.success, (feed (callback s e).1 (numbered (n + 1) m ps), pos k)))
              (omega arith))

  files-track :
      (pss : List (List (List ℕ))) (s : S) (n m : ℕ)
      → AllFiles pss
      → n + count_all pss < 2 ^ 63
      → m < 2 ^ 31
      → iterate_files (track callback) (s, pos n) (files_of n m pss) (pos 0)
        ≡ (Rc.success, (feed_files s n m pss, pos (n + count_all pss)))
  unfolding iterate_files
  files-track [] s n m h small hm = ap (λ k. (Rc.success, (s, pos k))) (omega arith)
  files-track (ps ∷ pss) s n m h small hm =
      let one : iterate (track callback) (s, pos n) (encode (numbered n m ps) []) (pos 0)
          ≡ (Rc.success, (feed s (numbered n m ps), pos (n + length ps))) =
        iterate_lem (track callback) (s, pos n) (numbered n m ps) [] (pos 0)
          (numbered-AllEntries n m ps (omega arith) hm h.0) (omega arith)
        ∙ ap (λ es. visit_then (track callback) es (s, pos n) (λ s'. (Rc.success, s')))
            (from-zero n m ps)
        ∙ visit-track ps s n m in
      rw one (
        files-track pss (feed s (numbered n m ps)) (n + length ps) m h.1 (omega arith) hm
        ∙ ap
            (λ k.
              (Rc.success, (feed_files (feed s (numbered n m ps)) (n + length ps) m pss, pos k)))
            (omega arith))

-- A restart over files that hold entries numbered from 1 through all of them, with a replayer that does not fail:
-- every entry is replayed once, in order, and the buffer goes on from the last number, which
-- counts as flushed, so the next append continues the sequence.
pub replay_log_lem :
    {S : Type 0} (callback : S → LogEntry → Rc × S) (s : S) (m : ℕ) (pss : List (List (List ℕ)))
    (b : LogEntryBuffer) (never_fails : (s : S) (e : LogEntry) → (callback s e).0 ≡ Rc.success)
    → AllFiles pss
    → count_all pss < 2 ^ 63
    → m < 2 ^ 31
    → replay_log callback s (files_of 0 m pss) (pos 0) b ≡ (
      Rc.success,
      feed_files callback never_fails s 0 m pss,
      record b { current_lsn = pos (count_all pss); flushed_lsn = pos (count_all pss) },
    )
unfolding replay_log init_buffer
replay_log_lem callback s m pss b never_fails h small hm =
    let whole =
      files-track callback never_fails pss s 0 m h (omega arith) hm
      ∙ ap (λ k. (Rc.success, (feed_files callback never_fails s 0 m pss, pos k))) (omega arith) in
    rw whole refl
