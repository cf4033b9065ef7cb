-- ===== src/Clog/Files.antt =====
-- The sequence of log files: each holds the numbers that follow those of the one before.
use ob_preliminary.Common.{
  ℕ, zero, suc, ◌+◌, ◌-◌, ◌*◌, ◌^◌, ◌<◌, ◌≡◌, refl, ap, ◌∙◌, inl, inr, Bool, true, false, Option,
  none, some, List, [], ◌∷◌, ◌++◌, leb, ◌==◌, ◌||◌, ◌&&◌, arith, Bool-cases,
}
use ob_preliminary.Common.Int.{pos}
use ob_preliminary.Common.Rc.{Rc}
use ob_preliminary.Clog.{LogFileWriter, narrow, open_writer, close_writer}
use ob_preliminary.Clog.Handler.{
  LogFileManager, wanted_files, list_files, last_of, next_file, last_file,
}

-- The first numbers of `k` files.
abbrev pub files_at : ℕ → ℕ → List ℕ
files_at max zero = []
files_at max (suc k) = files_at max k ++ k * max ∷ []

last_of-snoc : (xs : List ℕ) (y : ℕ) → last_of (xs ++ y ∷ []) ≡ some y
unfolding last_of
last_of-snoc [] y = refl
last_of-snoc (x ∷ []) y = refl
last_of-snoc (x ∷ z ∷ xs) y = last_of-snoc (z ∷ xs) y

abbrev manager : ℕ → ℕ → LogFileManager
manager max k = record { log_files = files_at max k; max_entry_number_per_file = max }

-- A writer opened, after it was closed, up to the number `end_at`.
abbrev pub opened_at : LogFileWriter → ℕ → LogFileWriter
opened_at w end_at = record w { is_open = true; end_lsn = pos end_at }

reopen :
    (w : LogFileWriter) (end_at : ℕ)
    → end_at < 2 ^ 31
    → open_writer (close_writer w).1 true (pos end_at) ≡ (Rc.success, opened_at w end_at)
unfolding open_writer close_writer
reopen w end_at h =
    let number : narrow (pos end_at) ≡ pos end_at = ground arith in
    elim (Bool-cases w.is_open) [
      | inl opened ↦
          rw opened (ap (λ z. (Rc.success, record w { is_open = true; end_lsn = z })) number)
      | inr closed ↦
          rw closed (ap (λ z. (Rc.success, record w { is_open = true; end_lsn = z })) number)
    ]

-- The first number of the file after `o`, the last one.
abbrev after_last : ℕ → Option ℕ → ℕ
after_last max o = elim o as (λ x. ℕ) [ none ↦ 0 | some last ↦ last + max ]

next_first : (max k : ℕ) → after_last max (last_of (files_at max k)) ≡ k * max
unfolding last_of
next_first max zero = omega arith
next_first max (suc k) = ap (after_last max) (last_of-snoc (files_at max k) (k * max)) ∙ step k max
  where
    step : (k max : ℕ) → k * max + max ≡ suc k * max
    step k max = grind arith

-- The `k + 1`-th file takes the numbers from k times the size of a file on, right after those of the file before,
-- and `last_file` opens that file again with the same last number.
pub next_file_lem :
    (max k : ℕ) (w : LogFileWriter)
    → k * max + max - 1 < 2 ^ 31
    → let fm : LogFileManager = record {
      log_files = files_at max k;
      max_entry_number_per_file = max;
    } in
      let fm' : LogFileManager = record {
        log_files = files_at max (suc k);
        max_entry_number_per_file = max;
      } in
      let w' = opened_at w (k * max + max - 1) in
      (next_file fm w true ≡ (Rc.success, fm', w')) × (last_file fm' w true ≡ (Rc.success, fm', w'))
unfolding next_file last_file
next_file_lem max k w small = (
  ap created (next_first max k)
      ∙ ap (λ x. (x.0, manager max (suc k), x.1)) (reopen w (k * max + max - 1) small),
  ap found (last_of-snoc (files_at max k) (k * max))
      ∙ ap (λ x. (x.0, manager max (suc k), x.1)) (reopen w (k * max + max - 1) small),
)
  where
    created : ℕ → Rc × LogFileManager × LogFileWriter
    created first =
        let (rc, w') = open_writer (close_writer w).1 true (pos (first + max - 1)) in
        (rc, record (manager max k) { log_files = files_at max k ++ first ∷ [] }, w')

    found : Option ℕ → Rc × LogFileManager × LogFileWriter
    found none = next_file (manager max (suc k)) w true
    found (some first) =
        let (rc, w') = open_writer (close_writer w).1 true (pos (first + max - 1)) in
        (rc, manager max (suc k), w')

abbrev pub has_file : ℕ → List ℕ → Bool
has_file f [] = false
has_file f (x ∷ xs) = x == f || has_file f xs

wanted_lem :
    (max start_lsn f : ℕ) (files : List ℕ)
    → has_file f (wanted_files max start_lsn files)
      ≡ (has_file f files && leb start_lsn (f + max - 1))
unfolding wanted_files
wanted_lem max start_lsn f [] = refl
wanted_lem max start_lsn f (x ∷ xs) = elim (Bool-cases (leb start_lsn (x + max - 1))) [
  | inl keep ↦ rw keep (ground (arith, wanted_lem max start_lsn f xs))
  | inr pass ↦ rw pass (ground (arith, wanted_lem max start_lsn f xs))
]

-- `list_files` lists a file exactly if it is one of the manager's and its last possible number is
-- `start_lsn` or more.
pub list_files_lem :
    (fm : LogFileManager) (start_lsn f : ℕ)
    → has_file f (list_files fm start_lsn)
      ≡ (has_file f fm.log_files && leb start_lsn (f + fm.max_entry_number_per_file - 1))
unfolding list_files
list_files_lem fm start_lsn f = wanted_lem fm.max_entry_number_per_file start_lsn f fm.log_files
