-- ===== src/Dblwr/Tests.antt =====
-- Runs of the double write buffer.
use ob_preliminary.Common.{
  ℕ, ◌≡◌, refl, true, false, Option, none, some, List, [], ◌∷◌, length, if◌then◌else◌,
}
use ob_preliminary.Common.Int.{pos, eqb_ℤ}
use ob_preliminary.Common.Rc.{Rc}
use ob_preliminary.Frames.{Page}
use ob_preliminary.Dblwr.{
  DoubleWritePageKey, Entry, DiskDoubleWriteBuffer, DblwrFiles, find_page, store_page, write_page,
  flush_each, flush_page, after_write, add_page, insert_sorted, erase_if, clear_each, clear_pages,
}
use ob_preliminary.Dblwr.Added.{PageAdded, add_page_lem}
use ob_preliminary.Dblwr.Dangling.{flush_page_dangles}

-- The slots that were written; the pools cannot write their page 2.
abbrev disk : DblwrFiles (List ℕ)
disk = record {
  write_slot = λ e i p. (i ∷ e, Rc.success);
  write_header = λ e n. (e, Rc.success);
  pool_write = λ e key p. (e, if eqb_ℤ key.page_num (pos 2) then Rc.ioerr_write else Rc.success);
  pool_is_open = λ e pool. true;
  sync = λ e. e;
}

abbrev key : ℕ → ℕ → DoubleWritePageKey
key pool n = record { buffer_pool_id = pos pool; page_num = pos n }

abbrev bytes : Page
bytes = record { lsn = pos 0; check_sum = 0; content = 5 ∷ [] }

abbrev entry : DoubleWritePageKey → ℕ → Entry
entry k i = record {
  dblwr_page = record { key = k; page_index = i; valid = true; page = bytes };
  deleted = false;
}

abbrev holding : List Entry → DiskDoubleWriteBuffer
holding xs = record { max_pages = 16; page_cnt = length xs; dblwr_pages = xs }

abbrev two : DiskDoubleWriteBuffer
two = holding (entry (key 1 1) 0 ∷ entry (key 1 2) 1 ∷ [])

add_page_example : PageAdded disk (λ e pool. refl) [] two (key 1 3) bytes
add_page_example =
    add_page_lem disk (λ e pool. refl) [] two (key 1 3) bytes (refl, refl, (refl, refl, tt))

-- Page 1 is written and deleted, and page 2 fails.
abbrev half_flushed : DiskDoubleWriteBuffer
half_flushed = holding (
    record {
      dblwr_page = record { key = key 1 1; page_index = 0; valid = false; page = bytes };
      deleted = true;
    }
    ∷ entry (key 1 2) 1
    ∷ [])

flush_page_dangles_example : flush_page disk [] half_flushed ≡ none
unfolding flush_page flush_each write_page
flush_page_dangles_example =
    flush_page_dangles disk [] [] two half_flushed (entry (key 1 1) 0) (entry (key 1 2) 1 ∷ [])
      ([], Rc.success) (0 ∷ [], Rc.ioerr_write) refl refl refl refl refl refl

-- Two pages of two pools, of which the first is cleared; a page is added then.
abbrev mixed : DiskDoubleWriteBuffer
mixed = holding (entry (key 1 1) 0 ∷ entry (key 2 1) 1 ∷ [])

slots_of : Option (List ℕ × DiskDoubleWriteBuffer × Rc) → List ℕ
slots_of none = []
slots_of (some r) = r.0

cleared_then_added :
    Option (List ℕ × DiskDoubleWriteBuffer × Rc) → Option (List ℕ × DiskDoubleWriteBuffer × Rc)
cleared_then_added none = none
cleared_then_added (some r) = add_page disk [] r.1 (key 2 3) bytes

-- The new page is written to slot 1, which page 1 of pool 2 holds.
slot_used_twice : slots_of (cleared_then_added (clear_pages disk [] mixed (pos 1))) ≡ 1 ∷ []
unfolding slots_of cleared_then_added clear_pages erase_if insert_sorted clear_each add_page
    find_page store_page after_write
slot_used_twice = refl

-- A page that cannot be written to its pool is dropped with success.
cleared_rc : Option (List ℕ × DiskDoubleWriteBuffer × Rc) → Option (Rc × ℕ)
cleared_rc none = none
cleared_rc (some r) = some (r.2, length r.1.dblwr_pages)

page_dropped :
    cleared_rc (clear_pages disk [] (holding (entry (key 1 2) 0 ∷ [])) (pos 1))
    ≡ some (Rc.success, 0)
unfolding cleared_rc clear_pages erase_if insert_sorted clear_each
page_dropped = refl
