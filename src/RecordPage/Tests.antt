-- ===== src/RecordPage/Tests.antt =====
-- Runs of a page with two slots of eight bytes for records of three.
use ob_preliminary.Common.{ℕ, ◌≡◌, ◌≢◌, ◌<◌, refl, false, none, some, List, [], ◌∷◌, arith}
use ob_preliminary.Common.Rc.{Rc}
use ob_preliminary.Bitmap.{bytes, get_bit}
use ob_preliminary.RecordPage.{
  Page, insert_record, delete_record, delete_log, iterator_init, scan, read_record,
}
use ob_preliminary.RecordPage.Count.{count}
use ob_preliminary.RecordPage.Slots.{slots, IsPage}
use ob_preliminary.RecordPage.Write.{update}
use ob_preliminary.RecordPage.Insert.{insert_record_lem}
use ob_preliminary.RecordPage.Ops.{delete_record_lem}
use ob_preliminary.RecordPage.Iterate.{scan_lem, live}

-- Slot 0 holds a record, slot 1 is free.
abbrev page : Page
page = record {
  header = record {
    record_num = 1;
    column_num = 0;
    record_real_size = 3;
    record_size = 8;
    record_capacity = 2;
    col_idx_offset = 32;
    data_offset = 32;
  };
  bitmap = 1 ∷ [];
  records = 5 ∷ 6 ∷ 7 ∷ 0 ∷ 0 ∷ 0 ∷ 0 ∷ 0 ∷ 0 ∷ 0 ∷ 0 ∷ 0 ∷ 0 ∷ 0 ∷ 0 ∷ 0 ∷ [];
  dirty = false;
  log = [];
}

page-IsPage : IsPage page
unfolding bytes get_bit count
page-IsPage = record {
  map = record { room = omega arith; byte = (omega arith, tt) };
  counted = refl;
  room = omega arith;
  fit = omega arith;
}

abbrev new_record : List ℕ
new_record = 1 ∷ 2 ∷ 3 ∷ []

insert_record_lem_example :
    (i : ℕ) × (q : Page) × (insert_record page new_record ≡ some (Rc.success, some i, q))
    × (i < 2)
    × (slots page i ≡ none)
    × ((j : ℕ) → j < i → slots page j ≢ none)
    × ((j : ℕ) → slots q j ≡ update (slots page) i (some new_record) j)
    × IsPage q
insert_record_lem_example =
    insert_record_lem page new_record page-IsPage (omega arith) (omega arith)

delete_record_lem_example :
    let (rc, q) = delete_record page 0 in
    (slots page 0 ≡ none → (rc ≡ Rc.record_not_exist) × (q ≡ page))
    × (slots page 0 ≢ none
        → (rc ≡ Rc.success)
          × ((j : ℕ) → slots q j ≡ update (slots page) 0 none j)
          × IsPage q
          × (q.log ≡ delete_log 0 ∷ []))
delete_record_lem_example = delete_record_lem page 0 page-IsPage (omega arith)

scan_lem_example : scan 3 page (iterator_init page 0) ≡ live page 0 2
scan_lem_example = scan_lem page 0 (omega arith)

visited : live page 0 2 ≡ (0, some (5 ∷ 6 ∷ 7 ∷ [])) ∷ []
unfolding live slots read_record get_bit
visited = refl

deleted : (delete_record page 0).0 ≡ Rc.success
unfolding delete_record get_bit
deleted = refl
