-- ===== src/RecordPage.antt =====
-- src/observer/storage/record/record_manager.cpp and .h: a page of fixed-length records in row format.
-- The frame's bytes are seen as the header, the bitmap that follows it, and the bytes from
-- `data_offset` on (`Layout` shows that these regions are disjoint and lie in the page). A slot number
-- is never negative. `log` is the sequence of calls of the record log handler, which are
-- taken to succeed. Latches, pins and the page number are not modelled.
pub mod Layout
pub mod Count
pub mod Slots
pub mod Write
pub mod Insert
pub mod Ops
mod Tests
pub mod Iterate
use ob_preliminary.Common.{
  ℕ, zero, suc, ◌+◌, ◌-◌, ◌*◌, ◌/◌, ◌%◌, Bool, true, false, Option, none, some, List, [], ◌∷◌, ◌++◌,
  leb, ltb, ◌==◌, if◌then◌else◌, take, replicate, read_at, write_at,
}
use ob_preliminary.Common.Rc.{Rc}
use ob_preliminary.Bitmap.{Bitmap, get_bit, set_bit, clear_bit, next_unsetted_bit, next_setted_bit}

-- `sizeof(PageHeader)`: seven `int32_t`.
abbrev pub page_header_size : ℕ
page_header_size = 28

-- page.h: BP_PAGE_SIZE less a PageNum (4), an LSN (8) and a CheckSum (4).
abbrev pub bp_page_data_size : ℕ
bp_page_data_size = 1024 * 8 * 8 * 8 - 4 - 8 - 4

-- `(size + 7) & ~7`
unfoldable pub align8 : ℕ → ℕ
align8 size = (size + 7) / 8 * 8

-- `(int)((page_size - PAGE_HEADER_SIZE - fixed_size - 1) / (record_size + 0.125))`: the quotient of
-- two exact doubles, so its integer part is that of the fraction with both terms times eight.
unfoldable pub page_record_capacity : ℕ → ℕ → ℕ → ℕ
page_record_capacity page_size record_size fixed_size =
    (page_size - page_header_size - fixed_size - 1) * 8 / (record_size * 8 + 1)

unfoldable pub page_bitmap_size : ℕ → ℕ
page_bitmap_size record_capacity = (record_capacity + 7) / 8

pub record PageHeader : Type 0 where
  pub record_num : ℕ
  pub column_num : ℕ
  pub record_real_size : ℕ
  pub record_size : ℕ
  pub record_capacity : ℕ
  pub col_idx_offset : ℕ
  pub data_offset : ℕ

-- A call of the record log handler.
pub data RecordLog : Type 0 where
  insert_log : ℕ → List ℕ → RecordLog
  delete_log : ℕ → RecordLog
  update_log : ℕ → List ℕ → RecordLog
  new_page_log : RecordLog

pub record Page : Type 0 where
  pub header : PageHeader
  pub open header use *
  pub bitmap : List ℕ
  pub records : List ℕ
  pub dirty : Bool
  pub log : List RecordLog

-- The loop of `fix_record_capacity`: `while (last_record_offset > BP_PAGE_DATA_SIZE)`. Each round
-- takes one from the capacity, so a fuel of the capacity is enough.
unfoldable pub fix_from : ℕ → ℕ → ℕ → ℕ → ℕ
fix_from zero record_size capacity last = capacity
fix_from (suc fuel) record_size capacity last =
    let rest = fix_from fuel record_size (capacity - 1) (last - record_size) in
    if ltb bp_page_data_size last then rest else capacity

unfoldable pub fix_record_capacity : PageHeader → PageHeader
unfolding fix_from
fix_record_capacity h = record h {
  record_capacity =
      fix_from h.record_capacity h.record_size h.record_capacity
        (h.data_offset + h.record_capacity * h.record_size);
}

-- The header that `init_empty_page` writes for the row format, which has no column index.
unfoldable pub empty_header : ℕ → PageHeader
unfolding align8 page_record_capacity page_bitmap_size fix_record_capacity
empty_header record_size =
    let size = align8 record_size in
    let capacity = page_record_capacity bp_page_data_size size 0 in
    let offset = align8 (page_header_size + page_bitmap_size capacity) in
    fix_record_capacity (record {
      record_num = 0;
      column_num = 0;
      record_real_size = record_size;
      record_size = size;
      record_capacity = capacity;
      col_idx_offset = offset;
      data_offset = offset;
    })

-- `init_empty_page`: the bitmap is cleared, the record bytes stay as they are in the frame.
unfoldable pub init_empty_page : ℕ → List ℕ → Page
unfolding empty_header
init_empty_page record_size frame_bytes =
    let h = empty_header record_size in
    record {
      header = h;
      bitmap = replicate (page_bitmap_size h.record_capacity) 0;
      records = frame_bytes;
      dirty = false;
      log = new_page_log ∷ [];
    }

-- The bitmap over the page's capacity, and the bytes of a slot.
abbrev pub bits : Page → Bitmap
bits p = record { bitmap = p.bitmap; size = p.record_capacity }

abbrev pub slot_at : Page → ℕ → ℕ
slot_at p slot = p.record_size * slot

-- `memcpy(get_record_data(slot), data, record_real_size)`
unfoldable pub put_record : Page → ℕ → List ℕ → List ℕ
put_record p slot data_in = write_at p.records (slot_at p slot) (take p.record_real_size data_in)

unfoldable pub read_record : Page → ℕ → List ℕ
read_record p slot = read_at p.records (slot_at p slot) p.record_real_size

-- `none` is the undefined behaviour of `set_bit(-1)`, which the code does not rule out by a test.
unfoldable pub insert_record : Page → List ℕ → Option (Rc × Option ℕ × Page)
unfolding put_record
insert_record p data_in =
    if p.record_num == p.record_capacity
    then some (Rc.record_nomem, none, p)
    else elim (next_unsetted_bit (bits p) 0) [
      | none ↦ none
      | some index ↦ some (
        Rc.success,
        some index,
        record p {
          header = record (p.header) { record_num = p.record_num + 1 };
          bitmap = (set_bit (bits p) index).bitmap;
          records = put_record p index data_in;
          dirty = true;
          log = p.log ++ insert_log index data_in ∷ [];
        },
      )
    ]

unfoldable pub recover_insert_record : Page → List ℕ → ℕ → Rc × Page
unfolding put_record
recover_insert_record p data_in slot =
    if leb p.record_capacity slot then (Rc.record_invalid_rid, p) else (
      Rc.success,
      record p {
        header =
            if get_bit (bits p) slot
            then p.header
            else record (p.header) { record_num = p.record_num + 1 };
        bitmap = if get_bit (bits p) slot then p.bitmap else (set_bit (bits p) slot).bitmap;
        records = put_record p slot data_in;
        dirty = true;
      },
    )

unfoldable pub delete_record : Page → ℕ → Rc × Page
delete_record p slot =
    if get_bit (bits p) slot
    then (
      Rc.success,
      record p {
        header = record (p.header) { record_num = p.record_num - 1 };
        bitmap = (clear_bit (bits p) slot).bitmap;
        dirty = true;
        log = p.log ++ delete_log slot ∷ [];
      },
    )
    else (Rc.record_not_exist, p)

-- The copy is left out where `data` is the slot itself; then it would change nothing.
unfoldable pub update_record : Page → ℕ → List ℕ → Rc × Page
unfolding put_record
update_record p slot data_in =
    if leb p.record_capacity slot
    then (Rc.invalid_argument, p)
    else if get_bit (bits p) slot
    then (
      Rc.success,
      record p {
        records = put_record p slot data_in;
        dirty = true;
        log = p.log ++ update_log slot data_in ∷ [];
      },
    )
    else (Rc.record_not_exist, p)

unfoldable pub get_record : Page → ℕ → Rc × Option (List ℕ)
unfolding read_record
get_record p slot =
    if leb p.record_capacity slot
    then (Rc.record_invalid_rid, none)
    else if get_bit (bits p) slot
    then (Rc.success, some (read_record p slot))
    else (Rc.record_not_exist, none)

unfoldable pub is_full : Page → Bool
is_full p = leb p.record_capacity p.record_num

-- `RecordPageIterator`: the slot that `next` reads, `none` for -1.
abbrev pub Iterator : Type 0
Iterator = Option ℕ

unfoldable pub iterator_init : Page → ℕ → Iterator
iterator_init p start = next_setted_bit (bits p) start

-- `next`: the record at the current slot, and the iterator moved on.
unfoldable pub iterator_next : Page → ℕ → Option (List ℕ) × Iterator
unfolding get_record
iterator_next p slot = ((get_record p slot).1, next_setted_bit (bits p) (slot + 1))

-- `while (iter.has_next()) { iter.next(record); … }`
unfoldable pub scan : ℕ → Page → Iterator → List (ℕ × Option (List ℕ))
unfolding iterator_next
scan zero p it = []
scan (suc fuel) p it = elim it [
  | none ↦ []
  | some slot ↦ (slot, (iterator_next p slot).0) ∷ scan fuel p (iterator_next p slot).1
]
