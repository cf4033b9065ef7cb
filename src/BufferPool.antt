-- ===== src/BufferPool.antt =====
-- The page allocation of DiskBufferPool in storage/buffer/disk_buffer_pool.cpp and .h, with its log of
-- buffer_pool_log.cpp and the redo of it. The frames are an interface, `FrameOps`; a pointer to a frame is an address.
pub mod Inv
pub mod Scan
pub mod Allocate
pub mod Redo
pub mod Recovery
pub mod Limits
pub mod Tests
use ob_preliminary.Common.{
  ℕ, zero, suc, ◌+◌, ◌-◌, ◌*◌, ◌/◌, Bool, true, false, Option, none, some, List, [], ◌∷◌, ◌++◌, leb,
  ltb, ◌==◌, if◌then◌else◌,
}
use ob_preliminary.Common.Int.{ℤ, pos, leb_ℤ, ltb_ℤ, ◌+ℤ◌, ◌-ℤ◌}
use ob_preliminary.Common.Rc.{Rc}
use ob_preliminary.Bitmap.{Bitmap, get_bit, set_bit, clear_bit, next_setted_bit}
use ob_preliminary.RecordPage.{bp_page_data_size}

pub record BpFileHeader : Type 0 where
  pub buffer_pool_id : ℕ
  pub page_count : ℕ
  pub allocated_pages : ℤ
  pub bitmap : List ℕ

-- Where the map starts: behind three numbers of four bytes.
abbrev pub bitmap_offset : ℕ
bitmap_offset = 4 + 4 + 4

-- `(BP_PAGE_DATA_SIZE - sizeof(page_count) - sizeof(allocated_pages)) * 8`
abbrev pub max_page_num : ℕ
max_page_num = (bp_page_data_size - 4 - 4) * 8

pub data BufferPoolOperation : Type 0 where
  allocate : BufferPoolOperation
  deallocate : BufferPoolOperation

-- A log entry: its number, the operation and the page.
pub record BufferPoolLogEntry : Type 0 where
  pub lsn : ℤ
  pub operation : BufferPoolOperation
  pub page_num : ℕ

-- The header page in memory, and the entries that were logged.
pub record DiskBufferPool {ℓ} (S : Type ℓ) : Type ℓ where
  pub file_header : BpFileHeader
  pub hdr_lsn : ℤ
  pub hdr_dirty : Bool
  pub log : List BufferPoolLogEntry
  pub frames : S

-- What the allocation calls of the frames: a frame with the page, a new frame for a page, the frame of a page in
-- memory, the release of a frame (`none` for a failed ASSERT), and a frame made a page of zeros and flushed.
pub record FrameOps {ℓ} (S : Type ℓ) : Type ℓ where
  pub get_this_page : S → ℕ → S × Rc × Option ℕ
  pub allocate_frame : S → ℕ → S × Rc × Option ℕ
  pub get : S → ℕ → S × Option ℕ
  pub free : S → ℕ → ℕ → Option S
  pub clear_and_flush : S → ℕ → ℕ → S × Rc

-- A bit of the header's map. The map is `page_count` bits long for `Bitmap`, which does not matter here.
abbrev pub page_map : BpFileHeader → Bitmap
page_map h = record { bitmap = h.bitmap; size = h.page_count }

unfoldable pub mark_page : BpFileHeader → ℕ → BpFileHeader
unfolding set_bit
mark_page h page_num = record h { bitmap = (set_bit (page_map h) page_num).bitmap }

unfoldable pub unmark_page : BpFileHeader → ℕ → BpFileHeader
unfolding clear_bit
unmark_page h page_num = record h { bitmap = (clear_bit (page_map h) page_num).bitmap }

-- `for (int i = 0; i < page_count; i++)` up to the first clear bit; the count of rounds left comes first.
unfoldable pub first_free : ℕ → BpFileHeader → ℕ → Option ℕ
unfolding get_bit
first_free zero h i = none
first_free (suc n) h i =
    let rest = first_free n h (i + 1) in if get_bit (page_map h) i then rest else some i

module _ {ℓ} {S : Type ℓ} where
  -- `log_handler_.allocate_page(page_num, lsn)` and `deallocate_page`, `hdr_frame_->set_lsn(lsn)`: the number is
  -- what the log gave, or 0 if the append failed, which is ignored.
  unfoldable pub log_page : DiskBufferPool S → BufferPoolOperation → ℕ → Option ℤ → DiskBufferPool S
  log_page p operation page_num none = record p { hdr_lsn = pos 0 }
  log_page p operation page_num (some lsn) = record p {
    hdr_lsn = lsn;
    log = p.log ++ record { lsn = lsn; operation = operation; page_num = page_num } ∷ [];
  }

  -- The rest of disposing of a page, once it has no frame.
  unfoldable pub give_back : DiskBufferPool S → ℕ → Option ℤ → DiskBufferPool S
  unfolding unmark_page log_page
  give_back p page_num appended =
      let logged = log_page p deallocate page_num appended in
      let h = p.file_header in
      let fewer = record h { allocated_pages = h.allocated_pages -ℤ pos 1 } in
      record logged { file_header = unmark_page fewer page_num; hdr_dirty = true }

  module _ (ops : FrameOps S) where
    unfoldable pub reuse_page : DiskBufferPool S → ℕ → Option ℤ → DiskBufferPool S × Rc × Option ℕ
    unfolding mark_page log_page
    reuse_page p i appended =
        let h = p.file_header in
        let taken = record h { allocated_pages = h.allocated_pages +ℤ pos 1 } in
        let logged =
          log_page (record p { file_header = mark_page taken i; hdr_dirty = true }) allocate i
            appended in
        let (frames, rc, frame) = ops.get_this_page logged.frames i in
        (record logged { frames = frames }, rc, frame)

    -- The rest of extending the file, from what allocate_frame gave on.
    unfoldable pub grow :
        DiskBufferPool S → ℕ → S → Rc → Option ℕ → DiskBufferPool S × Rc × Option ℕ
    unfolding mark_page
    grow logged page_num frames rc none = (record logged { frames = frames }, rc, none)
    grow logged page_num frames rc (some frame) =
        let h = logged.file_header in
        let more = record h {
          allocated_pages = h.allocated_pages +ℤ pos 1;
          page_count = h.page_count + 1;
        } in
        let (flushed, ignored) = ops.clear_and_flush frames frame page_num in
        (
          record logged {
            file_header = mark_page more page_num;
            hdr_dirty = true;
            frames = flushed;
          },
          Rc.success,
          some frame,
        )

    unfoldable pub extend_file : DiskBufferPool S → Option ℤ → DiskBufferPool S × Rc × Option ℕ
    unfolding log_page grow
    extend_file p appended =
        let page_num = p.file_header.page_count in
        if leb max_page_num page_num
        then (p, Rc.bufferpool_nobuf, none)
        else let logged = log_page p allocate page_num appended in
          let (frames, rc, frame) = ops.allocate_frame logged.frames page_num in
          grow logged page_num frames rc frame

    unfoldable pub allocate_page : DiskBufferPool S → Option ℤ → DiskBufferPool S × Rc × Option ℕ
    unfolding first_free reuse_page extend_file
    allocate_page p appended =
        let h = p.file_header in
        if ltb_ℤ h.allocated_pages (pos h.page_count)
        then elim (first_free h.page_count h 0) [
          | some i ↦ reuse_page p i appended
          | none ↦ extend_file p appended
        ]
        else extend_file p appended

    unfoldable pub release : S → ℕ → Option S
    release frames page_num =
        let (got, used_frame) = ops.get frames page_num in
        elim used_frame [ none ↦ some got | some frame ↦ ops.free got page_num frame ]

    unfoldable pub dispose_page : DiskBufferPool S → ℕ → Option ℤ → Option (DiskBufferPool S × Rc)
    dispose_page p page_num appended =
        if page_num == 0 then some (p, Rc.internal) else elim (release p.frames page_num) [
          | none ↦ none
          | some frames ↦
              some (give_back (record p { frames = frames }) page_num appended, Rc.success)
        ]

  unfoldable pub recover_page : DiskBufferPool S → ℕ → DiskBufferPool S × Rc
  unfolding mark_page get_bit
  recover_page p page_num =
      let h = p.file_header in
      if get_bit (page_map h) page_num then (p, Rc.success) else (
        record p {
          file_header = record (mark_page h page_num) {
            allocated_pages = h.allocated_pages +ℤ pos 1;
            page_count = h.page_count + 1;
          };
          hdr_dirty = true;
        },
        Rc.success,
      )

  unfoldable pub redo_allocate_page : DiskBufferPool S → ℤ → ℕ → DiskBufferPool S × Rc
  unfolding mark_page get_bit
  redo_allocate_page p lsn page_num =
      let h = p.file_header in
      if leb_ℤ lsn p.hdr_lsn
      then (p, Rc.success)
      else if ltb page_num h.page_count
      then if get_bit (page_map h) page_num then (p, Rc.success) else (
        record p {
          file_header = record (mark_page h page_num) {
            allocated_pages = h.allocated_pages +ℤ pos 1;
          };
          hdr_dirty = true;
        },
        Rc.success,
      )
      else if ltb h.page_count page_num
      then (p, Rc.internal)
      else if leb max_page_num h.page_count
      then (p, Rc.internal)
      else let more = record h {
        allocated_pages = h.allocated_pages +ℤ pos 1;
        page_count = h.page_count + 1;
      } in
        (
          record p { file_header = mark_page more page_num; hdr_lsn = lsn; hdr_dirty = true },
          Rc.success,
        )

  unfoldable pub redo_deallocate_page : DiskBufferPool S → ℤ → ℕ → DiskBufferPool S × Rc
  unfolding unmark_page get_bit
  redo_deallocate_page p lsn page_num =
      let h = p.file_header in
      if leb_ℤ lsn p.hdr_lsn
      then (p, Rc.success)
      else if leb h.page_count page_num
      then (p, Rc.internal)
      else if get_bit (page_map h) page_num
      then (
        record p {
          file_header = record (unmark_page h page_num) {
            allocated_pages = h.allocated_pages -ℤ pos 1;
          };
          hdr_lsn = lsn;
          hdr_dirty = true;
        },
        Rc.success,
      )
      else (p, Rc.internal)

  unfoldable pub check_page_num : DiskBufferPool S → ℕ → Rc
  unfolding get_bit
  check_page_num p page_num =
      let h = p.file_header in
      if leb h.page_count page_num
      then Rc.bufferpool_invalid_page_num
      else if get_bit (page_map h) page_num
      then Rc.success
      else Rc.bufferpool_invalid_page_num

  -- BufferPoolLogReplayer::replay, for an entry of this pool.
  unfoldable pub replay : DiskBufferPool S → BufferPoolLogEntry → DiskBufferPool S × Rc
  unfolding redo_allocate_page redo_deallocate_page
  replay p e = elim e.operation [
    | allocate ↦ redo_allocate_page p e.lsn e.page_num
    | deallocate ↦ redo_deallocate_page p e.lsn e.page_num
  ]
