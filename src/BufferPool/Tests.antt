-- ===== src/BufferPool/Tests.antt =====
-- A file of four pages, of which 0 and 2 are allocated, in a pool whose frames are numbered like their pages.
use ob_preliminary.Common.{ℕ, ◌≡◌, ◌+◌, ◌/◌, ◌≤◌, refl, false, none, some, List, [], ◌∷◌, arith}
use ob_preliminary.Common.Int.{pos}
use ob_preliminary.Common.Rc.{Rc}
use ob_preliminary.Bitmap.{bytes, get_bit}
use ob_preliminary.RecordPage.{bp_page_data_size}
use ob_preliminary.RecordPage.Count.{count}
use ob_preliminary.BufferPool.{
  BpFileHeader, bitmap_offset, DiskBufferPool, FrameOps, allocate_page, dispose_page, give_back,
  release,
}
use ob_preliminary.BufferPool.Inv.{IsPool}
use ob_preliminary.BufferPool.Allocate.{Allocated, allocate_page_lem, Disposed, dispose_page_lem}
use ob_preliminary.BufferPool.Recovery.{
  PoolCall, allocate_call, dispose_call, after_calls, Agrees, Replays, redo_lem, after_call,
}
use ob_preliminary.BufferPool.Limits.{header_overflow}

abbrev frame_ops : FrameOps ℕ
frame_ops = record {
  get_this_page = λ s n. (s, Rc.success, some n);
  allocate_frame = λ s n. (s, Rc.success, some n);
  get = λ s n. (s, some n);
  free = λ s n f. some s;
  clear_and_flush = λ s f n. (s, Rc.success);
}

abbrev header : BpFileHeader
header = record { buffer_pool_id = 1; page_count = 4; allocated_pages = pos 2; bitmap = 5 ∷ 0 ∷ [] }

abbrev pool : DiskBufferPool ℕ
pool = record { file_header = header; hdr_lsn = pos 7; hdr_dirty = false; log = []; frames = 0 }

header-IsPool : IsPool header
unfolding bytes get_bit count
header-IsPool = record {
  map = record { room = omega arith; byte = (omega arith, (omega arith, tt)) };
  counted = refl;
  some_page = omega arith;
  header_page = refl;
}

allocate_page_lem_example :
    let r = allocate_page frame_ops pool (some (pos 8)) in
    Allocated frame_ops pool (some (pos 8)) r.0 r.1 r.2
unfolding bytes
allocate_page_lem_example =
    allocate_page_lem frame_ops pool (some (pos 8)) header-IsPool (omega arith)

first_free_page : (allocate_page frame_ops pool (some (pos 8))).2 ≡ some 1
unfolding allocate_page
first_free_page = refl

dispose_page_lem_example :
    Disposed frame_ops pool 2 (some (pos 8)) (dispose_page frame_ops pool 2 (some (pos 8)))
unfolding get_bit
dispose_page_lem_example =
    dispose_page_lem frame_ops pool 2 (some (pos 8)) header-IsPool (omega arith) refl

abbrev calls : List PoolCall
calls = allocate_call (pos 8) ∷ dispose_call 2 (pos 9) ∷ allocate_call (pos 10) ∷ []

-- The header on disk and the one in memory are the same at the start.
pool-Agrees : Agrees frame_ops pool pool
pool-Agrees = record {
  same = record {
    left = header-IsPool;
    right = header-IsPool;
    pages = refl;
    size = refl;
    marks = λ j. refl;
  };
  behind = omega arith;
}

redo_lem_example : Replays frame_ops pool pool (after_calls frame_ops pool calls)
unfolding bytes get_bit release after_call give_back
redo_lem_example =
    redo_lem frame_ops (λ s n. λ e. cc) pool pool calls pool-Agrees
      (
        (omega arith, omega arith),
        ((omega arith, omega arith, omega arith, refl, refl), ((omega arith, omega arith), tt)),
      )

-- A file with all the pages that fit the map.
abbrev large : DiskBufferPool ℕ
large = record pool {
  file_header = record header { page_count = 4194080; allocated_pages = pos 4194080 };
}

header_overflow_example :
    let r = allocate_page frame_ops large none in
    (r.1 ≡ Rc.success) × (r.2 ≡ some 4194080) × (bp_page_data_size ≤ bitmap_offset + 4194080 / 8)
header_overflow_example =
    header_overflow frame_ops large none 4194080 refl (omega arith) (omega arith) refl
