-- ===== src/Frames/Pool.antt =====
-- The calls of DiskBufferPool that get, flush and purge frames: disk_buffer_pool.cpp. A pool is the buffer_pool_id of the pages
-- it is asked for. The files, the log and the double write buffer are called on through PageStore.
use ob_preliminary.Common.{
  ℕ, zero, suc, Bool, true, false, Option, none, some, List, [], ◌∷◌, ◌==◌, if◌then◌else◌,
}
use ob_preliminary.Common.Int.{ℤ, eqb_ℤ}
use ob_preliminary.Common.Rc.{Rc, ob_succ}
use ob_preliminary.Common.System.{Call, returns, waits, stops}
use ob_preliminary.Frames.{
  FrameId, Page, Frame, BpFrameManager, set_frame, set_page_num, unpin, get_internal, alloc,
  free_internal, find_list, purge_frames,
}

-- What the pool calls on: the log up to a page's lsn, the double write buffer, the pools that are open, and the file. A read
-- changes the page also where it fails.
pub record PageStore {ℓ} (E : Type ℓ) : Type ℓ where
  pub crc32 : List ℕ → ℕ
  pub flush_log : E → ℤ → Page → E × Rc
  pub add_page : E → FrameId → Page → E × Rc
  pub is_open : E → ℤ → Bool
  pub read_page : E → FrameId → Page → E × Rc × Page
  pub seek : E → FrameId → E × Bool
  pub read_file : E → FrameId → Page → E × Bool × Page

module _ {ℓ} {E : Type ℓ} (store : PageStore E) where
  abbrev set_check_sum : Frame → Frame
  set_check_sum f = record f { page = record (f.page) { check_sum = store.crc32 f.page.content } }

  -- That the log could not be flushed is not looked at.
  unfoldable pub flush_page_internal : ℤ → E → Frame → E × Frame × Rc
  flush_page_internal pool e f =
      let (logged, ignored) = store.flush_log e pool f.page in
      let summed = set_check_sum f in
      let at : FrameId = record { buffer_pool_id = pool; page_num = f.frame_id.page_num } in
      let (e', rc) = store.add_page logged at summed.page in
      if ob_succ rc then (e', record summed { dirty = false }, Rc.success) else (e', summed, rc)

  -- BufferPoolManager::flush_page: in the pool that the frame belongs to.
  unfoldable pub flush_page : E → Frame → E × Frame × Rc
  unfolding flush_page_internal
  flush_page e f =
      let pool = f.frame_id.buffer_pool_id in
      if store.is_open e pool then flush_page_internal pool e f else (e, f, Rc.internal)

  -- The purger of allocate_frame: a clean frame needs no write.
  unfoldable pub purger : ℤ → E → Frame → E × Frame × Rc
  unfolding flush_page_internal flush_page
  purger pool e f =
      if f.dirty
      then if eqb_ℤ f.frame_id.buffer_pool_id pool
        then flush_page_internal pool e f
        else flush_page e f
      else (e, f, Rc.success)

  unfoldable pub load_page : E → FrameId → Frame → E × Rc × Frame
  load_page e id f =
      let (e', rc, page) = store.read_page e id f.page in
      let g = record f { page = page } in
      if ob_succ rc
      then (e', rc, g)
      else let (e'', found) = store.seek e' id in
        if found
        then (let (e3, ok, page') = store.read_file e'' id page in
            let h = record f { page = page' } in
            if ok then (e3, Rc.success, set_page_num h id.page_num) else (e3, Rc.ioerr_read, h))
        else (e'', Rc.ioerr_seek, g)

  -- `while (true)`, as often as the fuel says: a call that waits is still in the loop. The frame is there where the code is
  -- SUCCESS.
  unfoldable pub allocate_frame :
      ℕ → E → BpFrameManager → FrameId → Call (E × BpFrameManager × Rc × Option ℕ)
  unfolding purger
  allocate_frame zero e m id = waits
  allocate_frame (suc fuel) e m id = elim (alloc m id) [
    | none ↦ stops
    | some (m', frame) ↦ elim frame [
      | some a ↦ returns (e, m', Rc.success, some a)
      | none ↦ elim (purge_frames (purger id.buffer_pool_id) e m' 1) [
        | none ↦ stops
        | some (e', m'', n) ↦ allocate_frame fuel e' m'' id
      ]
    ]
  ]

  unfoldable pub purge_frame : E → BpFrameManager → FrameId → ℕ → Option (E × BpFrameManager × Rc)
  unfolding flush_page_internal
  purge_frame e m id a =
      let f = m.memory a in
      if f.pin_count == 1
      then (let (e', g, rc) =
            if f.dirty then flush_page_internal id.buffer_pool_id e f else (e, f, Rc.success) in
          let m' = set_frame m a g in
          if ob_succ rc
          then elim (free_internal m' id a) [
            | none ↦ none
            | some freed ↦ some (e', freed, Rc.success)
          ]
          else some (e', m', rc))
      else some (e, m, Rc.locked_unlock)

  unfoldable pub purge_page : E → BpFrameManager → FrameId → Option (E × BpFrameManager × Rc)
  unfolding get_internal purge_frame
  purge_page e m id =
      let (got, frame) = get_internal m id in
      elim frame [ none ↦ some (e, got, Rc.success) | some a ↦ purge_frame e got id a ]

  unfoldable pub purge_list : E → BpFrameManager → List ℕ → Option (E × BpFrameManager)
  unfolding purge_frame
  purge_list e m [] = some (e, m)
  purge_list e m (a ∷ rest) = elim (purge_frame e m (m.memory a).frame_id a) [
    | none ↦ none
    | some (e', m', rc) ↦ purge_list e' m' rest
  ]

  unfoldable pub purge_all_pages : E → BpFrameManager → ℤ → Option (E × BpFrameManager × Rc)
  unfolding find_list purge_list
  purge_all_pages e m pool =
      let (m', found) = find_list m pool in
      elim (purge_list e m' found) [ none ↦ none | some (e', m'') ↦ some (e', m'', Rc.success) ]

  unfoldable pub get_this_page :
      ℕ → E → BpFrameManager → FrameId → Call (E × BpFrameManager × Rc × Option ℕ)
  unfolding get_internal allocate_frame load_page purge_frame
  get_this_page fuel e m id =
      let (got, match) = get_internal m id in
      elim match [
        | some a ↦ returns (e, got, Rc.success, some a)
        | none ↦ elim (allocate_frame fuel e got id) [
          | waits ↦ waits
          | stops ↦ stops
          | returns (e', m', code, frame) ↦ elim frame [
            | none ↦ returns (e', m', code, none)
            | some a ↦
                let (e'', rc, f) = load_page e' id (m'.memory a) in
                let loaded = set_frame m' a f in
                if ob_succ rc
                then returns (e'', loaded, Rc.success, some a)
                else elim (purge_frame e'' loaded id a) [
                  | none ↦ stops
                  | some (e3, m3, ignored) ↦ returns (e3, m3, rc, none)
                ]
          ]
        ]
      ]

  -- The frames after one that fails stay pinned.
  unfoldable pub flush_each : ℤ → E → BpFrameManager → List ℕ → Option (E × BpFrameManager × Rc)
  unfolding flush_page_internal unpin set_frame
  flush_each pool e m [] = some (e, m, Rc.success)
  flush_each pool e m (a ∷ rest) =
      let (e', f, rc) = flush_page_internal pool e (m.memory a) in
      elim (unpin f) [
        | none ↦ none
        | some g ↦ elim (ob_succ rc) [
          | true ↦ flush_each pool e' (set_frame m a g) rest
          | false ↦ some (e', set_frame m a g, rc)
        ]
      ]

  unfoldable pub flush_all_pages : E → BpFrameManager → ℤ → Option (E × BpFrameManager × Rc)
  unfolding find_list flush_each
  flush_all_pages e m pool = let (m', found) = find_list m pool in flush_each pool e m' found

unfoldable pub unpin_each : BpFrameManager → List ℕ → Option BpFrameManager
unfolding unpin set_frame
unpin_each m [] = some m
unpin_each m (a ∷ rest) = elim (unpin (m.memory a)) [
  | none ↦ none
  | some f ↦ unpin_each (set_frame m a f) rest
]

-- Only what is logged depends on the pins that are left.
unfoldable pub check_all_pages_unpinned : BpFrameManager → ℤ → Option (BpFrameManager × Rc)
unfolding find_list unpin_each
check_all_pages_unpinned m pool =
    let (m', found) = find_list m pool in
    elim (unpin_each m' found) [ none ↦ none | some m'' ↦ some (m'', Rc.success) ]
