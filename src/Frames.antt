-- ===== src/Frames.antt =====
-- The frames of the buffer pool: Frame of storage/buffer/frame.h, BPFrameManager of disk_buffer_pool.cpp over the pool of
-- MemPoolSimple, and (Pool) the calls of DiskBufferPool that get, flush and purge frames. A frame is an address in `memory`; `frames` is the LRU
-- cache by its entries (LruCache.Calls). A failed ASSERT is `none`. Latches and the access time, which is not read, are left out.
pub mod Inv
pub mod Members
pub mod Alloc
pub mod Free
pub mod Find
pub mod PurgeSteps
pub mod Purge
pub mod Pool
pub mod Held
pub mod Loop
pub mod Ends
pub mod WriteBack
pub mod PurgePage
pub mod LoadPage
pub mod GetPage
pub mod Tests
use ob_preliminary.Common.{
  ℕ, zero, suc, ◌+◌, ◌-◌, Bool, true, false, Option, none, some, List, [], ◌∷◌, ◌++◌, ◌&&◌, leb,
  ◌==◌, max, if◌then◌else◌, length,
}
use mathlib.Core.List.{reverse}
use ob_preliminary.Common.Int.{ℤ, pos, negsuc, eqb_ℤ}
use ob_preliminary.Common.Rc.{Rc, ob_succ}
use ob_preliminary.LruCache.Spec.{lookup, without, used, looked_up}

pub record FrameId : Type 0 where
  pub buffer_pool_id : ℤ
  pub page_num : ℤ

unfoldable pub equal_to : FrameId → FrameId → Bool
equal_to a b = eqb_ℤ a.buffer_pool_id b.buffer_pool_id && eqb_ℤ a.page_num b.page_num

pub record Page : Type 0 where
  pub lsn : ℤ
  pub check_sum : ℕ
  pub content : List ℕ

pub record Frame : Type 0 where
  pub dirty : Bool
  pub pin_count : ℕ
  pub frame_id : FrameId
  pub page : Page

abbrev pub can_purge : Frame → Bool
can_purge f = f.pin_count == 0

unfoldable pub pin : Frame → Frame
pin f = record f { pin_count = f.pin_count + 1 }

-- The ASSERT is on a positive pin count.
unfoldable pub unpin : Frame → Option Frame
unpin f = if f.pin_count == 0 then none else some (record f { pin_count = f.pin_count - 1 })

abbrev pub set_page_num : Frame → ℤ → Frame
set_page_num f n = record f { frame_id = record (f.frame_id) { page_num = n } }

pub record BpFrameManager : Type 0 where
  pub frames : List (FrameId × ℕ)
  pub memory : ℕ → Frame
  pub frees : List ℕ
  pub in_use : List ℕ

unfoldable pub set_frame : BpFrameManager → ℕ → Frame → BpFrameManager
set_frame m a f = record m { memory = λ b. if b == a then f else m.memory b }

-- MemPoolSimple::alloc, of a pool that does not grow.
unfoldable pub pool_alloc : BpFrameManager → BpFrameManager × Option ℕ
pool_alloc m = elim m.frees [
  | [] ↦ (m, none)
  | a ∷ rest ↦ (record m { frees = rest; in_use = a ∷ m.in_use }, some a)
]

abbrev pub member : ℕ → List ℕ → Bool
member a [] = false
member a (x ∷ xs) = if x == a then true else member a xs

unfoldable pub drop_one : ℕ → List ℕ → List ℕ
drop_one a [] = []
drop_one a (x ∷ xs) = if x == a then xs else x ∷ drop_one a xs

-- MemPoolSimple::free: a frame that is not in use is not taken back.
unfoldable pub pool_free : BpFrameManager → ℕ → BpFrameManager
unfolding drop_one
pool_free m a =
    if member a m.in_use
    then record m { in_use = drop_one a m.in_use; frees = m.frees ++ a ∷ [] }
    else m

unfoldable pub get_internal : BpFrameManager → FrameId → BpFrameManager × Option ℕ
unfolding looked_up pin set_frame
get_internal m id = elim (lookup equal_to id m.frames) [
  | none ↦ (m, none)
  | some a ↦
      let touched = record m { frames = looked_up equal_to id m.frames } in
      (set_frame touched a (pin (m.memory a)), some a)
]

-- A new frame of `alloc` for a page: the rest of it is what its last use left.
unfoldable pub take_frame : BpFrameManager → FrameId → ℕ → Option (BpFrameManager × Option ℕ)
unfolding pin set_frame used
take_frame m id a =
    let named = record (m.memory a) { frame_id = id } in
    let known = record m { frames = used equal_to id a m.frames } in
    if (m.memory a).pin_count == 0 then some (set_frame known a (pin named), some a) else none

unfoldable pub alloc : BpFrameManager → FrameId → Option (BpFrameManager × Option ℕ)
unfolding pool_alloc get_internal take_frame
alloc m id =
    let (got, frame) = get_internal m id in
    elim frame [
      | some a ↦ some (got, some a)
      | none ↦
          let (left, new) = pool_alloc got in
          elim new [ none ↦ some (left, none) | some a ↦ take_frame left id a ]
    ]

unfoldable pub free_internal : BpFrameManager → FrameId → ℕ → Option BpFrameManager
unfolding looked_up without unpin set_frame pool_free
free_internal m id a = elim (lookup equal_to id m.frames) [
  | none ↦ none
  | some source ↦
      if (source == a) && ((m.memory a).pin_count == 1)
      then elim (unpin (set_page_num (m.memory a) (negsuc 0))) [
        | none ↦ none
        | some f ↦
            let touched = looked_up equal_to id m.frames in
            some (pool_free (record (set_frame m a f) { frames = without equal_to id touched }) a)
      ]
      else none
]

-- The frames of one file, from the last one used on, each of them pinned.
unfoldable pub find_list_in : ℤ → List (FrameId × ℕ) → BpFrameManager → BpFrameManager × List ℕ
unfolding pin set_frame
find_list_in pool [] m = (m, [])
find_list_in pool ((id, a) ∷ es) m =
    let mine = eqb_ℤ pool id.buffer_pool_id in
    let (m', found) = find_list_in pool es (if mine then set_frame m a (pin (m.memory a)) else m) in
    (m', if mine then a ∷ found else found)

unfoldable pub find_list : BpFrameManager → ℤ → BpFrameManager × List ℕ
unfolding find_list_in
find_list m pool = find_list_in pool m.frames m

-- The frames to purge, at most `n`: from the one whose last use is longest ago on, those that nobody pins. They are
-- pinned as they are found.
unfoldable pub find_purgeable : ℕ → List (FrameId × ℕ) → BpFrameManager → BpFrameManager × List ℕ
unfolding pin set_frame
find_purgeable zero es m = (m, [])
find_purgeable (suc n) [] m = (m, [])
find_purgeable (suc n) ((id, a) ∷ es) m = elim (can_purge (m.memory a)) [
  | true ↦
      let (m', found) = find_purgeable n es (set_frame m a (pin (m.memory a))) in (m', a ∷ found)
  | false ↦ find_purgeable (suc n) es m
]

module _ {ℓ} {E : Type ℓ} where
  -- The purger over the frames that were found: how many were freed.
  unfoldable pub purge_each :
      (E → Frame → E × Frame × Rc) → E → BpFrameManager → List ℕ → Option (E × BpFrameManager × ℕ)
  unfolding free_internal unpin set_frame
  purge_each purger e m [] = some (e, m, 0)
  purge_each purger e m (a ∷ rest) =
      let (e', f, rc) = purger e (m.memory a) in
      let m' = set_frame m a f in
      elim (ob_succ rc) [
        | true ↦ elim (free_internal m' f.frame_id a) [
          | none ↦ none
          | some freed ↦ elim (purge_each purger e' freed rest) [
            | none ↦ none
            | some (e'', m'', n) ↦ some (e'', m'', suc n)
          ]
        ]
        | false ↦ elim (unpin f) [
          | none ↦ none
          | some g ↦ purge_each purger e' (set_frame m' a g) rest
        ]
      ]

  unfoldable pub purge_frames :
      (E → Frame → E × Frame × Rc) → E → BpFrameManager → ℕ → Option (E × BpFrameManager × ℕ)
  unfolding find_purgeable
  purge_frames purger e m count =
      let (m', found) = find_purgeable (max count 1) (reverse m.frames) m in
      purge_each purger e m' found
