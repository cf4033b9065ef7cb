-- ===== src/Dblwr.antt =====
-- The double write buffer of the buffer pool: storage/buffer/double_write_buffer.cpp and .h. The map of pages is the list of its
-- entries, in the order of insertion; where the code walks it the order is left open. A failed ASSERT, and the use of a page that
-- was deleted, are `none`. The buffer's file and the files of the pools are called on through DblwrFiles.
pub mod Slots
pub mod Flushes
pub mod Added
pub mod Dangling
pub mod Tests
use ob_preliminary.Common.{
  ℕ, suc, ◌+◌, Bool, true, false, Option, none, some, List, [], ◌∷◌, ◌++◌, ◌&&◌, leb, ltb, length,
  if◌then◌else◌,
}
use ob_preliminary.Common.Int.{ℤ, eqb_ℤ, ltb_ℤ}
use ob_preliminary.Common.Rc.{Rc, ob_succ}
use ob_preliminary.Frames.{Page}

pub record DoubleWritePageKey : Type 0 where
  pub buffer_pool_id : ℤ
  pub page_num : ℤ

abbrev pub same_key : DoubleWritePageKey → DoubleWritePageKey → Bool
same_key a b = eqb_ℤ a.buffer_pool_id b.buffer_pool_id && eqb_ℤ a.page_num b.page_num

pub record DoubleWritePage : Type 0 where
  pub key : DoubleWritePageKey
  pub page_index : ℕ
  pub valid : Bool
  pub page : Page

-- An entry of the map, and whether its page has been deleted.
pub record Entry : Type 0 where
  pub dblwr_page : DoubleWritePage
  pub deleted : Bool

pub record DiskDoubleWriteBuffer : Type 0 where
  pub max_pages : ℕ
  pub page_cnt : ℕ
  pub dblwr_pages : List Entry

-- write_slot and write_header seek in the buffer's file and write; pool_write is DiskBufferPool::write_page.
pub record DblwrFiles {ℓ} (E : Type ℓ) : Type ℓ where
  pub write_slot : E → ℕ → DoubleWritePage → E × Rc
  pub write_header : E → ℕ → E × Rc
  pub pool_write : E → DoubleWritePageKey → Page → E × Rc
  pub pool_is_open : E → ℤ → Bool
  pub sync : E → E

unfoldable pub find_page : DoubleWritePageKey → List Entry → Option Entry
find_page key [] = none
find_page key (x ∷ xs) = if same_key x.dblwr_page.key key then some x else find_page key xs

-- `iter->second->page = page`.
unfoldable pub store_page : DoubleWritePageKey → Page → List Entry → List Entry
store_page key page [] = []
store_page key page (x ∷ xs) =
    if same_key x.dblwr_page.key key
    then record x { dblwr_page = record (x.dblwr_page) { page = page } } ∷ xs
    else x ∷ store_page key page xs

unfoldable pub read_page : DiskDoubleWriteBuffer → DoubleWritePageKey → Option (Rc × Option Page)
unfolding find_page
read_page b key = elim (find_page key b.dblwr_pages) [
  | none ↦ some (Rc.bufferpool_invalid_page_num, none)
  | some x ↦ if x.deleted then none else some (Rc.success, some x.dblwr_page.page)
]

module _ {ℓ} {E : Type ℓ} (files : DblwrFiles E) where
  abbrev pub write_page_internal : E → DoubleWritePage → E × Rc
  write_page_internal e p = files.write_slot e p.page_index p

  unfoldable pub write_page : E → DoubleWritePage → Option (E × Rc)
  write_page e p =
      if p.valid
      then if files.pool_is_open e p.key.buffer_pool_id
        then some (files.pool_write e p.key p.page)
        else none
      else some (e, Rc.success)

  -- The pages up to one that fails are deleted, and stay in the map.
  unfoldable pub flush_each : E → List Entry → Option (E × Rc × List Entry)
  unfolding write_page
  flush_each e [] = some (e, Rc.success, [])
  flush_each e (x ∷ xs) = elim x.deleted [
    | true ↦ none
    | false ↦ elim (write_page e x.dblwr_page) [
      | none ↦ none
      | some (e1, rc) ↦ elim (ob_succ rc) [
        | false ↦ some (e1, rc, x ∷ xs)
        | true ↦
            let (e2, ignored) = write_page_internal e1 (record (x.dblwr_page) { valid = false }) in
            elim (flush_each e2 xs) [
              | none ↦ none
              | some (e3, rc', rest) ↦ some (
                e3,
                rc',
                record { dblwr_page = record (x.dblwr_page) { valid = false }; deleted = true }
                    ∷ rest,
              )
            ]
      ]
    ]
  ]

  unfoldable pub flush_page : E → DiskDoubleWriteBuffer → Option (E × DiskDoubleWriteBuffer × Rc)
  unfolding flush_each
  flush_page e b = elim (flush_each (files.sync e) b.dblwr_pages) [
    | none ↦ none
    | some (e', rc, left) ↦
        if ob_succ rc
        then some (e', record b { page_cnt = 0; dblwr_pages = [] }, Rc.success)
        else some (e', record b { dblwr_pages = left }, rc)
  ]

  -- A page of a new key is in the map: the header is written if the count grows, and a full buffer is flushed.
  unfoldable pub after_write :
      E → DiskDoubleWriteBuffer → ℕ → Option (E × DiskDoubleWriteBuffer × Rc)
  unfolding flush_page
  after_write e b page_cnt =
      let grows = ltb b.page_cnt (page_cnt + 1) in
      let b' = if grows then record b { page_cnt = page_cnt + 1 } else b in
      let (e', rc) = if grows then files.write_header e (page_cnt + 1) else (e, Rc.success) in
      if ob_succ rc
      then if leb b'.max_pages (length b'.dblwr_pages)
        then flush_page e' b'
        else some (e', b', Rc.success)
      else some (e', b', rc)

  unfoldable pub add_page :
      E
      → DiskDoubleWriteBuffer
      → DoubleWritePageKey
      → Page
      → Option (E × DiskDoubleWriteBuffer × Rc)
  unfolding find_page store_page after_write
  add_page e b key page = elim (find_page key b.dblwr_pages) [
    | some x ↦
        let (e', rc) = write_page_internal e (record (x.dblwr_page) { page = page }) in
        if x.deleted
        then none
        else some (e', record b { dblwr_pages = store_page key page b.dblwr_pages }, rc)
    | none ↦
        let page_cnt = length b.dblwr_pages in
        let p : DoubleWritePage = record {
          key = key;
          page_index = page_cnt;
          valid = true;
          page = page;
        } in
        let b' = record b {
          dblwr_pages = b.dblwr_pages ++ record { dblwr_page = p; deleted = false } ∷ [];
        } in
        let (e', rc) = write_page_internal e p in
        if ob_succ rc then after_write e' b' page_cnt else some (e', b', rc)
  ]

unfoldable pub insert_sorted : Entry → List Entry → List Entry
insert_sorted x [] = x ∷ []
insert_sorted x (y ∷ ys) =
    if ltb_ℤ x.dblwr_page.key.page_num y.dblwr_page.key.page_num
    then x ∷ y ∷ ys
    else y ∷ insert_sorted x ys

-- The pages of a pool, by their number, and the pages of the others.
unfoldable pub erase_if : ℤ → List Entry → List Entry × List Entry
unfolding insert_sorted
erase_if pool [] = ([], [])
erase_if pool (x ∷ xs) =
    let (spec, rest) = erase_if pool xs in
    if eqb_ℤ pool x.dblwr_page.key.buffer_pool_id
    then (insert_sorted x spec, rest)
    else (spec, x ∷ rest)

module _ {ℓ} {E : Type ℓ} (files : DblwrFiles E) where
  unfoldable pub clear_each : E → List Entry → Option E
  clear_each e [] = some e
  clear_each e (x ∷ xs) = elim x.deleted [
    | true ↦ none
    | false ↦
        let (e1, rc) = files.pool_write e x.dblwr_page.key x.dblwr_page.page in
        elim (ob_succ rc) [
          | false ↦ some e1
          | true ↦
              let (e2, ignored) =
                write_page_internal files e1 (record (x.dblwr_page) { valid = false }) in
              clear_each e2 xs
        ]
  ]

  unfoldable pub clear_pages :
      E → DiskDoubleWriteBuffer → ℤ → Option (E × DiskDoubleWriteBuffer × Rc)
  unfolding erase_if clear_each
  clear_pages e b pool =
      let (spec, rest) = erase_if pool b.dblwr_pages in
      elim (clear_each e spec) [
        | none ↦ none
        | some e' ↦ some (e', record b { dblwr_pages = rest }, Rc.success)
      ]
