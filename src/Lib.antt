-- ===== src/Lib.antt =====
-- MiniOB, the observer server of this repository: the storage core.
--
-- The parts and how they interact. A data page holds fixed-length records behind a header and an allocation
-- bitmap (`RecordPage` over `Bitmap`). The rows of a table carry two hidden fields, the ids of the
-- transactions that created and deleted them; the multi-version transactions read and write these fields through the
-- table's `visit_record` (`Mvcc`, over the interface `Mvcc.Store.RecordStore` for the tables). The answers to a
-- client leave through a buffered writer over a ring of bytes (`BufferedWriter` over `RingBuffer`). After a restart the
-- transaction log is replayed (`Mvcc.Replay`). The log itself is entries with consecutive numbers that go through a
-- buffer to files (`Clog`). The pages of a file are given out by `BufferPool`; `Frames`
-- holds them in memory, in the order that an `LruCache` keeps, and they are written to the files through the double write
-- buffer, `Dblwr`. The binary search that the tree nodes use is `LowerBound`.
--
-- Which file models which part, and how definitions correspond to the code:
--   Common      shared helpers: Boolean tests, lists and byte ranges (memcpy), signed integers, the return codes of
--               src/observer/common/rc.h that the models use, and the predicate of a search result.
--   Bitmap      deps/common/lang/bitmap.cpp. A bitmap is its bytes and its size; each method is a function of
--               the same name, -1 is `none`.
--   LruCache    deps/common/lang/lru_cache.h. Pointers are addresses of nodes; the hash set is the list of its nodes. The
--               walks run on the count of nodes as fuel.
--   BufferPool  src/observer/storage/buffer/disk_buffer_pool.cpp and .h, buffer_pool_log.cpp: the allocation of pages
--               on the header page, its log and its redo. The frames are an interface; what an append to the log gives is
--               an argument of each call.
--   Frames      src/observer/storage/buffer/frame.cpp, deps/common/mm/mem_pool.h and disk_buffer_pool.cpp: the frame manager
--               over the entries of the LRU cache, and (Frames.Pool) get_this_page, allocate_frame, load_page and the flushes and
--               purges. A failed ASSERT is `none`; the file, the log and the double write buffer are an interface. The loop of
--               allocate_frame runs on fuel: there and in get_this_page a call that is still in the loop is `waits`, a failed
--               ASSERT `stops`.
--   Dblwr       src/observer/storage/buffer/double_write_buffer.cpp and .h: the map of pages is a list of entries, each with
--               the mark that its page was deleted. The files are an interface.
--   LowerBound  deps/common/lang/lower_bound.h: the binary search over positions, with its comparison as a parameter.
--   RecordPage  src/observer/storage/record/record_manager.cpp and .h: the row format's page layout, its
--               insert, redo of insert, delete, update and get, and the iterator. A page is its header, bitmap
--               bytes, record bytes, dirty flag and the log calls made.
--   RingBuffer  src/observer/net/ring_buffer.cpp and .h. `region` is the method buffer(); the loops of read and
--               write run on fuel.
--   BufferedWriter  src/observer/net/buffered_writer.cpp and .h. The results of the calls of ::write are a list given
--               from outside; where it ends a call is still waiting, and the result is `none`. Fuel: one more than the
--               results, the held bytes, or the bytes to write.
--   Mvcc        src/observer/storage/trx/mvcc_trx.cpp and mvcc_trx_log.cpp: insert_record, delete_record,
--               visit_record, commit and rollback. A failed ASSERT is `none`. What the log gives for the entry of a call is an
--               argument of the call; a commit's argument is the result of the wait, its append is taken to succeed. The
--               fields and ids are int32_t; ids wrap. Mvcc.Replay is MvccTrxLogReplayer and MvccTrx::redo.
--   Clog        src/observer/storage/clog/log_entry.cpp, log_buffer.cpp, log_file.cpp, with writen and readn of
--               deps/common/io/io.cpp. Clog.Handler is LogFileManager and
--               the replay of disk_log_handler.cpp. Clog.Reader is LogFileReader, `visit` its loop in iterate. A header is its sixteen
--               bytes in memory. A call that waits and a failed ASSERT are the results `waits` and `stops`.
--
-- Bounds. Transaction ids are 32-bit numbers that wrap. The positions of the ring are signed numbers and its capacity is a
-- natural number: in a ring of less than 2^30 bytes the sums stay in the 32-bit range (RingBuffer.Inv.ring_in_bounds), and
-- a larger ring is not modelled as int32_t. Fuel is stated at each loop; only the loop of allocate_frame can be without end.
--
-- Not modelled: the SQL front end, the executor and the expressions, the B+ tree, the opening and closing of files, the PAX
-- format, table files, threads and latches, and third-party code under deps/3rd.
pub mod Bitmap
pub mod BufferPool
pub mod BufferedWriter
pub mod Clog
pub mod Common
pub mod Dblwr
pub mod Frames
pub mod LowerBound
pub mod LruCache
pub mod Mvcc
pub mod RecordPage
pub mod RingBuffer
