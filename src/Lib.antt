-- ===== src/Lib.antt =====
-- A model of RMDB (src/), a relational database of one server process in C++, with the theorems
-- that make its parts correct. It is a shallow embedding: a class is a record, a method is a
-- function from the object's state to its new state and result, an exception is an outcome that
-- carries the state at the throw, a failed `assert` is an outcome of its own.
--
-- The parts and the files:
--
-- Base                 Boolean tests on native numbers, lists, arrays and hash maps as functions,
--                      signed integers, outcomes of calls.
-- Replacer             src/replacer/replacer.h: the abstract class as a record of operations and
--                      laws. Replacer/Lru: src/replacer/lru_replacer.cpp, `LRUReplacer`, with the
--                      identities of list nodes, and its refinement of a queue of frames.
-- Storage              src/storage/page.h, and the calls of `DiskManager` as a record of operations
--                      and laws. Storage/Pool: src/storage/buffer_pool_manager.h and .cpp,
--                      `BufferPoolManager`, over any replacer and disk. What the pool promises is
--                      stated by `view`: the bytes a reader of a page gets.
--                      Storage/Buffer: the calls of a pool that a client makes, as a record of
--                      operations and laws on `view`; Storage/Pool/Hold: the pool as such a record.
-- Transaction          src/transaction/transaction.h and txn_defs.h. Transaction/Locks:
--                      src/transaction/concurrency/lock_manager.cpp, `LockManager`, and
--                      `release_locks` of src/transaction/transaction_manager.cpp.
--                      Transaction/Commit: `commit` of the same file, over the locks and the log.
-- Record               src/record/bitmap.h, `Bitmap`, on bytes; the page layout that
--                      src/record/rm_manager.h and rm_file_handle.h compute. Record/File:
--                      src/record/rm_file_handle.h and .cpp, `RmFileHandle`, on pages as
--                      `RmPageHandle` points at them (page header, bitmap and slots; that these do
--                      not overlap in the page's bytes is a matter of Record/Layout): the table that
--                      a file shows, the list of free pages, and the calls that read, insert, delete
--                      and update a record. Record/File/Scan: rm_scan.cpp.
-- Log                  src/recovery/log_manager.h and log_manager.cpp. Log/Memory: memory and words;
--                      Log/Records: log records, as bytes and back; Log/Manager: `LogManager`, with
--                      its latch, since a call waits for the latch that it holds, and `write_log`
--                      of src/storage/disk_manager.cpp over what `write` and `fsync` do;
--                      Log/Compensation: the records of writes that are taken back.
-- Index                src/index/ix_index_handle.h and ix_index_handle.cpp: `ix_compare`
--                      on columns of every type, and the methods of `IxNodeHandle` on one node.
--                      Index/Order: for columns of INT and STRING `ix_compare` is an order.
-- Values               src/common/common.h: integer literals, calendar days, comparison of values.
-- Execution            src/execution/executor_abstract.h, `AbstractExecutor` as a record of operations
--                      and laws, and the loop of execution_manager.cpp that runs a query.
--                      Execution/Join: executor_nestedloop_join.h, a join by blocks of rows, on
--                      bytes of rows.
--                      Execution/SeqScan: executor_seq_scan.h, the scan of a record file.
--                      Execution/Projection: executor_projection.h, on bytes of rows.
--
-- How they interact: the pool takes a replacer and a disk as parameters, and `lru` is a replacer
-- that the pool's tests run on. A record file takes a buffer as a parameter, and the pool is one; it
-- calls the log manager. A scan reads a record file under a lock of the lock manager; it is an
-- executor. A join takes two executors as parameters, a projection one, and both are executors. A
-- commit calls the lock manager and the log manager.
--
-- Conventions: page numbers and file descriptors are signed integers, with -1 for none; frames,
-- counts and transaction identities are natural numbers. An array and a hash map are functions, and
-- `none` is a missing key. Loops over a list or a range are structural recursion. The binary search and
-- the loop of `remove` have fuel, the number of keys and one more than that: each turn narrows the
-- range, or takes out a key. The loop of a scan has as many turns as the file has slots, and the loop
-- of a join (n + 1) * (m + 1) for n left and m right rows; the loop that looks for a page by
-- insertions has fuel of its own, since it may not end.
--
-- Not modelled: latches (but the log manager's), condition variables and the interleaving of two
-- calls inside one object (a call is one step); parsing, analysis, planning, the catalog and the
-- server loop, which move strings and files; the disk manager but for `write_log`; the other
-- executors; the conditions of a scan and a join, which are tests of rows; that two executors of a
-- query use one pool (each has its own here); the B+ tree above its nodes; begin and abort of a
-- transaction, and replay of the log; pages whose offset in the file is not an `int` (from number
-- 524288 on). Floats are words, and their `<` is a parameter.
pub mod Base
pub mod Replacer
pub mod Storage
pub mod Transaction
pub mod Record
pub mod Log
pub mod Index
pub mod Values
pub mod Execution
