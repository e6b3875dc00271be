-- ===== src/Lib.antt =====
-- Programs for persistent and shared memory, in C and C++. Each module below follows one
-- source file or a part of it, and its children have its theorems.
--
--   HashKv (cxl_memory_sharing/hash_kv.c, hash_kv.h): the chained hash table of the lock server.
--     createHashTable, setKeyValue, getKeyValue and freeHashTable are create_hash_table,
--     set_key_value, get_key_value and free_hash_table. Keys and values are signed integers, and
--     an index outside the array gives `none`.
--   LockService (cxl_memory_sharing/lock_service.c, lock.h): handle_lock, by its three branches.
--     LockService.Value has the lock of one block as it is meant, and Refine compares the code
--     with it.
--   LockServer (cxl_memory_sharing/lock_service.c): a pass of the loop of main over the descriptors
--     that select reports, which passes messages to handle_lock. It runs on fuel, one unit for a
--     descriptor.
--   LockClient (cxl_memory_sharing/lock.c): writelock, readlock, releaselock and senderror, on the
--     responses that arrive.
--   LockSystem (the two together): any number of clients and the server as a step relation, with
--     the table of HashKv as the server's state. The steps use handle_lock and the messages of
--     lock.c themselves. The model assumes that every malloc of the server succeeds, that a client
--     releases only what it holds, and that sockets lose nothing.
--   Crc (cxl_memory_sharing/crc.c, crc.h): ReflectedData, CheckCrc4 to CheckCrc32, CrcCheck and
--     calculate_crc32.
--   DsaMove (cxl_memory_sharing/dsa_move.c): dsa_move_data. Its first loop runs on fuel, one unit
--     for a round of job_num blocks; more fuel than bytes is enough, since a round moves a byte.
--   Aofguard (wal_accel/src/aofguard.c, aofguard.h): the ring in persistent memory that guards an
--     append-only file between two syncs. Ops has aofguard_write and what it calls, Init has
--     aofguard_init, Invariant what holds of a guard between calls, and Room, Log, Recovery,
--     Durability and Interrupted what a write, a crash and a recovery do to the file. A turn of
--     the thread (afsync_turn) is modelled where a wait finds that it is done.
--   Sha1 (wal_accel/src/sha1.c, sha1.h): SHA-1 of a file's name, which names its memory file. The
--     padding loop runs on fuel 64, one unit for a byte; a block has 64.
--
--   Inject (wal_accel/src/inject.c): the interposed calls on the table of open files. The loop that
--     doubles the table's capacity runs on fuel, the descriptor's number plus one, which is enough
--     since each turn doubles. Paths has unlink and rename, Table what holds of the table between
--     calls, and Files, Loops, Moves and Rename what the calls do to it.
--   Cbs (cbs_req/cbs_req_pmem.cpp): a cache of a disk's pages in persistent memory. Init has
--     cbs_init, Remove delete_page; Valid is the invariant, Add, Replace, Delete and Write what a
--     call does to it, Scan, Recovery, Restart, Layout and Fresh what cbs_init makes of a mapping, and
--     Crash and Interrupted what it makes of one that a crash has left between two stores. The
--     loops run to the number of pages, which is an argument; pmem_page_numbers is its value.
--   FifoQueue (simple_fifo_queue/queue_aof.cpp): a linked queue and its log file. Heap relates the
--     nodes to the values, Order is first in, first out, and Log the start from a log file.
--     queue_show runs on fuel, one unit for a node.
--
-- Base has the shared names: lists over the native numbers, machine words (a w-bit word is a number,
-- cut by `% 2 ^ w` where the C type does), bit operations and signed integers. Tests runs the
-- model on concrete inputs.
--
-- What the code calls is a parameter with its documented behaviour as a hypothesis: the kernel's
-- file calls (Os, OsLaws, and DurableLaws for what is on stable storage), pmem_memcpy_persist (CopyLaws), and the data mover library (Dml,
-- DmlLaws); how semaphore calls, malloc and socket reads end is an argument. A crash
-- keeps what the code stored in persistent memory.
--
-- The interposed calls take those of the kernel, of the C library and of the guard from a record
-- (Calls); the queue takes malloc (Memory) and C's numbers (Numbers, Readable).
--
-- Not modelled: the programs' set-up and output (sockets, mmap, printing, time stamps, the
-- environment), the server's loop around select, init_dsa, aofguard_deinit, a sync of the
-- thread that fails, the cache flushes of rw_info.c and the readers and writers of shared blocks, the
-- page caches on other stores, the queue on libpmemobj, and the benchmarks.
pub mod Base
pub mod HashKv
pub mod LockService
pub mod LockServer
pub mod LockClient
pub mod LockSystem
pub mod Crc
pub mod Sha1
pub mod DsaMove
pub mod Aofguard
pub mod Cbs
pub mod Inject
pub mod FifoQueue
pub mod Tests
