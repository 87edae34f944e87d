-- ===== src/Lib.antt =====
-- A model of DSTM P1, a distributed software transactional memory over GASNet (src/ of the repository).
--
-- Every node of the system has a segment of memory with a lock table and objects of 64 bytes. A thread
-- runs transactions: reads and writes copy whole objects into a read set and a write set, with the
-- version word that guards them, and a commit takes the locks of the written objects on the nodes
-- that hold them, checks the versions of the read objects, writes the objects back and releases the
-- locks with a new version.
--
-- The parts, and the files that model them:
-- - Common: names of the library, Boolean tests, lists, dictionaries (boost::unordered_map), bits.
-- - Timestamp: lock words and versions, dstm_lib_p1/dstm_timestamps.h and dstm_timestamps.cpp.
-- - Network: what is taken from GASNet, a parameter: get, put and compare-and-swap with their laws.
-- - MemMgr: where locks and objects lie, dstm_lib_p1/gasnet_mem_mgr.cpp.
-- - Malloc: dstm_malloc and dstm_free, dstm_malloc/dstm_malloc.cpp; Malloc.Remote has the requests to other
--   nodes (glue.cpp) and their handlers (gasnet_handlers.cpp).
-- - Clock: the version clock of a node, glue.cpp (increaseClock, getNextClock).
-- - Cache: reads of objects under their versions and the table of seen versions, dstm_cache.cpp and
--   dstm_cache_impl.h (readCell, getVersion, addVersionToCache, getCachedVersion). Cache.Snapshot says
--   what other nodes may do to an object meanwhile, as steps of the commit protocol; Cache.ReadCell and
--   Cache.Table have proofs.
-- - Locks: lock requests, glue.cpp (processLocksRequest) and its handlers in gasnet_handlers.cpp.
-- - Tx: DSTMTransaction, dstm_lib_p1/dstm_transaction.cpp and dstm_transaction_impl.h. Tx.State has the
--   fields and the commands; Tx.Validate validate and validateAll; Tx.Access begin, read and write;
--   Tx.Commit getLocks, releaseLocks, commit and rollback. Proofs: Tx.Frame (what commands leave alone),
--   Tx.Hidden, Tx.Own, Tx.Again, Tx.Placed (objects and locks in memory), Tx.Publish, Tx.Same, Tx.Requests,
--   Tx.Atomic, Tx.Completes, Tx.Checked and Tx.Accesses; Tx.Gives, Tx.Sim and Tx.Steps set a transaction beside a
--   memory that its writes go to at once.
-- - Interface: what code compiled by tanger calls, dstm_lib_p1/dstm_p1-ls.cpp, and a transactional block
--   with its retries. Interface.Runs and Interface.Serial compare it with the block on plain memory;
--   Interface.Alone, and Tx.Alone with Access, Grants, Collects and Commit below it, follow a block that
--   nobody disturbs.
--   Interface.Blocks puts blocks together and says what they do to plain memory; Interface.Contract carries
--   that over to transactions.
-- - Threads: tables, states and messages of threads, application.h, dstm_gasnet_application.cpp,
--   gasnet_thread_spawner.cpp, dstm_pthread/dstm_pthread.cpp and the handlers of gasnet_handlers.cpp about
--   threads. Threads.System puts the nodes and the messages between them together; Tables, Stages,
--   Preserved and Joins below it have proofs.
-- - Stats: abort codes and statistics, dstm_stats.cpp, dstm_lib_p1/dstm_transaction_stats.h,
--   dstm_lib_p1/dstm_node_stats.h.
-- - LocksCache: lines of lock words of the VARIANT3 build, dstm_lib_p1/dstm_locks_cache.cpp.
-- - Barrier: dstm_barrier.cpp. Balancer: dummy_loadbalancer.cpp.
-- These paths are below src/.
-- - Bank: accounts, transfers and totals of the stress test tests/bank/bank_my.c, with atomic blocks as
--   steps.
-- - IntSet: the set of integers of tests/intset/intset_my.c, a sorted list in shared memory. IntSet.Calls has the
--   operations as a thread calls them, IntSet.Stress the loop of the stress test. Proofs: IntSet.Chain (the list
--   that memory holds), Seek, Link and Unlink, Ops, Shared (through transactions) and History (against a set of
--   values).
-- - RbTree: the red-black tree of tests/rbtree/rbtree_my.c, as accesses to shared memory: `lookup`, the rotations and
--   accessors; RbTree.Insertion, RbTree.Deletion and RbTree.Walk (successors, counting, `verifyRedBlack`). Proofs:
--   RbTree.Shape (the tree that memory holds), Search, Present (insertion of a key that is there), Count, Verify, and
--   Rotation over Frame and Turned. Insertion of other keys and deletion are run on examples in RbTree.Tests, with
--   no theorem.
--
-- Transactions are those of the build with VARIANT1 and TRANSACTIONS_STATS; CACHE is a flag. Memory is a
-- function from a node and a byte address to the 64-bit word there, and all accesses are of words, so the
-- 32-bit instances of the templates are not modelled. What other threads and nodes do is a parameter:
-- a function of the number of the access and of what it would change, applied before each access; a
-- history of memory, for readCell. An abort is a result that ends the command, where the code jumps. A
-- request for locks and its handlers are one step of the requester, which then waits for as many replies as it
-- has sent requests, and forever if one is not counted. In the history that readCell sees, no lock is granted
-- for a version older than the object has. The
-- memory of entries and requests of a transaction is not modelled, nor are mutexes, logging and time.
--
-- Fuel: readCell and getNextClock take a number of rounds, since they wait for other threads;
-- increaseClock as many as the clock can be behind, and one more; getLocks one more round than the write
-- set has entries, since a round asks for one at least. A loop over the list of a set takes one round more than
-- the set has elements, and that of `set_size` two. The functions of the tree take more rounds, or levels, than it
-- has nodes.
--
-- A transactional block is its accesses to shared memory and a result, which depend on what was read; its
-- checkpoint is taken once, and an abort is taken to lead back to it, with the locals as they were; the frame of
-- the checkpoint has returned by then, which C leaves undefined. A block has a number of attempts. In
-- Threads.System the main program, on node 0, creates threads, messages arrive in any order, and routines
-- return at any time; the handlers of a node take turns, each one step, which GASNET_PAR does not promise
-- (Threads.Races has the test and the write of a handler apart, and the routine that jobChild keeps); the program leaves its dstm_pthread_t variables to
-- dstm_pthread_create, and identifiers do not overflow.
--
-- Not modelled: `rbtree_verify`, the parts of the tree's benchmark that allocate nodes, and its stress test; the
-- buddy allocator (a copy of a published one; its calls are commented out), the variants
-- VARIANT2 and VARIANT3 of transactions, loading and linking of bitcode (dstm_gasnet_application.cpp) and
-- program start, and the copies of TBB and Tanger.
pub mod Common
pub mod Timestamp
pub mod Network
pub mod MemMgr
pub mod Clock
pub mod Cache
pub mod Stats
pub mod Locks
pub mod Interface
pub mod Tx
pub mod Malloc
pub mod LocksCache
pub mod Barrier
pub mod Balancer
pub mod Threads
pub mod Bank
pub mod IntSet
pub mod RbTree
