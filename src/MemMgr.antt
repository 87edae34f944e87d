-- ===== src/MemMgr.antt =====
-- src/dstm_lib_p1/gasnet_mem_mgr.cpp: where each node keeps its lock table and its objects.
pub mod Layout
mod Tests
use dstm_p.Common.{ℕ, zero, suc, ◌+◌, ◌-◌, ◌*◌, ◌/◌, ◌^◌, ◌%◌, List, map, get_or, bit_or}
use dstm_p.Timestamp.{to_node_ts, node_from_address, addr_from_address}
use dstm_p.Network.{Segments, store}

-- CDU_SIZE: objects are blocks of 2 ^ 6 bytes.
abbrev pub cdu_size : ℕ
cdu_size = 6

-- OBJECTS_COUNT = (1 << BUDDY_LEVEL) >> CDU_SIZE
abbrev pub objects_count : ℕ
objects_count = 2 ^ 24 / 2 ^ cdu_size

-- The fields of GASNetMemoryManager.
pub record MemMgr : Type 0 where
  pub locks_addr : List ℕ
  pub objects_addr : List ℕ

-- Where the lock table of a segment begins: its address rounded down by `sizeof(uint64_t)` bits.
unfoldable pub locks_base : ℕ → ℕ
locks_base addr = addr / 2 ^ 8 * 2 ^ 8

-- Where the objects begin: the block after the lock table.
unfoldable pub objects_base : ℕ → ℕ
unfolding locks_base
objects_base addr =
    (((locks_base addr + objects_count * 8) % 2 ^ 64 / 2 ^ cdu_size + 1) * 2 ^ cdu_size) % 2 ^ 64

-- `for (i = 0; i < OBJECTS_COUNT; i++) *((uint64_t*)locks_addr[mynode]+i) = 0`, with the rounds left.
pub clear_locks : ℕ → ℕ → ℕ → ℕ → Segments → Segments
clear_locks zero i base node s = s
clear_locks (suc left) i base node s =
    clear_locks left (i + 1) base node (store s node (base + i * 8) 0)

-- `init`: `segs` holds the address of each node's segment.
unfoldable pub init : List ℕ → ℕ → Segments → MemMgr × Segments
init segs mynode s =
    let mgr : MemMgr = record {
      locks_addr = map locks_base segs;
      objects_addr = map objects_base segs;
    } in
    (mgr, clear_locks objects_count 0 (get_or mgr.locks_addr mynode 0) mynode s)

-- The number of the object that holds a local address of a node.
unfoldable pub object_number : MemMgr → ℕ → ℕ → ℕ
object_number m addr node =
    (addr_from_address addr + 2 ^ 64 - get_or m.objects_addr node 0) % 2 ^ 64 / 2 ^ cdu_size

-- `getObjectLockAddr(addr, node)`
unfoldable pub object_lock_addr_at : MemMgr → ℕ → ℕ → ℕ
unfolding object_number
object_lock_addr_at m addr node =
    (get_or m.locks_addr node 0 + object_number m addr node * 8) % 2 ^ 64

-- `getObjectLockAddr(addr)`
unfoldable pub object_lock_addr : MemMgr → ℕ → ℕ
unfolding object_number
object_lock_addr m addr =
    let node = node_from_address addr in
    bit_or ((get_or m.locks_addr node 0 + object_number m addr node * 8) % 2 ^ 64) (to_node_ts node)
