-- ===== src/MemMgr/Tests.antt =====
-- Layouts of two segments, and locks of objects in them.
use dstm_p.Common.{ℕ, ◌+◌, ◌*◌, ◌/◌, ◌^◌, ◌≤◌, ◌≡◌, ◌↔◌, List, [], ◌∷◌, arith}
use dstm_p.Timestamp.{addr_from_address}
use dstm_p.Network.{Segments}
use dstm_p.MemMgr.{
  MemMgr, cdu_size, objects_count, locks_base, objects_base, init, object_lock_addr_at,
}
use dstm_p.MemMgr.Layout.{lock_in_table, same_lock_iff}

abbrev segs : List ℕ
segs = 0x10000 ∷ 0x7f0000 ∷ []

abbrev ones : Segments
ones n a = 1

-- An address on node 1, 0x400 bytes into its objects.
abbrev object : ℕ
object = 0x10000009f0440

abbrev mgr : MemMgr
mgr = (init segs 1 ones).0

lock_in_table_example :
    (locks_base 0x7f0000 ≤ object_lock_addr_at mgr object 1)
    × (object_lock_addr_at mgr object 1 + 8 ≤ locks_base 0x7f0000 + objects_count * 8)
unfolding objects_base locks_base
lock_in_table_example =
    lock_in_table segs 1 ones 1 (omega arith) object (omega arith) (omega arith) (omega arith)

same_lock_iff_example :
    (object_lock_addr_at mgr object 1 ≡ object_lock_addr_at mgr 0x10000009f0448 1)
    ↔ (addr_from_address object / 2 ^ cdu_size ≡ addr_from_address 0x10000009f0448 / 2 ^ cdu_size)
unfolding objects_base locks_base
same_lock_iff_example =
    same_lock_iff segs 1 ones 1 (omega arith) object 0x10000009f0448 (omega arith) (omega arith)
      (omega arith)
