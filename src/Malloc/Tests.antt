-- ===== src/Malloc/Tests.antt =====
-- Runs of the allocator.
use dstm_p.Common.{
  false, ◌/◌, ◌%◌, ◌^◌, ◌==◌, if◌then◌else◌, ℕ, ◌+◌, ◌*◌, ◌≤◌, ◌<◌, ◌≡◌, refl, some, [], ◌∷◌, arith,
}
use dstm_p.Timestamp.{addr_from_address}
use dstm_p.Network.{Segments}
use dstm_p.MemMgr
use dstm_p.MemMgr.{locks_base, objects_base, object_lock_addr_at}
use dstm_p.Malloc.{Arena, units_of, malloc, malloc_all}
use dstm_p.Malloc.Remote.{Halves, Heap, pointer, dstm_malloc, dstm_malloc_remote}
use dstm_p.Malloc.Units.{Apart, total_units, malloc_all-Apart, malloc_outgrows}

abbrev arena : Arena
arena = record { me = 1; low_bound = 0x220040; all_units = 5 }

malloc_all-Apart_example :
    Apart 1
      (0x220040 + 5 * 8)
      (0x220040 + (5 + total_units (20 ∷ 64 ∷ 1 ∷ [])) * 8)
      (20 ∷ 64 ∷ 1 ∷ [])
      (malloc_all (20 ∷ 64 ∷ 1 ∷ []) arena).0
unfolding units_of
malloc_all-Apart_example =
    malloc_all-Apart (20 ∷ 64 ∷ 1 ∷ []) arena (omega arith, (omega arith, (omega arith, tt)))
      (omega arith) (omega arith) (omega arith) (omega arith)

abbrev zeros : Segments
zeros n a = 0

abbrev full : Arena
full = record { me = 0; low_bound = 0x210040; all_units = 0x200040 }

malloc_outgrows_example :
    (p : ℕ) × ((malloc 8 full).0 ≡ some p)
    × (objects_base 0x10000 ≤ object_lock_addr_at (MemMgr.init (0x10000 ∷ []) 0 zeros).0 p 0)
    × (object_lock_addr_at (MemMgr.init (0x10000 ∷ []) 0 zeros).0 p 0 < addr_from_address p)
unfolding objects_base locks_base
malloc_outgrows_example =
    malloc_outgrows (0x10000 ∷ []) zeros 8 full (omega arith) (omega arith) (omega arith) refl
      (omega arith) (omega arith) (omega arith)

abbrev halves : Halves
halves = record {
  hiword = λ p. p / 2 ^ 32;
  loword = λ p. p % 2 ^ 32;
  unpack2 = λ h l. h * 2 ^ 32 + l;
  unpack2_law = λ p lt. omega arith;
}

-- Node 0 asks node 1.
abbrev heap : Heap
heap = record { arenas = λ n. arena; memory = λ x. 0 }

dstm_malloc_remote_example :
    (t : Heap) × ((dstm_malloc halves 0 20 1 0x1000 0x1008 heap
        ≡ some (pointer (malloc 20 arena).0, t))
      × ((n : ℕ) → t.arenas n ≡ (if n == 1 then (malloc 20 arena).1 else arena))
      × ((x : ℕ) → (x == 0x1000) ≡ false → (x == 0x1008) ≡ false → t.memory x ≡ 0))
unfolding malloc units_of
dstm_malloc_remote_example =
    dstm_malloc_remote halves 0 20 1 0x1000 0x1008 heap (omega arith) (omega arith) (omega arith)
      (omega arith) refl (ground arith)
