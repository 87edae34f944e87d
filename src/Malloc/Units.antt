-- ===== src/Malloc/Units.antt =====
-- What `dstm_malloc` hands out.
use dstm_p.Common.{
  ℕ, ◌+◌, ◌*◌, ◌/◌, ◌%◌, ◌^◌, ◌≤◌, ◌<◌, ◌≡◌, Option, some, List, [], ◌∷◌, arith, bit_or-disjoint,
  All, length, get_or, ap,
}
use dstm_p.Timestamp.{node_from_address, addr_from_address}
use native.Mathlib.Nat.{add_assoc}
use dstm_p.Network.{Segments}
use dstm_p.MemMgr
use dstm_p.MemMgr.{objects_base, object_lock_addr_at}
use dstm_p.MemMgr.Layout.{lock_past_table, tables_disjoint, locks_base-le}
use dstm_p.Malloc.{Arena, units_of, malloc, malloc_all}

-- Sizes below 2 ^ 31 take the units that they need, and less than one more.
units_of_enough :
    (size : ℕ) → size < 2 ^ 31 → (size ≤ units_of size * 8) × (units_of size * 8 < size + 8)
unfolding units_of
units_of_enough size h = ground arith

-- While the counter stands below 2 ^ 28 and the segment below 2 ^ 47, a call returns a pointer to the
-- node and to the address that the counter stands for, and moves the counter by the units taken.
malloc_lem :
    (size : ℕ) (a : Arena)
    → size < 2 ^ 31
    → a.me < 2 ^ 15
    → a.low_bound < 2 ^ 47
    → a.all_units < 2 ^ 28
    → malloc size a ≡ (
      some (a.low_bound + a.all_units * 8 + a.me * 2 ^ 48),
      record a { all_units = a.all_units + units_of size },
    )
unfolding malloc
malloc_lem size a hs hm hl hu = ground (
  arith,
  units_of_enough size hs,
  bit_or-disjoint 48 (a.low_bound + a.all_units * 8) a.me (omega arith),
)

-- The units that calls of these sizes take.
abbrev pub total_units : List ℕ → ℕ
total_units [] = 0
total_units (size ∷ sizes) = units_of size + total_units sizes

-- The objects that calls return: each lies on node `me`, is aligned to a unit, starts at or after
-- `lo` and after the end of the one before it, and ends by `hi`.
abbrev pub Apart : ℕ → ℕ → ℕ → List ℕ → List (Option ℕ) → Type 0
Apart me lo hi [] [] = lo ≤ hi
Apart me lo hi (size ∷ sizes) (some p ∷ ps) =
    (node_from_address p ≡ me)
    × (lo ≤ addr_from_address p)
    × (addr_from_address p % 8 ≡ 0)
    × Apart me (addr_from_address p + size) hi sizes ps
Apart me lo hi _ _ = ⊥

malloc_all-from :
    (sizes : List ℕ) (a : Arena) (lo : ℕ)
    → All (λ size. size < 2 ^ 31) sizes
    → a.me < 2 ^ 15
    → a.low_bound < 2 ^ 47
    → a.low_bound % 8 ≡ 0
    → a.all_units + total_units sizes < 2 ^ 28
    → lo ≤ a.low_bound + a.all_units * 8
    → Apart a.me lo
        (a.low_bound + (a.all_units + total_units sizes) * 8)
        sizes
        (malloc_all sizes a).0
unfolding malloc_all
malloc_all-from [] a lo small hm hl ha hu le = omega arith
malloc_all-from (size ∷ sizes) a lo small hm hl ha hu le =
    rw (malloc_lem size a small.0 hm hl (omega arith)) (
      omega arith,
      omega arith,
      omega arith,
      rw (add_assoc a.all_units (units_of size) (total_units sizes)) at (
          malloc_all-from sizes (record a { all_units = a.all_units + units_of size })
            (addr_from_address (a.low_bound + a.all_units * 8 + a.me * 2 ^ 48) + size) small.1 hm hl
            ha (omega arith) (omega (arith, units_of_enough size small.0))),
    )

-- Memory given out by a sequence of calls: while the counter stays below 2 ^ 28, every call on an arena
-- of aligned memory below 2 ^ 47 succeeds, on its own node, and the objects are aligned, in order and
-- do not overlap each other or anything given out before.
pub malloc_all-Apart :
    (sizes : List ℕ) (a : Arena)
    → All (λ size. size < 2 ^ 31) sizes
    → a.me < 2 ^ 15
    → a.low_bound < 2 ^ 47
    → a.low_bound % 8 ≡ 0
    → a.all_units + total_units sizes < 2 ^ 28
    → Apart a.me
        (a.low_bound + a.all_units * 8)
        (a.low_bound + (a.all_units + total_units sizes) * 8)
        sizes
        (malloc_all sizes a).0
malloc_all-Apart sizes a small hm hl ha hu =
    malloc_all-from sizes a (a.low_bound + a.all_units * 8) small hm hl ha hu (omega arith)

-- Nothing stops the counter at the end of the memory that the lock table covers. Once it has passed
-- the table's objects by eight blocks, a call for a size below 2 ^ 31 still returns a pointer while
-- the counter stands below 2 ^ 28, in a segment below 2 ^ 46, and the lock word of that object
-- lies in memory that holds objects.
pub malloc_outgrows :
    (segs : List ℕ) (s : Segments) (size : ℕ) (a : Arena)
    → a.me < length segs
    → a.me < 2 ^ 15
    → get_or segs a.me 0 < 2 ^ 46
    → a.low_bound ≡ objects_base (get_or segs a.me 0)
    → size < 2 ^ 31
    → (2 ^ 24 + 512) / 8 ≤ a.all_units
    → a.all_units < 2 ^ 28
    → (p : ℕ) × ((malloc size a).0 ≡ some p)
      × (objects_base (get_or segs a.me 0) ≤ object_lock_addr_at (MemMgr.init segs a.me s).0 p a.me)
      × (object_lock_addr_at (MemMgr.init segs a.me s).0 p a.me < addr_from_address p)
unfolding objects_base
malloc_outgrows segs s size a known hm low base hs many few =
    let seg = get_or segs a.me 0 in
    let p = a.low_bound + a.all_units * 8 + a.me * 2 ^ 48 in
    let (after, before) =
      lock_past_table segs a.me s a.me known p (omega arith)
        (omega (arith, tables_disjoint seg (omega arith))) in
    (
      p,
      ap (λ (r : Option ℕ × Arena). r.0)
          (malloc_lem size a hs hm
            (omega (arith, tables_disjoint seg (omega arith), locks_base-le seg)) few),
      after,
      before,
    )
