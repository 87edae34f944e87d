-- ===== src/MemMgr/Layout.antt =====
-- The layout of a node's segment: the lock table, the objects, and which lock guards an object.
use dstm_p.Common.{
  ℕ, zero, suc, ◌+◌, ◌-◌, ◌*◌, ◌/◌, ◌%◌, ◌^◌, ◌≤◌, ◌<◌, ◌≡◌, refl, ◌↔◌, List, [], ◌∷◌, map, length,
  get_or, arith, bit_or-disjoint, ◌==◌, ltb, leb, ◌&&◌, if◌then◌else◌,
}
use native.Mathlib.Nat.{add-zero}
use dstm_p.Timestamp.{node_from_address, addr_from_address}
use dstm_p.Network.{Segments, store}
use dstm_p.MemMgr.{
  MemMgr, cdu_size, objects_count, locks_base, objects_base, clear_locks, init, object_number,
  object_lock_addr_at, object_lock_addr,
}

-- The object area of a segment ends here: it has as many blocks as the table has locks.
abbrev pub objects_end : ℕ → ℕ
objects_end seg = objects_base seg + objects_count * 2 ^ cdu_size

-- In a segment below 2 ^ 47 the lock table has room for one word for each object before the first
-- object, which is aligned to a block and at most one block further.
pub tables_disjoint :
    (seg : ℕ)
    → seg < 2 ^ 47
    → (locks_base seg + objects_count * 8 < objects_base seg)
      × (objects_base seg ≤ locks_base seg + objects_count * 8 + 2 ^ cdu_size)
      × (objects_base seg % 2 ^ cdu_size ≡ 0)
unfolding objects_base
tables_disjoint seg h = omega arith

pub locks_base-le : (seg : ℕ) → locks_base seg ≤ seg
unfolding locks_base
locks_base-le seg = omega arith

get_or-map :
    (f : ℕ → ℕ) (xs : List ℕ) (i : ℕ) → i < length xs → get_or (map f xs) i 0 ≡ f (get_or xs i 0)
get_or-map f [] i h = absurd (omega arith)
get_or-map f (x ∷ xs) zero h = refl
get_or-map f (x ∷ xs) (suc i) h = get_or-map f xs i (omega arith)

-- The manager that `init` builds, at a node that it knows.
module _ (segs : List ℕ) (me : ℕ) (s : Segments) (node : ℕ) (known : node < length segs) where
  abbrev seg : ℕ
  seg = get_or segs node 0

  abbrev mgr : MemMgr
  mgr = (init segs me s).0

  locks_at : get_or mgr.locks_addr node 0 ≡ locks_base seg
  unfolding init
  locks_at = get_or-map locks_base segs node known

  objects_at : get_or mgr.objects_addr node 0 ≡ objects_base seg
  unfolding init
  objects_at = get_or-map objects_base segs node known

  -- The object number of an address in the object area.
  pub object_number_lem :
      (a : ℕ)
      → seg < 2 ^ 47
      → objects_base seg ≤ addr_from_address a
      → object_number mgr a node ≡ (addr_from_address a - objects_base seg) / 2 ^ cdu_size
  unfolding object_number
  object_number_lem a low above = omega (arith, objects_at)

  pub lock_at :
      (a : ℕ)
      → seg < 2 ^ 47
      → objects_base seg ≤ addr_from_address a
      → object_lock_addr_at mgr a node
        ≡ locks_base seg + (addr_from_address a - objects_base seg) / 2 ^ cdu_size * 8
  unfolding object_lock_addr_at locks_base
  lock_at a low above = omega (arith, locks_at, object_number_lem a low above)

  -- The lock of an address in the object area, of a known node with a segment below 2 ^ 47, is a word
  -- of the lock table.
  pub lock_in_table :
      (a : ℕ)
      → seg < 2 ^ 47
      → objects_base seg ≤ addr_from_address a
      → addr_from_address a < objects_end seg
      → (locks_base seg ≤ object_lock_addr_at mgr a node)
        × (object_lock_addr_at mgr a node + 8 ≤ locks_base seg + objects_count * 8)
  lock_in_table a low above below = omega (arith, lock_at a low above)

  -- Past the table: the lock word of an object that is eight blocks or more beyond the area that
  -- the table covers lies among the objects themselves.
  pub lock_past_table :
      (a : ℕ)
      → seg < 2 ^ 47
      → objects_end seg + 8 * 2 ^ cdu_size ≤ addr_from_address a
      → (objects_base seg ≤ object_lock_addr_at mgr a node)
        × (object_lock_addr_at mgr a node < addr_from_address a)
  unfolding objects_base
  lock_past_table a low beyond = omega (arith, lock_at a low (omega arith))

  -- Two addresses at or after the first object of a known node, with a segment below 2 ^ 47, share a lock
  -- exactly when they lie in the same block.
  pub same_lock_iff :
      (a b : ℕ)
      → seg < 2 ^ 47
      → objects_base seg ≤ addr_from_address a
      → objects_base seg ≤ addr_from_address b
      → (object_lock_addr_at mgr a node ≡ object_lock_addr_at mgr b node)
        ↔ (addr_from_address a / 2 ^ cdu_size ≡ addr_from_address b / 2 ^ cdu_size)
  unfolding objects_base
  same_lock_iff a b low pa pb = omega (arith, lock_at a low pa, lock_at b low pb)

  -- The two overloads agree on addresses in the object area of a known node, with a segment below
  -- 2 ^ 47: the global lock address is the local one with the node on top.
  pub lock_addr_split :
      (a : ℕ)
      → node_from_address a ≡ node
      → seg < 2 ^ 47
      → objects_base seg ≤ addr_from_address a
      → addr_from_address a < objects_end seg
      → (addr_from_address (object_lock_addr mgr a) ≡ object_lock_addr_at mgr a node)
        × (node_from_address (object_lock_addr mgr a) ≡ node)
  unfolding object_lock_addr object_lock_addr_at objects_base
  lock_addr_split a here low above below = rw here (
      omega (
        arith,
        lock_at a low above,
        bit_or-disjoint 48 (object_lock_addr_at mgr a node) (node % 2 ^ 15)
            (omega (arith, lock_at a low above)),
      ))

-- Clearing writes zero to the words of the table that are left, and to nothing else.
clear_locks-store :
    (left i base node m x : ℕ) (s : Segments)
    → base % 8 ≡ 0
    → x % 8 ≡ 0
    → clear_locks left i base node s m x
      ≡ (if m == node && (leb (base + i * 8) x && ltb x (base + (i + left) * 8)) then 0 else s m x)
unfolding clear_locks
clear_locks-store zero i base node m x s hb hx = ground arith
clear_locks-store (suc left) i base node m x s hb hx =
    ground
      (arith, clear_locks-store left (i + 1) base node m x (store s node (base + i * 8) 0) hb hx)

base_aligned : (seg : ℕ) → locks_base seg % 8 ≡ 0
unfolding locks_base
base_aligned seg = omega arith

-- `init` on a known node puts zero in every word of its own lock table, and changes no other word on
-- any node.
pub init_clears :
    (segs : List ℕ) (me m x : ℕ) (s : Segments)
    → me < length segs
    → x % 8 ≡ 0
    → let base = locks_base (get_or segs me 0) in
      (init segs me s).1 m x
      ≡ (if m == me && (leb base x && ltb x (base + objects_count * 8)) then 0 else s m x)
unfolding init
init_clears segs me m x s known hx = rw (get_or-map locks_base segs me known) (
    rw add-zero at (
      clear_locks-store objects_count 0 (locks_base (get_or segs me 0)) me m x s
        (base_aligned (get_or segs me 0)) hx))
