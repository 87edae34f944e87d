-- ===== src/Tx/Placed.antt =====
-- Objects and their locks in a memory laid out by the memory manager, and puts of many of them.
use dstm_p.Common.{
  ℕ, ◌+◌, ◌%◌, ◌^◌, ◌≤◌, ◌<◌, ◌≡◌, refl, ◌∙◌, Option, none, some, List, [], ◌∷◌, ◌==◌,
  if◌then◌else◌, length, get_or, All, find, arith, Bool-cases, inl, inr,
}
use dstm_p.Timestamp.{node_from_address, addr_from_address}
use dstm_p.Network.{Segments, Block, copy_to, store}
use dstm_p.MemMgr.{MemMgr, cdu_size, objects_base, init, object_lock_addr}
use dstm_p.MemMgr.Layout.{objects_end, tables_disjoint, lock_in_table, lock_addr_split}
use dstm_p.Tx.State.{Entry, Entries}

-- An object of the system with segments `segs`: the address of a block in the object area of a node.
pub record IsObject (segs : List ℕ) (b : ℕ) : Type 0 where
  pub unlocked : b < 2 ^ 63
  pub known : node_from_address b < length segs
  pub low : get_or segs (node_from_address b) 0 < 2 ^ 47
  pub above : objects_base (get_or segs (node_from_address b) 0) ≤ addr_from_address b
  pub below : addr_from_address b < objects_end (get_or segs (node_from_address b) 0)
  pub aligned : addr_from_address b % 2 ^ cdu_size ≡ 0

-- No key twice.
abbrev pub Distinct : Entries → Type 0
Distinct [] = Unit
Distinct ((k, e) ∷ m) = (find k m ≡ none) × Distinct m

-- Memory after the objects of entries are put, and after the lock words of entries are put.
abbrev pub put_cells : Entries → Segments → Segments
put_cells [] m = m
put_cells ((b, e) ∷ es) m =
    put_cells es (copy_to m (node_from_address b) (addr_from_address b) e.cell (2 ^ cdu_size))

abbrev pub put_locks : MemMgr → ℕ → Entries → Segments → Segments
put_locks mgr v [] m = m
put_locks mgr v ((b, e) ∷ es) m =
    put_locks mgr v es
      (store m (node_from_address b) (addr_from_address (object_lock_addr mgr b)) v)

-- A word of an object, among the entries or else in memory.
abbrev pub word_of : Option Entry → ℕ → ℕ → ℕ
word_of none o d = d
word_of (some e) o d = e.cell o

module _ (segs : List ℕ) where
  -- A put of the object `j` writes the words of the object `j` alone.
  put_object :
      (j b o : ℕ) (c : Block) (m : Segments)
      → IsObject segs j
      → IsObject segs b
      → o < 2 ^ cdu_size
      → copy_to m
          (node_from_address j)
          (addr_from_address j)
          c
          (2 ^ cdu_size)
          (node_from_address b)
          (addr_from_address b + o)
        ≡ (if j == b then c o else m (node_from_address b) (addr_from_address b + o))
  put_object j b o c m ij ib lt = elim (Bool-cases (j == b)) [
    | inl e ↦ let same : j ≡ b = ground arith in rw (e, same) (ground arith)
    | inr e ↦ ground (arith, ij.unlocked, ib.unlocked, ij.aligned, ib.aligned)
  ]

  pub put_cells_lem :
      (es : Entries) (b o : ℕ) (m : Segments)
      → All (λ (p : ℕ × Entry). IsObject segs p.0) es
      → Distinct es
      → IsObject segs b
      → o < 2 ^ cdu_size
      → put_cells es m (node_from_address b) (addr_from_address b + o)
        ≡ word_of (find b es) o (m (node_from_address b) (addr_from_address b + o))
  unfolding find
  put_cells_lem [] b o m all d ib lt = refl
  put_cells_lem ((j, w) ∷ es) b o m all d ib lt =
      let m' = copy_to m (node_from_address j) (addr_from_address j) w.cell (2 ^ cdu_size) in
      put_cells_lem es b o m' all.1 d.1 ib lt ∙ elim (Bool-cases (j == b)) [
        | inl e ↦
            let same : j ≡ b = ground arith in
            let absent : find b es ≡ none = rw (← same) d.0 in
            rw (absent, put_object j b o w.cell m all.0 ib lt, e)
        | inr e ↦ rw (put_object j b o w.cell m all.0 ib lt, e)
      ]

  -- The words of objects are beyond those of locks.
  pub put_lock :
      (mgr : MemMgr) (me : ℕ) (s : Segments)
      → mgr ≡ (init segs me s).0
      → (j b o v : ℕ) (m : Segments) → IsObject segs j
      → IsObject segs b
      → store m
          (node_from_address j)
          (addr_from_address (object_lock_addr mgr j))
          v
          (node_from_address b)
          (addr_from_address b + o)
        ≡ m (node_from_address b) (addr_from_address b + o)
  put_lock mgr me s built j b o v m ij ib =
      let split =
        lock_addr_split segs me s (node_from_address j) ij.known j refl ij.low ij.above ij.below in
      let table =
        lock_in_table segs me s (node_from_address j) ij.known j ij.low ij.above ij.below in
      let apart = tables_disjoint (get_or segs (node_from_address j) 0) ij.low in
      rw built (elim (Bool-cases (node_from_address b == node_from_address j)) [
        | inl e ↦
            let here : node_from_address b ≡ node_from_address j = ground arith in
            let over : objects_base (get_or segs (node_from_address j) 0) ≤ addr_from_address b =
              rw (← here) ib.above in
            ground (arith, split.0, table.1, apart.0, over)
        | inr e ↦ rw e
      ])

  pub put_locks_cell :
      (mgr : MemMgr) (me : ℕ) (s : Segments)
      → mgr ≡ (init segs me s).0
      → (es : Entries) (b o v : ℕ) (m : Segments) → All (λ (p : ℕ × Entry). IsObject segs p.0) es
      → IsObject segs b
      → put_locks mgr v es m (node_from_address b) (addr_from_address b + o)
        ≡ m (node_from_address b) (addr_from_address b + o)
  put_locks_cell mgr me s built [] b o v m all ib = refl
  put_locks_cell mgr me s built ((j, w) ∷ es) b o v m all ib =
      put_locks_cell mgr me s built es b o v _ all.1 ib ∙ put_lock mgr me s built j b o v m all.0 ib

-- A lock word that has the version keeps it.
put_locks_keep :
    (mgr : MemMgr) (es : Entries) (v n x : ℕ) (m : Segments)
    → m n x ≡ v
    → put_locks mgr v es m n x ≡ v
put_locks_keep mgr [] v n x m h = h
put_locks_keep mgr ((j, w) ∷ es) v n x m h = put_locks_keep mgr es v n x _ (ground arith)

-- The lock word of each entry gets the version.
pub put_locks_lem :
    (mgr : MemMgr) (es : Entries) (b v : ℕ) (e : Entry) (m : Segments)
    → find b es ≡ some e
    → put_locks mgr v es m (node_from_address b) (addr_from_address (object_lock_addr mgr b)) ≡ v
unfolding find
put_locks_lem mgr [] b v e m h = cc
put_locks_lem mgr ((j, w) ∷ es) b v e m h = elim (Bool-cases (j == b)) [
  | inl q ↦
      let same : j ≡ b = ground arith in rw same (put_locks_keep mgr es v _ _ _ (ground arith))
  | inr q ↦ put_locks_lem mgr es b v e _ (rw q at h)
]
