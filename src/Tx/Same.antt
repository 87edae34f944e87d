-- ===== src/Tx/Same.antt =====
-- Lock requests and releases leave all objects as they are.
use dstm_p.Common.{
  ℕ, zero, suc, ◌+◌, ◌^◌, ◌≤◌, ◌<◌, ◌≡◌, ◌∙◌, List, ltb, ◌==◌, length, get_or, arith, Bool-cases,
  inl, inr,
}
use dstm_p.Timestamp.{node_from_address, addr_from_address, locked_word}
use dstm_p.Network.{Segments, store, Gasnet}
use dstm_p.MemMgr.{MemMgr, cdu_size, objects_base, init, object_lock_addr, object_lock_addr_at}
use dstm_p.MemMgr.Layout.{objects_end, tables_disjoint, lock_in_table}
use dstm_p.Locks.{Mem, grant, grant_all}
use dstm_p.Tx.Placed.{IsObject, put_lock}

-- All objects are as in `m`.
abbrev pub SameObjects : List ℕ → Segments → Segments → Type 0
SameObjects segs m s =
    (b o : ℕ)
    → IsObject segs b
    → o < 2 ^ cdu_size
    → s (node_from_address b) (addr_from_address b + o)
      ≡ m (node_from_address b) (addr_from_address b + o)

-- A local address in the object area of a node.
pub record IsTarget (segs : List ℕ) (node a : ℕ) : Type 0 where
  pub known : node < length segs
  pub low : get_or segs node 0 < 2 ^ 47
  pub above : objects_base (get_or segs node 0) ≤ addr_from_address a
  pub below : addr_from_address a < objects_end (get_or segs node 0)

module _ (segs : List ℕ) (mgr : MemMgr) (me0 : ℕ) (m0 : Segments)
    (built : mgr ≡ (init segs me0 m0).0) (m : Segments) where
  store_lock-Same :
      (node a v : ℕ) (s : Segments)
      → IsTarget segs node a
      → SameObjects segs m s
      → SameObjects segs m (store s node (object_lock_addr_at mgr a node) v)
  store_lock-Same node a v s it same b o ib lt =
      let table = lock_in_table segs me0 m0 node it.known a it.low it.above it.below in
      let apart = tables_disjoint (get_or segs node 0) it.low in
      rw built (elim (Bool-cases (node_from_address b == node)) [
        | inl e ↦
            let here : node_from_address b ≡ node = ground arith in
            let over : objects_base (get_or segs node 0) ≤ addr_from_address b =
              rw (← here) ib.above in
            ground (arith, table.1, apart.0, over, same b o ib lt)
        | inr e ↦ rw e (same b o ib lt)
      ])

  pub put_lock-Same :
      (j v : ℕ) (s : Segments)
      → IsObject segs j
      → SameObjects segs m s
      → SameObjects segs m
          (store s (node_from_address j) (addr_from_address (object_lock_addr mgr j)) v)
  put_lock-Same j v s ij same b o ib lt =
      put_lock segs mgr me0 m0 built j b o v s ij ib ∙ same b o ib lt

  module _ (g : Gasnet) (env : ℕ → Segments → Segments)
      (quiet : (t : ℕ) (s : Segments) → env t s ≡ s) where
    grant-Same :
        (me obj version : ℕ) (r : Mem)
        → IsTarget segs me obj
        → SameObjects segs m r.seg
        → SameObjects segs m (grant g mgr env me obj version r).1.seg
    unfolding grant
    grant-Same me obj version r it same =
        let s1 = env r.now r.seg in
        let s2 = env (r.now + 1) s1 in
        let same1 : SameObjects segs m s1 = rw (quiet r.now r.seg) same in
        let same2 : SameObjects segs m s2 = rw (quiet (r.now + 1) s1) same1 in
        let lock = object_lock_addr_at mgr obj me in
        elim (Bool-cases (ltb version (s1 me lock))) [
          | inl e ↦ rw e same1
          | inr e ↦ elim (Bool-cases (g.cas (s2 me lock) (s1 me lock) (locked_word version)).0) [
            | inl f ↦
                rw (e, f)
                  (store_lock-Same me obj (g.cas (s2 me lock) (s1 me lock) (locked_word version)).1
                    s2 it same2)
            | inr f ↦ rw (e, f) same2
          ]
        ]

    -- The requests of an array for objects of the node.
    pub grant_all-Same :
        (me : ℕ) (array : List ℕ) (num left current : ℕ) (r : Mem)
        → ((i : ℕ) → current ≤ i → i < current + left → IsTarget segs me (get_or array (i + 2) 0))
        → SameObjects segs m r.seg
        → SameObjects segs m (grant_all g mgr env me array num left current r).1.seg
    unfolding grant_all
    grant_all-Same me array num zero current r targets same = same
    grant_all-Same me array num (suc left) current r targets same =
        grant_all-Same me array num left (current + 1) _
          (λ i le lt. targets i (omega arith) (omega arith))
          (grant-Same me (get_or array (current + 2) 0) _ r
            (targets current (omega arith) (omega arith)) same)
