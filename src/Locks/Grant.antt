-- ===== src/Locks/Grant.antt =====
-- Which locks a request is granted.
use dstm_p.Common.{
  ℕ, ◌+◌, ◌%◌, ◌^◌, ◌≤◌, ◌<◌, ◌≡◌, ◌↔◌, true, false, arith, ltb, ◌&&◌, ◌==◌, if◌then◌else◌,
}
use dstm_p.Timestamp.{node_ts, locked_word, is_timestamp_greater}
use dstm_p.Timestamp.Words.{locked_word-eq}
use dstm_p.Network.{Segments, store, Gasnet}
use dstm_p.MemMgr.{MemMgr, object_lock_addr_at}
use dstm_p.Locks.{Mem, grant}

module _ (g : Gasnet) (mgr : MemMgr) (env : ℕ → Segments → Segments) where
  -- A request is granted exactly when the lock word that it loads is not above the version sent and
  -- is still there at the compare-and-swap.
  pub grant_iff :
      (me obj version : ℕ) (m : Mem)
      → let lock = object_lock_addr_at mgr obj me in
        let s1 = env m.now m.seg in
        let s2 = env (m.now + 1) s1 in
        ((grant g mgr env me obj version m).0 ≡ false)
        ↔ ((s1 me lock ≤ version) × (s2 me lock ≡ s1 me lock))
  unfolding grant
  grant_iff me obj version m =
      let lock = object_lock_addr_at mgr obj me in
      let s1 = env m.now m.seg in
      ground (arith, g.cas_law (env (m.now + 1) s1 me lock) (s1 me lock) (locked_word version))

  -- What a request for an aligned lock does to the words of memory: where it is granted, the lock word of the object becomes the
  -- version sent, locked, and no other word changes; where it is refused, nothing but what others
  -- did in between.
  pub grant_memory :
      (me obj version : ℕ) (m : Mem) (node x : ℕ)
      → x % 8 ≡ 0
      → object_lock_addr_at mgr obj me % 8 ≡ 0
      → let lock = object_lock_addr_at mgr obj me in
        let s1 = env m.now m.seg in
        let s2 = env (m.now + 1) s1 in
        let r = grant g mgr env me obj version m in
        r.1.seg node x ≡ (
          if ltb version (s1 me lock)
          then s1 node x
          else (if r.0
              then s2 node x
              else (if node == me && x == lock then locked_word version else s2 node x)))
  unfolding grant
  grant_memory me obj version m node x hx hl =
      let lock = object_lock_addr_at mgr obj me in
      let s1 = env m.now m.seg in
      ground (arith, g.cas_law (env (m.now + 1) s1 me lock) (s1 me lock) (locked_word version))

  -- While a lock is held, that is while nobody changes its word, every request for it is refused, where
  -- the versions sent have no lock bit.
  pub grant_held :
      (me obj version version' : ℕ) (m : Mem)
      → version < 2 ^ 63
      → version' < 2 ^ 63
      → ((t : ℕ) (s : Segments)
          → env t s me (object_lock_addr_at mgr obj me) ≡ s me (object_lock_addr_at mgr obj me))
      → (grant g mgr env me obj version m).0 ≡ false
      → (grant g mgr env me obj version' (grant g mgr env me obj version m).1).0 ≡ true
  unfolding grant
  grant_held me obj version version' m hv hv' keep granted =
      let lock = object_lock_addr_at mgr obj me in
      let s1 = env m.now m.seg in
      let s2 = env (m.now + 1) s1 in
      let s3 = store s2 me lock (locked_word version) in
      ground (
        arith,
        g.cas_law (s2 me lock) (s1 me lock) (locked_word version),
        keep (m.now + 2) s3,
        locked_word-eq version hv,
      )

  -- A stale request is granted, while others leave memory alone: where the object's version is newer than the one sent, by the
  -- comparison that reads and validation use, but was made by a node of a lower number, the words
  -- compare the other way round, and the lock is handed out.
  pub grant_stale :
      (me obj version : ℕ) (m : Mem)
      → ((t : ℕ) (s : Segments) → env t s ≡ s)
      → let old = m.seg me (object_lock_addr_at mgr obj me) in
        old < 2 ^ 63
        → version < 2 ^ 63
        → is_timestamp_greater old version ≡ true
        → node_ts old < node_ts version
        → (grant g mgr env me obj version m).0 ≡ false
  unfolding grant is_timestamp_greater
  grant_stale me obj version m quiet ho hv newer lower =
      let lock = object_lock_addr_at mgr obj me in
      rw (quiet m.now m.seg, quiet (m.now + 1) m.seg)
        (ground (arith, g.cas_law (m.seg me lock) (m.seg me lock) (locked_word version)))

  -- Between versions of one node it is as meant: an unlocked object that stands still is granted
  -- exactly when its version is not newer than the one sent.
  pub grant_same_node_iff :
      (me obj version : ℕ) (m : Mem)
      → ((t : ℕ) (s : Segments) → env t s ≡ s)
      → let old = m.seg me (object_lock_addr_at mgr obj me) in
        old < 2 ^ 63
        → version < 2 ^ 63
        → node_ts old ≡ node_ts version
        → ((grant g mgr env me obj version m).0 ≡ false)
          ↔ (is_timestamp_greater old version ≡ false)
  unfolding grant is_timestamp_greater
  grant_same_node_iff me obj version m quiet ho hv same =
      let lock = object_lock_addr_at mgr obj me in
      rw (quiet m.now m.seg, quiet (m.now + 1) m.seg)
        (ground (arith, g.cas_law (m.seg me lock) (m.seg me lock) (locked_word version)))
