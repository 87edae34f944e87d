-- ===== src/Tx/Alone/Looks.antt =====
-- Looks at memory and at cached versions, and validation, of a transaction that nobody disturbs.
use dstm_p.Common.{
  ℕ, zero, suc, ◌+◌, ◌-◌, ◌≤◌, ◌<◌, ◌≡◌, refl, sym, ◌∙◌, ap, true, false, some, List, [], ◌∷◌, ltb,
  get_or, arith, Bool-cases, inl, inr, All, is_some,
}
use dstm_p.Timestamp.{
  node_from_address, addr_from_address, is_locked, version_ts, node_ts, is_timestamp_greater,
  is_timestamps_equivalent,
}
use dstm_p.Network.{Segments, Gasnet}
use dstm_p.MemMgr
use dstm_p.MemMgr.{MemMgr, cdu_size, object_lock_addr, object_lock_addr_at, objects_base}
use dstm_p.MemMgr.Layout.{lock_addr_split, same_lock_iff, objects_end}
use dstm_p.Cache
use dstm_p.Cache.{
  CellRead, Versions, fetch, copy_cell, low_bound, add_version_to_cache, get_cached_version,
}
use dstm_p.Cache.ReadCell.{fetch-word}
use dstm_p.Tx.State.{Entries, Tx, Config, State, pure, met, read_cell, get_version, get_cached}
use dstm_p.Tx.Validate.{
  check_entry, check_cached, is_current, outdated, validate_set, validate_sets, validate,
}
use dstm_p.Tx.Access.{block_lb}
use dstm_p.Tx.Hidden.{met-quiet}
use dstm_p.Tx.Placed.{IsObject}
use dstm_p.Tx.Sim.{IsWord}
use dstm_p.Tx.Alone.{
  Succeeds, succeeds, Succeeds-bind, Succeeds-then, Succeeds-else, Succeeds-weaken, lock_of,
  IsAlone, Older, IsCurrent, Current, Looked,
}

read_cell_still :
    (g : Gasnet) (m : Segments) (hist : ℕ → Segments) (fuel t a l : ℕ)
    → ((u : ℕ) → hist u ≡ m)
    → 0 < fuel
    → is_locked (m (node_from_address a) (addr_from_address l)) ≡ false
    → (r : CellRead) × ((Cache.read_cell g hist fuel t a l true ≡ some r)
        × (r.version ≡ m (node_from_address a) (addr_from_address l))
        × (is_some r.copied ≡ true))
unfolding Cache.read_cell is_timestamps_equivalent
read_cell_still g m hist zero t a l same lt free = absurd (omega arith)
read_cell_still g m hist (suc fuel) t a l same lt free = (
  record {
    version = m (node_from_address a) (addr_from_address l);
    value = copy_cell g hist (t + 1) a (addr_from_address a - low_bound a);
    copied = some (copy_cell g hist (t + 1) a);
    now = t + 10;
  },
  (
    rw (same t, same (t + 9), fetch-word g m (node_from_address a) (addr_from_address l), free)
        (ground arith),
    refl,
    refl,
  ),
)

module _ (cfg : Config) (segs : List ℕ) (me : ℕ) (m0 : Segments)
    (built : cfg.mgr ≡ (MemMgr.init segs me m0).0) where
  -- All words of an object have its lock.
  pub word-lock :
      (a : ℕ)
      → IsWord segs a
      → (node_from_address (block_lb a) ≡ node_from_address a)
        × (addr_from_address (object_lock_addr cfg.mgr a)
            ≡ addr_from_address (object_lock_addr cfg.mgr (block_lb a)))
  unfolding objects_base
  word-lock a ia =
      let ib = ia.object in
      let node : node_from_address (block_lb a) ≡ node_from_address a = omega arith in
      let n = node_from_address (block_lb a) in
      let over : objects_base (get_or segs n 0) ≤ addr_from_address a = omega (arith, ib.above) in
      let under : addr_from_address a < objects_end (get_or segs n 0) =
        omega (arith, ib.below, ib.aligned) in
      let one_lock = lock_addr_split segs me m0 n ib.known a (sym node) ib.low over under in
      let block_lock =
        lock_addr_split segs me m0 n ib.known (block_lb a) refl ib.low ib.above ib.below in
      (
        node,
        rw built (
            one_lock.0
            ∙ (same_lock_iff segs me m0 n ib.known a (block_lb a) ib.low over ib.above).1
                (omega arith)
            ∙ sym (block_lock.0)),
      )

  pub lock_place :
      (b : ℕ)
      → IsObject segs b
      → node_from_address (object_lock_addr cfg.mgr b) ≡ node_from_address b
  lock_place b ib =
      rw built
        (lock_addr_split segs me m0 (node_from_address b) ib.known b refl ib.low ib.above
          ib.below).1

  module _ (alone : IsAlone cfg) (m : Segments) where
    pub Looked-Current : (s t : State) → Current cfg segs m s → Looked m s t → Current cfg segs m t
    Looked-Current s t c (memory, versions, tx) = record {
      memory = memory;
      cached = rw versions (c.cached);
      reads = rw tx (c.reads);
      writes = rw tx (c.writes);
      apart = rw tx (c.apart);
      changed = ap (λ (t : Tx). t.rl_changed_objects) tx ∙ c.changed;
    }

    pub is_current-Current :
        (b ts : ℕ) (s : State)
        → IsObject segs b
        → ts ≡ lock_of cfg.mgr m b
        → is_locked ts ≡ false
        → s.world.seg ≡ m
        → Succeeds (λ good t. (good ≡ true) × Looked m s t) (is_current cfg b ts s)
    unfolding is_current get_version Cache.get_version is_timestamp_greater
    is_current-Current b ts s ib same unlocked memory =
        let l = object_lock_addr cfg.mgr b in
        let now = alone.quiet s.world.now s.world.seg ∙ memory in
        let word : Cache.get_version cfg.gasnet (cfg.env s.world.now s.world.seg) l ≡ ts =
          cfg.gasnet.get_law (cfg.env s.world.now s.world.seg) (node_from_address l)
            (addr_from_address l) 8 0 (omega arith)
          ∙ rw (now, lock_place b ib, same) (ap (m (node_from_address b)) (omega arith)) in
        Succeeds-else _ (outdated cfg b _) (pure true) _ (ground (arith, word, unlocked))
          (succeeds (refl, (now, refl, refl)))

    pub check_entry-Current :
        (b ts : ℕ) (s : State)
        → IsObject segs b
        → ts ≡ lock_of cfg.mgr m b
        → is_locked ts ≡ false
        → s.world.seg ≡ m
        → is_locked (get_cached_version b s.world.versions) ≡ false
        → version_ts (get_cached_version b s.world.versions) ≤ version_ts ts
        → Succeeds (λ good t. (good ≡ true) × Looked m s t) (check_entry cfg b ts s)
    unfolding check_entry check_cached get_cached is_timestamp_greater
    check_entry-Current b ts s ib same unlocked memory cached older = elim (Bool-cases cfg.cache) [
      | inr e ↦
          Succeeds-else cfg.cache (check_cached cfg b ts) (is_current cfg b ts) s e
            (is_current-Current b ts s ib same unlocked memory)
      | inl e ↦
          let versions = alone.still s.world.now s.world.versions in
          let s1 = record s {
            world = record (s.world) { versions = cfg.env_versions s.world.now s.world.versions };
          } in
          Succeeds-then cfg.cache (check_cached cfg b ts) (is_current cfg b ts) s e (
            Succeeds-else _ (pure false) (is_current cfg b ts) s1
              (rw versions (ground (arith, cached, older)))
              (Succeeds-weaken
                (λ good t (is_good, (mem, vs, tx)). (is_good, (mem, vs ∙ versions, tx)))
                (is_current-Current b ts s1 ib same unlocked memory)))
    ]

  module _ (alone : IsAlone cfg) (m : Segments)
      (free : (b : ℕ) → IsObject segs b → is_locked (lock_of cfg.mgr m b) ≡ false) where
    pub read_cell-Current :
        (a : ℕ) (s : State)
        → IsWord segs a
        → s.world.seg ≡ m
        → Succeeds
            (λ r t.
              (r.version ≡ lock_of cfg.mgr m (block_lb a))
              × (is_some r.copied ≡ true)
              × Looked m s t)
            (read_cell cfg a (object_lock_addr cfg.mgr a) s)
    unfolding read_cell
    read_cell-Current a s ia memory =
        let (node, lock) = word-lock a ia in
        let here : lock_of cfg.mgr m (block_lb a)
            ≡ m (node_from_address a) (addr_from_address (object_lock_addr cfg.mgr a)) =
          rw (node, lock) refl in
        let (r, (e, version, copied)) =
          read_cell_still cfg.gasnet m (λ t. met cfg s.world (t - s.world.now)) cfg.rounds
            s.world.now a (object_lock_addr cfg.mgr a)
            (λ u. met-quiet cfg s.world (u - s.world.now) alone.quiet ∙ memory) alone.some_rounds
            (sym (ap is_locked here) ∙ free (block_lb a) ia.object) in
        rw (e, read_cell)
          (succeeds (
            version ∙ sym here,
            copied,
            (met-quiet cfg s.world _ alone.quiet ∙ memory, refl, refl),
          ))

    pub validate_set-Current :
        (v : ℕ) (es : Entries) (s : State)
        → All (IsCurrent cfg segs m) es
        → s.world.seg ≡ m
        → Older cfg segs m s.world.versions
        → Succeeds (λ good t. (good ≡ true) × Looked m s t) (validate_set cfg v es s)
    unfolding validate_set
    validate_set-Current v [] s all memory old = succeeds (refl, (memory, refl, refl))
    validate_set-Current v ((b, e) ∷ es) s all memory old =
        Succeeds-bind {P = λ good t. (good ≡ true) × Looked m s t}
          (elim (Bool-cases (is_timestamp_greater v e.ts)) [
            | inl k ↦ Succeeds-then _ (check_entry cfg b e.ts) (pure true) s k (
                check_entry-Current alone m b e.ts s all.0.0 all.0.1 (rw (all.0.1) (free b all.0.0))
                  memory (old b all.0.0).0 (rw (all.0.1) (old b all.0.0).1))
            | inr k ↦
                Succeeds-else _ (check_entry cfg b e.ts) (pure true) s k
                  (succeeds (refl, (memory, refl, refl)))
          ])
          λ good s1 (is_good, (memory1, versions1, tx1)).
            Succeeds-then good (validate_set cfg v es) (pure false) s1 is_good (
              Succeeds-weaken
                (λ also t (is_also, (mem, vs, tx)). (is_also, (mem, vs ∙ versions1, tx ∙ tx1)))
                (validate_set-Current v es s1 all.1 memory1 (rw versions1 old)))

    -- What validation keeps; it may change VC.
    abbrev pub Validated : State → State → Type 0
    Validated s t =
        (t.world.seg ≡ m)
        × (t.world.versions ≡ s.world.versions)
        × (t.tx.read_set ≡ s.tx.read_set)
        × (t.tx.write_set ≡ s.tx.write_set)
        × (t.tx.rl_changed_objects ≡ s.tx.rl_changed_objects)

    pub validate-Current :
        (v : ℕ) (s : State)
        → Current cfg segs m s
        → Succeeds (λ good t. (good ≡ true) × Validated s t) (validate cfg v s)
    unfolding validate validate_sets
    validate-Current v s c = elim (Bool-cases (ltb (s.tx.vc (node_ts v)) (version_ts v))) [
      | inr k ↦
          Succeeds-else _ (validate_sets cfg v s.tx) (pure true) s k
            (succeeds (refl, (c.memory, refl, refl, refl, refl)))
      | inl k ↦ Succeeds-then _ (validate_sets cfg v s.tx) (pure true) s k (
          Succeeds-bind (validate_set-Current v s.tx.read_set s c.reads c.memory c.cached)
            λ reads s1 (good1, (mem1, vs1, tx1)).
              Succeeds-bind {P = λ good t. (good ≡ true) × Looked m s t}
                (Succeeds-then reads (validate_set cfg v s.tx.write_set) (pure false) s1 good1 (
                  Succeeds-weaken
                    (λ also t (is_also, (mem, vs, tx)). (is_also, (mem, vs ∙ vs1, tx ∙ tx1)))
                    (validate_set-Current v s.tx.write_set s1 c.writes mem1 (rw vs1 (c.cached)))))
                λ writes s2 (good2, (mem2, vs2, tx2)). rw good2 (
                  succeeds (
                    refl,
                    (
                      mem2,
                      vs2,
                      ap (λ (t : Tx). t.read_set) tx2,
                      ap (λ (t : Tx). t.write_set) tx2,
                      ap (λ (t : Tx). t.rl_changed_objects) tx2,
                    ),
                  )))
    ]
