-- ===== src/Tx/Alone/Accept.antt =====
-- What follows the read of an object from memory, in a transaction that nobody disturbs.
use dstm_p.Common.{
  ℕ, ◌+◌, ◌≤◌, ◌≡◌, refl, ◌∙◌, Bool, true, false, ◌||◌, ◌&&◌, ◌⊎◌, Option, none, some, List, ◌==◌,
  if◌then◌else◌, arith, Bool-cases, inl, inr, find, insert, find-insert,
}
use dstm_p.Timestamp.{is_locked, version_ts, is_timestamp_greater, is_timestamps_equal}
use dstm_p.Network.{Segments}
use dstm_p.MemMgr
use dstm_p.MemMgr.{MemMgr, cdu_size, object_lock_addr, object_lock_addr_at, objects_base}
use dstm_p.Cache.{Versions, add_version_to_cache, get_cached_version}
use dstm_p.Tx.State.{Config, State, ok, pure, abort, add_version, increase_clock}
use dstm_p.Tx.Access.{accept_unlocked, accept}
use dstm_p.Tx.Placed.{IsObject}
use dstm_p.Clock
use dstm_p.Tx.Accesses.{clock_round}
use dstm_p.Tx.Alone.{
  Succeeds, succeeds, Succeeds-bind, Succeeds-then, Succeeds-else, lock_of, IsAlone, Older, Current,
}
use dstm_p.Tx.Alone.Looks.{validate-Current}

Succeeds-state :
    {P : State → Type 0} (b : Bool) (s t : State)
    → P s
    → P t
    → Succeeds (λ _ u. P u) (ok tt (if b then s else t))
Succeeds-state true s t p q = succeeds p
Succeeds-state false s t p q = succeeds q

-- A version goes to the cache only if it is unlocked.
add_cases :
    (b v : ℕ) (vs : Versions)
    → (add_version_to_cache b v vs ≡ vs)
      ⊎ ((add_version_to_cache b v vs ≡ insert b v vs) × (is_locked v ≡ false))
unfolding add_version_to_cache
add_cases b v vs = elim (Bool-cases (is_locked v)) [
  | inl k ↦ inl (rw k refl)
  | inr k ↦ by_old (find b vs) refl k
]
  where
    by_old :
        (o : Option ℕ)
        → find b vs ≡ o
        → is_locked v ≡ false
        → (add_version_to_cache b v vs ≡ vs)
          ⊎ ((add_version_to_cache b v vs ≡ insert b v vs) × (is_locked v ≡ false))
    by_old none e k = inr (rw (add_version_to_cache, k, e) refl, k)
    by_old (some w) e k =
        elim (Bool-cases (is_timestamp_greater v w || (is_locked v && is_timestamps_equal v w))) [
          | inl newer ↦ inr (rw (add_version_to_cache, k, e, newer) refl, k)
          | inr no_newer ↦ inl (rw (add_version_to_cache, k, e, no_newer) refl)
        ]

Older-add :
    (cfg : Config) (segs : List ℕ) (m : Segments) (b v : ℕ) (vs : Versions)
    → v ≡ lock_of cfg.mgr m b
    → Older cfg segs m vs
    → Older cfg segs m (add_version_to_cache b v vs)
unfolding get_cached_version
Older-add cfg segs m b v vs same old c ic = elim (add_cases b v vs) [
  | inl kept ↦ rw kept (old c ic)
  | inr (added, free) ↦ elim (Bool-cases (b == c)) [
    | inl e ↦
        let is : b ≡ c = ground arith in
        let now : version_ts v ≤ version_ts (lock_of cfg.mgr m c) =
          rw (← is, ← same) (omega arith) in
        rw (added, get_cached_version, find-insert b c v vs, e) (free, now)
    | inr e ↦ rw (added, get_cached_version, find-insert b c v vs, e) (old c ic)
  ]
]

-- The sets are as before.
abbrev pub Sets : State → State → Type 0
Sets s t = (t.tx.read_set ≡ s.tx.read_set) × (t.tx.write_set ≡ s.tx.write_set)

module _ (cfg : Config) (segs : List ℕ) (me : ℕ) (m0 : Segments)
    (built : cfg.mgr ≡ (MemMgr.init segs me m0).0) (alone : IsAlone cfg) (m : Segments)
    (free : (b : ℕ) → IsObject segs b → is_locked (lock_of cfg.mgr m b) ≡ false) where
  add_version-Current :
      (b v : ℕ) (s : State)
      → v ≡ lock_of cfg.mgr m b
      → Current cfg segs m s
      → Succeeds (λ _ t. Current cfg segs m t × Sets s t) (add_version cfg b v s)
  unfolding add_version
  add_version-Current b v s same c =
      let kept : Older cfg segs m
          (add_version_to_cache b v (cfg.env_versions s.world.now s.world.versions)) =
        Older-add cfg segs m b v _ same
          (rw (alone.still s.world.now s.world.versions) (c.cached)) in
      Succeeds-state {P = λ t. Current cfg segs m t × Sets s t} cfg.cache _ s
        (
          record {
            memory = c.memory;
            cached = kept;
            reads = c.reads;
            writes = c.writes;
            apart = c.apart;
            changed = c.changed;
          },
          (refl, refl),
        )
        (c, (refl, refl))

  increase_clock-Current :
      (v : ℕ) (s : State)
      → Current cfg segs m s
      → Succeeds (λ _ t. Current cfg segs m t × Sets s t) (increase_clock cfg v s)
  unfolding increase_clock
  increase_clock-Current v s c =
      go (Clock.increase_clock cfg.gasnet cfg.env_clock (v + 1) 0 v s.world.clock s.world.now) refl
    where
      go :
          (o : Option (Clock.Ticked Bool))
          → Clock.increase_clock cfg.gasnet cfg.env_clock (v + 1) 0 v s.world.clock s.world.now ≡ o
          → Succeeds (λ _ t. Current cfg segs m t × Sets s t) (increase_clock cfg v s)
      go none e = absurd (
          ground
            (arith, clock_round cfg alone.calm (v + 1) 0 v s.world.clock s.world.now (omega arith)))
      go (some r) e =
          rw (e, increase_clock)
            (succeeds (
              record {
                memory = c.memory;
                cached = c.cached;
                reads = c.reads;
                writes = c.writes;
                apart = c.apart;
                changed = c.changed;
              },
              (refl, refl),
            ))

  pub accept-Current :
      (b v : ℕ) (s : State)
      → IsObject segs b
      → v ≡ lock_of cfg.mgr m b
      → Current cfg segs m s
      → Succeeds (λ _ t. Current cfg segs m t × Sets s t) (accept cfg b v s)
  unfolding accept accept_unlocked
  accept-Current b v s ib same c =
      Succeeds-bind (add_version-Current b v s same c) λ _ s1 (c1, (r1, w1)).
        Succeeds-else (is_locked v) (abort v) (accept_unlocked cfg v) s1 (rw same (free b ib)) (
          Succeeds-bind (increase_clock-Current (version_ts v) s1 c1) λ _ s2 (c2, (r2, w2)).
            Succeeds-bind (validate-Current cfg segs me m0 built alone m free v s2 c2)
              λ good s3 (is_good, (memory, versions, r3, w3, l3)).
                Succeeds-then good (pure tt) (abort _) s3 is_good (
                  succeeds (
                    record {
                      memory = memory;
                      cached = rw versions (c2.cached);
                      reads = rw r3 (c2.reads);
                      writes = rw w3 (c2.writes);
                      apart = rw (r3, w3) (c2.apart);
                      changed = l3 ∙ c2.changed;
                    },
                    (r3 ∙ r2 ∙ r1, w3 ∙ w2 ∙ w1),
                  )))
