-- ===== src/Tx/Alone/Commit.antt =====
-- A commit of a transaction that nobody disturbs returns.
use dstm_p.Common.{
  ℕ, zero, suc, ◌+◌, ◌≤◌, ◌<◌, ◌≡◌, refl, sym, ◌∙◌, ap, Bool, true, false, Option, none, some, List,
  [], ◌∷◌, ◌==◌, length, arith, Bool-cases, inl, inr, All, find,
}
use dstm_p.Timestamp.{node_from_address, addr_from_address, is_locked, version_ts}
use dstm_p.Network.{Segments}
use dstm_p.MemMgr
use dstm_p.MemMgr.{object_lock_addr}
use dstm_p.Clock
use dstm_p.Cache.{get_cached_version}
use dstm_p.Tx.State.{Entry, Entries, Config, State, Cmd, pure, abort, add_version, get_next_clock}
use dstm_p.Tx.Validate.{validate_entries, validate_all}
use dstm_p.Tx.Commit.{
  Requests, collect, give_up, lock_rounds, get_locks, put_values, put_versions,
  release_locks_with_new_clock, is_empty, publish, reject, finish, commit,
}
use dstm_p.Tx.Completes.{collect-lt, next_clock, request_all-replies, wait_replies-ends}
use dstm_p.Tx.Placed.{IsObject, Distinct}
use dstm_p.Tx.Alone.{
  Succeeds, succeeds, Succeeds-bind, Succeeds-then, Succeeds-else, Succeeds-weaken, Succeeds-ok,
  lock_of, IsAlone, Older, IsCurrent, Current, Apart, Looked,
}
use dstm_p.Tx.Alone.Grants.{request_all-Granted}
use dstm_p.Tx.Alone.Looks.{check_entry-Current}
use dstm_p.Tx.Alone.Places.{Lacks}
use dstm_p.Tx.Alone.Collects.{collect-Collected, Lacks-Misses}

-- A branch on the changed objects, of which there are none.
Succeeds-unchanged :
    {P : Bool → State → Type 0} (bs : List ℕ) (m n : Cmd Bool) (s : State)
    → bs ≡ []
    → Succeeds P (m s)
    → Succeeds P ((elim bs as (λ _. Cmd Bool) [ [] ↦ m | b ∷ rest ↦ n ]) s)
Succeeds-unchanged [] m n s e h = h
Succeeds-unchanged (b ∷ bs) m n s e h = cc

none_asked : (es : Entries) → All (λ (p : ℕ × Entry). All (Lacks p.0) []) es
none_asked [] = tt
none_asked (e ∷ es) = (tt, none_asked es)

module _ (cfg : Config) (segs : List ℕ) (me : ℕ) (m0 : Segments)
    (built : cfg.mgr ≡ (MemMgr.init segs me m0).0) (alone : IsAlone cfg) where
  -- The locks of entries are taken, and no other lock or set has changed.
  abbrev Locked : Entries → State → State → Type 0
  Locked es s t =
      (t.tx.rl_changed_objects ≡ [])
      × (t.tx.read_set ≡ s.tx.read_set)
      × (t.tx.write_set ≡ s.tx.write_set)
      × (t.world.versions ≡ s.world.versions)
      × ((c : ℕ)
          → IsObject segs c
          → find c es ≡ none
          → lock_of cfg.mgr t.world.seg c ≡ lock_of cfg.mgr s.world.seg c)

  IsCurrent-later :
      (es : Entries) (rs : Requests) (m m' : Segments)
      → All (IsCurrent cfg segs m) es
      → All (λ (p : ℕ × Entry). All (Lacks p.0) rs) es
      → ((c : ℕ) → IsObject segs c → All (Lacks c) rs → lock_of cfg.mgr m' c ≡ lock_of cfg.mgr m c)
      → All (IsCurrent cfg segs m') es
  IsCurrent-later [] rs m m' current lacks same = tt
  IsCurrent-later ((c, w) ∷ es) rs m m' current lacks same = (
    (current.0.0, current.0.1 ∙ sym (same c current.0.0 lacks.0)),
    IsCurrent-later es rs m m' current.1 lacks.1 same,
  )

  lock_rounds-Locked :
      (fuel : ℕ) (es : Entries) (s : State)
      → length es < fuel
      → All (IsCurrent cfg segs s.world.seg) es
      → Distinct es
      → s.tx.rl_changed_objects ≡ []
      → Succeeds (λ good t. (good ≡ true) × Locked es s t) (lock_rounds cfg fuel es s)
  unfolding lock_rounds
  lock_rounds-Locked zero es s lt current distinct unchanged = absurd (omega arith)
  lock_rounds-Locked (suc fuel) [] s lt current distinct unchanged =
      succeeds (refl, (unchanged, refl, refl, refl, λ c ic absent. refl))
  lock_rounds-Locked (suc fuel) ((b, e) ∷ es) s lt current distinct unchanged =
      let (got, others) =
        collect-Collected cfg segs me m0 built s.world.seg ((b, e) ∷ es) [] current distinct tt tt
          (none_asked ((b, e) ∷ es)) in
      let s0 = record s { tx = record (s.tx) { rl_nodes = 0 } } in
      let rs = (collect cfg ((b, e) ∷ es) []).0 in
      let (s1, answered, count) = request_all-replies cfg rs s0 in
      let granted =
        Succeeds-ok
          (request_all-Granted cfg segs me m0 built alone.quiet rs s0 got.ready got.nodes unchanged)
          answered in
      let (c1, r1, w1, v1, same1) = granted in
      rw (answered, wait_replies-ends cfg (length rs) s1 (omega (arith, count)))
        (let kept =
            λ (c : ℕ) (ic : IsObject segs c)
                (lack : All (Lacks c) (collect cfg ((b, e) ∷ es) []).0).
              same1 (node_from_address c) (addr_from_address (object_lock_addr cfg.mgr c))
                (Lacks-Misses cfg segs me m0 built s.world.seg c _ ic got.ready lack) in
          Succeeds-unchanged s1.tx.rl_changed_objects
            (lock_rounds cfg fuel (collect cfg ((b, e) ∷ es) []).1)
            (give_up cfg (collect cfg ((b, e) ∷ es) []).1) s1 c1
            (Succeeds-weaken
              (λ good t (is_good, (c, r, w, v, same)). (
                is_good,
                (
                  c,
                  r ∙ r1,
                  w ∙ w1,
                  v ∙ v1,
                  λ k ik absent.
                      let (lack, not_left) = others k ik absent tt in
                      same k ik not_left ∙ kept k ik lack,
                ),
              ))
              (lock_rounds-Locked fuel (collect cfg ((b, e) ∷ es) []).1 s1
                (omega (arith, collect-lt cfg (b, e) es))
                (IsCurrent-later (collect cfg ((b, e) ∷ es) []).1 (collect cfg ((b, e) ∷ es) []).0
                  s.world.seg s1.world.seg got.current got.not_asked kept)
                got.distinct c1)))

  validate_entries-Good :
      (m : Segments) (es : Entries) (s : State)
      → s.world.seg ≡ m
      → All
          (λ (p : ℕ × Entry).
            IsCurrent cfg segs m p
            × (is_locked p.1.ts ≡ false)
            × ((is_locked (get_cached_version p.0 s.world.versions) ≡ false)
                × (version_ts (get_cached_version p.0 s.world.versions) ≤ version_ts p.1.ts)))
          es
      → Succeeds (λ good t. (good ≡ true) × Looked m s t) (validate_entries cfg es s)
  unfolding validate_entries
  validate_entries-Good m [] s memory all = succeeds (refl, (memory, refl, refl))
  validate_entries-Good m ((b, e) ∷ es) s memory all =
      let ((ib, same), unlocked, (free, older)) = all.0 in
      Succeeds-bind
        (check_entry-Current cfg segs me m0 built alone m b e.ts s ib same unlocked memory free
          older)
        λ good s1 (is_good, (memory1, versions1, tx1)).
          Succeeds-then good (validate_entries cfg es) (pure false) s1 is_good (
            Succeeds-weaken
              (λ also t (is_also, (mem, vs, tx)). (is_also, (mem, vs ∙ versions1, tx ∙ tx1)))
              (validate_entries-Good m es s1 memory1 (rw versions1 (all.1))))

  put_values-Done : (es : Entries) (s : State) → Succeeds (λ _ t. t.tx ≡ s.tx) (put_values cfg es s)
  unfolding put_values
  put_values-Done [] s = succeeds refl
  put_values-Done ((b, e) ∷ es) s = put_values-Done es _

  put_versions-Done :
      (v : ℕ) (es : Entries) (s : State) → Succeeds (λ _ _. Unit {0}) (put_versions cfg v es s)
  unfolding put_versions add_version
  put_versions-Done v [] s = succeeds tt
  put_versions-Done v ((b, e) ∷ es) s = put_versions-Done v es _

  get_next_clock-Done : (s : State) → Succeeds (λ _ _. Unit {0}) (get_next_clock cfg s)
  unfolding get_next_clock
  get_next_clock-Done s =
      go (Clock.get_next_clock cfg.gasnet cfg.env_clock cfg.rounds s.world.clock s.world.now) refl
    where
      go :
          (o : Option (Clock.Ticked ℕ))
          → Clock.get_next_clock cfg.gasnet cfg.env_clock cfg.rounds s.world.clock s.world.now ≡ o
          → Succeeds (λ _ _. Unit {0}) (get_next_clock cfg s)
      go none e = absurd (
          ground (
            arith,
            next_clock cfg alone.calm alone.some_rounds cfg.rounds s.world.clock s.world.now
                alone.some_rounds,
          ))
      go (some r) e = rw (e, get_next_clock) (succeeds tt)

  publish-Done : (s : State) → Succeeds (λ _ _. Unit {0}) (publish cfg s)
  unfolding publish release_locks_with_new_clock
  publish-Done s = Succeeds-bind (put_values-Done s.tx.write_set s) λ _ s1 _.
      Succeeds-bind
        (Succeeds-bind (get_next_clock-Done s1) λ c s2 _. put_versions-Done _ s2.tx.write_set s2)
        λ _ s3 _. succeeds tt

  unwritten_reads : (rs ws : Entries) → Apart rs ws → All (λ (p : ℕ × Entry). find p.0 ws ≡ none) rs
  unfolding find
  unwritten_reads [] ws apart = tt
  unwritten_reads ((b, e) ∷ rs) ws apart =
      let here : find b ws ≡ none = elim (apart b) [ inl h ↦ absurd (ground arith) | inr h ↦ h ] in
      (
        here,
        unwritten_reads rs ws λ k. elim (Bool-cases (b == k)) [
          | inl q ↦ let same : b ≡ k = ground arith in inr (rw (← same) here)
          | inr q ↦ elim (apart k) [ inl h ↦ inl (ground arith) | inr h ↦ inr h ]
        ],
      )

  module _ (m : Segments)
      (free : (b : ℕ) → IsObject segs b → is_locked (lock_of cfg.mgr m b) ≡ false) where
    reads_good :
        (rs ws : Entries) (s : State) (m' : Segments)
        → All (IsCurrent cfg segs m) rs
        → All (λ (p : ℕ × Entry). find p.0 ws ≡ none) rs
        → Older cfg segs m s.world.versions
        → ((c : ℕ)
            → IsObject segs c
            → find c ws ≡ none
            → lock_of cfg.mgr m' c ≡ lock_of cfg.mgr m c)
        → All
            (λ (p : ℕ × Entry).
              IsCurrent cfg segs m' p
              × (is_locked p.1.ts ≡ false)
              × ((is_locked (get_cached_version p.0 s.world.versions) ≡ false)
                  × (version_ts (get_cached_version p.0 s.world.versions) ≤ version_ts p.1.ts)))
            rs
    reads_good [] ws s m' current unwritten old same = tt
    reads_good ((b, e) ∷ rs) ws s m' current unwritten old same =
        let (ib, is) = current.0 in
        (
          (
            (ib, is ∙ sym (same b ib unwritten.0)),
            rw is (free b ib),
            ((old b ib).0, rw is (old b ib).1),
          ),
          reads_good rs ws s m' current.1 unwritten.1 old same,
        )

    pub commit-Done :
        (s : State)
        → Current cfg segs m s
        → Distinct s.tx.write_set
        → Succeeds (λ _ _. Unit {0}) (commit cfg s)
    unfolding commit get_locks finish validate_all
    commit-Done s c distinct =
        Succeeds-bind {P = λ good t. (good ≡ true) × Locked s.tx.write_set s t}
          (elim (Bool-cases (is_empty cfg s.tx.write_set)) [
            | inl e ↦
                Succeeds-then (is_empty cfg s.tx.write_set) (pure true) (get_locks cfg) s e
                  (succeeds (refl, (c.changed, refl, refl, refl, λ k ik absent. refl)))
            | inr e ↦ Succeeds-else (is_empty cfg s.tx.write_set) (pure true) (get_locks cfg) s e (
                lock_rounds-Locked (length s.tx.write_set + 1) s.tx.write_set s (omega arith)
                  (rw (c.memory) (c.writes)) distinct c.changed)
          ])
          λ locked s1 (is_locked_all, (c1, r1, w1, v1, same1)).
            Succeeds-then locked (finish cfg) (abort _) s1 is_locked_all (
              Succeeds-bind
                (validate_entries-Good s1.world.seg s1.tx.read_set s1 refl (
                  rw r1 (
                    reads_good s.tx.read_set s.tx.write_set s1 s1.world.seg c.reads
                      (unwritten_reads s.tx.read_set s.tx.write_set c.apart) (rw v1 (c.cached))
                      (λ k ik absent.
                        same1 k ik absent ∙ ap (λ (n : Segments). lock_of cfg.mgr n k) c.memory))))
                λ good s2 (is_good, looked).
                  Succeeds-then good (publish cfg) (reject cfg) s2 is_good (publish-Done s2))
