-- ===== src/Tx/Checked.antt =====
-- What a commit has checked when it returns, whatever others do.
use dstm_p.Common.{
  ℕ, zero, suc, ◌+◌, ◌≡◌, refl, ◌∙◌, ap, Bool, true, false, ◌||◌, [], ◌∷◌, All, if◌then◌else◌,
  arith, subst,
}
use dstm_p.Timestamp.{is_locked, is_timestamp_greater}
use dstm_p.MemMgr.{object_lock_addr}
use dstm_p.Cache
use dstm_p.Cache.{Versions}
use dstm_p.Tx.State.{
  Entry, Entries, Tx, Config, State, World, Run, ok, aborted, out_of_rounds, Cmd, pure, met, abort,
  get_version, get_cached, add_version,
}
use dstm_p.Tx.Validate.{
  outdated, is_current, check_cached, check_entry, validate_entries, validate_all,
}
use dstm_p.Tx.Commit.{is_empty, release_locks, publish, reject, finish}
use dstm_p.Tx.Gives.{Gives, gives, quits, starves, Gives-bind, Gives-weaken}

or_false : (a b : Bool) → (a || b) ≡ false → (a ≡ false) × (b ≡ false)
or_false true b e = cc
or_false false b e = (refl, e)

anyhow : {A X : Type 0} (x : X) (r : Run A) → Gives (λ _ _. X) (λ _. Unit {0}) r
anyhow x (ok a s) = gives x
anyhow x (aborted r s) = quits tt
anyhow x out_of_rounds = starves

Gives-if :
    {A : Type 0} {P : A → State → Type 0} {Q : State → Type 0} (b : Bool) (m n : Cmd A) (s : State)
    → (b ≡ true → Gives P Q (m s))
    → (b ≡ false → Gives P Q (n s))
    → Gives P Q ((if b then m else n) s)
Gives-if true m n s h k = h refl
Gives-if false m n s h k = k refl

module _ (cfg : Config) where
  -- At one of the accesses from now on, the lock word of the object is unlocked, and no newer than the
  -- version of the entry.
  abbrev pub Passed : World → ℕ × Entry → Type 0
  Passed w (block, entry) =
      (d : ℕ) × (is_locked
          (Cache.get_version cfg.gasnet (met cfg w d) (object_lock_addr cfg.mgr block))
        ≡ false)
      × (is_timestamp_greater
            (Cache.get_version cfg.gasnet (met cfg w d) (object_lock_addr cfg.mgr block)) entry.ts
          ≡ false)

  -- One access later.
  abbrev Next : World → World → Type 0
  Next w w1 = (w1.seg ≡ met cfg w 0) × (w1.now ≡ w.now + 1)

  met-Next : (w w1 : World) (d : ℕ) → Next w w1 → met cfg w1 d ≡ met cfg w (suc d)
  met-Next w w1 zero (seg, now) = ap (λ t. cfg.env t w1.seg) now ∙ ap (cfg.env (w.now + 1)) seg
  met-Next w w1 (suc d) next =
      let time : w1.now + suc d ≡ w.now + suc (suc d) = omega (arith, next.1) in
      ap (λ t. cfg.env t (met cfg w1 d)) time
      ∙ ap (cfg.env (w.now + suc (suc d))) (met-Next w w1 d next)

  Passed-Next : (w w1 : World) (es : Entries) → Next w w1 → All (Passed w1) es → All (Passed w) es
  Passed-Next w w1 [] next all = tt
  Passed-Next w w1 ((b, e) ∷ es) next ((d, free, older), rest) = (
    (suc d, rw (met-Next w w1 d next) at free, rw (met-Next w w1 d next) at older),
    Passed-Next w w1 es next rest,
  )

  abbrev Good : World → ℕ × Entry → Bool → State → Type 0
  Good w p good s1 = good ≡ true → Passed w p × Next w s1.world

  is_current-Good :
      (b : ℕ) (e : Entry) (t : Tx) (w : World) (vs : Versions)
      → Gives
          (Good w (b, e))
          (λ _. Unit {0})
          (is_current cfg b e.ts (record { tx = t; world = record w { versions = vs } }))
  unfolding is_current get_version outdated add_version
  is_current-Good b e t w vs =
      let v = Cache.get_version cfg.gasnet (met cfg w 0) (object_lock_addr cfg.mgr b) in
      Gives-if (is_locked v || is_timestamp_greater v e.ts) (outdated cfg b v) (pure true) _
        (λ stale. gives (λ h. cc))
        λ fine.
          let (free, older) = or_false (is_locked v) (is_timestamp_greater v e.ts) fine in
          gives (λ h. ((0, free, older), (refl, refl)))

  check_entry-Good :
      (b : ℕ) (e : Entry) (s : State)
      → Gives (Good s.world (b, e)) (λ _. Unit {0}) (check_entry cfg b e.ts s)
  unfolding check_entry check_cached get_cached
  check_entry-Good b e s =
      let w = s.world in
      let vs = cfg.env_versions w.now w.versions in
      let c = Cache.get_cached_version b vs in
      Gives-if cfg.cache (check_cached cfg b e.ts) (is_current cfg b e.ts) s
        (λ on.
          Gives-if (is_locked c || is_timestamp_greater c e.ts) (pure false) (is_current cfg b e.ts)
            _ (λ stale. gives (λ h. cc)) λ fine. is_current-Good b e s.tx w vs)
        λ off. is_current-Good b e s.tx w w.versions

  validate_entries-Good :
      (es : Entries) (s : State)
      → Gives
          (λ good s1. good ≡ true → All (Passed s.world) es)
          (λ _. Unit {0})
          (validate_entries cfg es s)
  unfolding validate_entries
  validate_entries-Good [] s = gives (λ h. tt)
  validate_entries-Good ((b, e) ∷ es) s = Gives-bind (check_entry-Good b e s) λ good s1 h.
      Gives-if good (validate_entries cfg es) (pure false) s1
        (λ fine.
          let (passed, next) = h fine in
          Gives-weaken (λ g s2 all k. (passed, Passed-Next s.world s1.world es next (all k)))
            (validate_entries-Good es s1))
        λ bad. gives (λ k. cc)

  finish-Good :
      (s : State) → Gives (λ _ _. All (Passed s.world) s.tx.read_set) (λ _. Unit {0}) (finish cfg s)
  unfolding finish validate_all reject abort
  finish-Good s = Gives-bind (validate_entries-Good s.tx.read_set s) λ good s1 h.
      Gives-if good (publish cfg) (reject cfg) s1 (λ fine. anyhow (h fine) (publish cfg s1))
        λ bad.
          Gives-bind
            (anyhow tt (
              (if is_empty cfg s1.tx.write_set then pure tt else release_locks cfg s1.tx.write_set)
                s1))
            λ _ s2 k. quits tt

-- Whatever other threads and nodes do to memory, the clock and the cached versions: a commit that holds its locks
-- returns only if each object of the read set has passed the check of `validateAll`, at some access after
-- the locks were taken: the lock word that this access met is unlocked, and its version no newer than the one read.
pub finish-Passed :
    (cfg : Config) (s s' : State) (r : Bool)
    → finish cfg s ≡ ok r s'
    → All (Passed cfg s.world) s.tx.read_set
finish-Passed cfg s s' r e = known (subst (Gives _ _) e (finish-Good cfg s))
  where
    known :
        Gives (λ _ _. All (Passed cfg s.world) s.tx.read_set) (λ _. Unit {0}) (ok r s')
        → All (Passed cfg s.world) s.tx.read_set
    known (gives p) = p
