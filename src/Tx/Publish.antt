-- ===== src/Tx/Publish.antt =====
-- What a commit that holds its locks writes.
use dstm_p.Common.{
  ℕ, ◌+◌, ◌^◌, ◌<◌, zero, suc, ◌%◌, ◌≡◌, refl, sym, ◌∙◌, ap, Bool, Option, none, some, ◌==◌,
  Bool-cases, inl, inr, List, [], ◌∷◌, All, find, if◌then◌else◌,
}
use dstm_p.Timestamp.{node_from_address, addr_from_address, new_version}
use dstm_p.Network.{Segments, copy_to, store}
use dstm_p.MemMgr
use dstm_p.Clock
use dstm_p.MemMgr.{cdu_size, object_lock_addr}
use dstm_p.Tx.State.{
  Entry, Entries, Config, State, Run, ok, aborted, out_of_rounds, pure, abort, add_version,
  get_next_clock,
}
use dstm_p.Tx.Commit.{
  put_values, put_versions, release_locks_with_new_clock, is_empty, release_locks, publish, reject,
  finish,
}
use dstm_p.Tx.Frame.{
  Ends, returns, leaves, stops, Ends-bind, Ends-ok, Ends-if, Stable, validate_all-Ends,
}
use dstm_p.Tx.Gives.{Gives, gives, starves, Gives-then}
use dstm_p.Tx.Hidden.{met-quiet}
use dstm_p.Tx.Placed.{
  IsObject, Distinct, put_cells, put_locks, word_of, put_cells_lem, put_locks_cell, put_locks_lem,
}

-- Memory is `m` and the write set `ws`.
abbrev pub At : Segments → Entries → State → Type 0
At m ws s = (s.world.seg ≡ m) × (s.tx.write_set ≡ ws)

abbrev Anything : State → Type 0
Anything s = Unit

any-Ends : {A : Type 0} (r : Run A) → Ends Anything Anything r
any-Ends (ok a s) = returns tt
any-Ends (aborted r s) = leaves tt
any-Ends out_of_rounds = stops

pub Ends-weaken :
    {A : Type 0} {P R Q : State → Type 0} {r : Run A}
    → ((s : State) → P s → R s)
    → Ends P Q r
    → Ends R Q r
Ends-weaken f (returns p) = returns (f _ p)
Ends-weaken f (leaves q) = leaves q
Ends-weaken f stops = stops

some-result : (a b : Clock.Ticked ℕ) → some a ≡ some b → a ≡ b
some-result a b e = cc

module _ (cfg : Config) (quiet : (t : ℕ) (m : Segments) → cfg.env t m ≡ m) where
  At-Stable : (m : Segments) (ws : Entries) → Stable cfg (At m ws)
  At-Stable m ws = record {
    moved = λ s k n h. (met-quiet cfg s.world k quiet ∙ h.0, h.1);
    cached = λ s vs h. h;
    clocked = λ s c n h. h;
    validated = λ s f h. h;
  }

  put_values-At :
      {Q : State → Type 0} (es : Entries) (m : Segments) (ws : Entries) (s : State)
      → At m ws s
      → Ends (At (put_cells es m) ws) Q (put_values cfg es s)
  unfolding put_values
  put_values-At [] m ws s h = returns h
  put_values-At ((b, e) ∷ es) m ws s h =
      put_values-At es (copy_to m (node_from_address b) (addr_from_address b) e.cell (2 ^ cdu_size))
        ws _
        (
          cfg.gasnet.put_law _ _ _ _ _
              ∙ ap
                  (λ (m : Segments).
                    copy_to m (node_from_address b) (addr_from_address b) e.cell (2 ^ cdu_size))
                  (quiet _ _ ∙ h.0),
          h.1,
        )

  -- The same, at a clock.
  abbrev AtClock : Segments → Entries → ℕ → State → Type 0
  AtClock m ws c s = At m ws s × (s.world.clock ≡ c)

  add_version-AtClock :
      {Q : State → Type 0} (m : Segments) (ws : Entries) (c a v : ℕ) (s : State)
      → AtClock m ws c s
      → Ends (AtClock m ws c) Q (add_version cfg a v s)
  unfolding add_version
  add_version-AtClock m ws c a v s h = elim (Bool-cases cfg.cache) [
    | inl e ↦ rw e (returns h)
    | inr e ↦ rw e (returns h)
  ]

  put_versions-AtClock :
      {Q : State → Type 0} (v : ℕ) (es : Entries) (m : Segments) (ws : Entries) (c : ℕ) (s : State)
      → AtClock m ws c s
      → Ends (AtClock (put_locks cfg.mgr v es m) ws c) Q (put_versions cfg v es s)
  unfolding put_versions
  put_versions-AtClock v [] m ws c s h = returns h
  put_versions-AtClock v ((b, e) ∷ es) m ws c s h =
      let m' = store m (node_from_address b) (addr_from_address (object_lock_addr cfg.mgr b)) v in
      Ends-bind
        (add_version-AtClock m' ws c b v _ (
          (
            cfg.gasnet.put_law _ _ _ _ _
                ∙ ap
                    (λ (m : Segments).
                      store m (node_from_address b) (addr_from_address (object_lock_addr cfg.mgr b))
                        v)
                    (quiet _ _ ∙ h.0.0),
            h.0.1,
          ),
          h.1,
        ))
        λ _ s' h'. put_versions-AtClock v es m' ws c s' h'

  -- The new clock is the one it leaves.
  next_clock_is :
      (fuel clock now : ℕ) (r : Clock.Ticked ℕ)
      → Clock.get_next_clock cfg.gasnet cfg.env_clock fuel clock now ≡ some r
      → r.result ≡ r.clock
  unfolding Clock.get_next_clock
  next_clock_is zero clock now r e = cc
  next_clock_is (suc fuel) clock now r e =
      let cur = cfg.env_clock now clock in
      let seen = cfg.env_clock (now + 1) cur in
      let law = cfg.gasnet.cas_law seen cur ((cur + 1) % 2 ^ 64) in
      elim (Bool-cases (seen == cur)) [
        | inl same ↦
            let ticked = some-result _ r (rw (law, same) at e) in
            ap (λ (t : Clock.Ticked ℕ). t.result) (sym ticked)
            ∙ ap (λ (t : Clock.Ticked ℕ). t.clock) ticked
        | inr other ↦ next_clock_is fuel seen (now + 2) r (rw (law, other) at e)
      ]

  get_next_clock-Gives :
      {Q : State → Type 0} (m : Segments) (ws : Entries) (s : State)
      → At m ws s
      → Gives (λ c s'. AtClock m ws c s') Q (get_next_clock cfg s)
  unfolding get_next_clock
  get_next_clock-Gives {Q} m ws s h =
      ticked (Clock.get_next_clock cfg.gasnet cfg.env_clock cfg.rounds s.world.clock s.world.now)
        refl
    where
      ticked :
          (o : Option (Clock.Ticked ℕ))
          → Clock.get_next_clock cfg.gasnet cfg.env_clock cfg.rounds s.world.clock s.world.now ≡ o
          → Gives (λ c s'. AtClock m ws c s') Q (get_next_clock cfg s)
      ticked none e = rw (e, get_next_clock) starves
      ticked (some r) e =
          let same = next_clock_is cfg.rounds s.world.clock s.world.now r e in
          rw (e, get_next_clock) (gives (h, sym same))

  release-Ends :
      {Q : State → Type 0} (m : Segments) (ws : Entries) (s : State)
      → At m ws s
      → Ends
          (λ s'.
            s'.world.seg ≡ put_locks cfg.mgr (new_version cfg.gasnet.mynode s'.world.clock) ws m)
          Q
          (release_locks_with_new_clock cfg s)
  unfolding release_locks_with_new_clock
  release-Ends m ws s h = Gives-then (get_next_clock-Gives m ws s h) λ c s2 h2.
      Ends-weaken
        (λ s' (at, clock).
          at.0
          ∙ ap (λ (es : Entries). put_locks cfg.mgr (new_version cfg.gasnet.mynode c) es m) h2.0.1
          ∙ ap (λ (k : ℕ). put_locks cfg.mgr (new_version cfg.gasnet.mynode k) ws m) (sym clock))
        (put_versions-AtClock (new_version cfg.gasnet.mynode c) s2.tx.write_set m ws c s2 h2)

  -- The objects of the write set are put, and then one new version at each of their locks.
  abbrev pub Published : Segments → Entries → State → Type 0
  Published m ws s =
      s.world.seg
      ≡ put_locks cfg.mgr (new_version cfg.gasnet.mynode s.world.clock) ws (put_cells ws m)

  pub publish-Ends :
      {Q : State → Type 0} (m : Segments) (ws : Entries) (s : State)
      → At m ws s
      → Ends (Published m ws) Q (publish cfg s)
  unfolding publish
  publish-Ends m ws s h = Ends-bind (put_values-At s.tx.write_set m ws s h) λ _ s1 h1.
      Ends-bind (release-Ends _ ws s1 h1) λ _ s4 h4. returns (
        h4
        ∙ ap
            (λ (es : Entries).
              put_locks cfg.mgr (new_version cfg.gasnet.mynode s4.world.clock) ws (put_cells es m))
            h.1)

  finish-Ends :
      (m : Segments) (ws : Entries) (s : State)
      → At m ws s
      → Ends (Published m ws) Anything (finish cfg s)
  unfolding finish reject abort
  finish-Ends m ws s h = Ends-bind (validate_all-Ends cfg (At-Stable m ws) s h) λ good s1 h1.
      Ends-if good (publish cfg) (reject cfg) s1 (publish-Ends m ws s1 h1) (
        Ends-bind
          (any-Ends (
            (if is_empty cfg s1.tx.write_set then pure tt else release_locks cfg s1.tx.write_set)
              s1))
          λ _ s2 h2. leaves tt)

-- A commit that holds its locks, of a write set of objects without repetition, in a memory that
-- `init` laid out and others leave alone: if it returns, every object of the system has the contents of its entry in the
-- write set, or its old contents where it has none, and the lock words of all written objects are one
-- new version, of this node and the clock that the commit leaves.
pub finish_writes :
    (cfg : Config) (segs : List ℕ) (me : ℕ) (m0 : Segments) (s s' : State) (r : Bool)
    → ((t : ℕ) (m : Segments) → cfg.env t m ≡ m)
    → cfg.mgr ≡ (MemMgr.init segs me m0).0
    → All (λ (p : ℕ × Entry). IsObject segs p.0) s.tx.write_set
    → Distinct s.tx.write_set
    → finish cfg s ≡ ok r s'
    → ((b o : ℕ)
        → IsObject segs b
        → o < 2 ^ cdu_size
        → s'.world.seg (node_from_address b) (addr_from_address b + o)
          ≡ word_of
              (find b s.tx.write_set)
              o
              (s.world.seg (node_from_address b) (addr_from_address b + o)))
      × ((b : ℕ) (e : Entry)
          → find b s.tx.write_set ≡ some e
          → s'.world.seg (node_from_address b) (addr_from_address (object_lock_addr cfg.mgr b))
            ≡ new_version cfg.gasnet.mynode s'.world.clock)
finish_writes cfg segs me m0 s s' r quiet built all distinct h =
    let after = Ends-ok (finish-Ends cfg quiet s.world.seg s.tx.write_set s (refl, refl)) h in
    (
      λ b o ib lt. rw after (
          put_locks_cell segs cfg.mgr me m0 built s.tx.write_set b o
            (new_version cfg.gasnet.mynode s'.world.clock) _ all ib
          ∙ put_cells_lem segs s.tx.write_set b o s.world.seg all distinct ib lt),
      λ b e found. rw after (
          put_locks_lem cfg.mgr s.tx.write_set b (new_version cfg.gasnet.mynode s'.world.clock) e _
            found),
    )
