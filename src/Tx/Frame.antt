-- ===== src/Tx/Frame.antt =====
-- What the commands of a transaction leave alone.
use dstm_p.Common.{
  ℕ, ◌+◌, ◌-◌, ◌≡◌, refl, subst, inl, inr, Bool, true, false, ◌||◌, Option, none, some, [], ◌∷◌,
  if◌then◌else◌, Bool-cases, ltb, ◌==◌,
}
use dstm_p.Timestamp.{node_ts, version_ts, is_locked, is_timestamp_greater}
use dstm_p.Network.{Segments}
use dstm_p.Clock
use dstm_p.Cache
use dstm_p.MemMgr.{object_lock_addr}
use dstm_p.Tx.State.{
  tx_aborted, Entries, Tx, Config, State, Run, ok, pure, aborted, out_of_rounds, Cmd, and_then, met,
  abort, get_version, add_version, get_cached, increase_clock, get_next_clock, read_cell,
}
use dstm_p.Tx.Validate.{
  outdated, is_current, check_cached, check_entry, validate_set, validate_sets, validate,
  validate_entries, validate_all,
}
use dstm_p.Stats.{TransactionStats, count_abort}

-- If the command returns, its state satisfies `P`; if it aborts, `Q`.
pub data Ends {A : Type 0} (P Q : State → Type 0) : Run A → Type 0 where
  returns : {a : A} {s : State} → P s → Ends P Q (ok a s)
  leaves : {r : ℕ} {s : State} → Q s → Ends P Q (aborted r s)
  stops : Ends P Q out_of_rounds

pub Ends-bind :
    {A B : Type 0} {P R Q : State → Type 0} {r : Run A} {k : A → Cmd B}
    → Ends P Q r
    → ((a : A) (s : State) → P s → Ends R Q (k a s))
    → Ends R Q (and_then r k)
Ends-bind (returns p) next = next _ _ p
Ends-bind (leaves p) next = leaves p
Ends-bind stops next = stops

ok-state : {A : Type 0} {a b : A} {s t : State} → ok a s ≡ ok b t → s ≡ t
ok-state h = cc

-- What holds after a command that may return, holds after one that does.
pub Ends-ok :
    {A : Type 0} {P Q : State → Type 0} {r : Run A} {a : A} {s : State}
    → Ends P Q r
    → r ≡ ok a s
    → P s
Ends-ok {P} (returns p) e = subst P (ok-state e) p
Ends-ok (leaves p) e = cc
Ends-ok stops e = cc

pub Ends-if :
    {A : Type 0} {P Q : State → Type 0} (b : Bool) (m n : Cmd A) (s : State)
    → Ends P Q (m s)
    → Ends P Q (n s)
    → Ends P Q ((if b then m else n) s)
Ends-if true m n s h k = h
Ends-if false m n s h k = k

-- `P` says nothing of the clock, the cached versions, the numbers of accesses and VC, and holds of any
-- memory that others make of one for which it holds.
pub record Stable (cfg : Config) (P : State → Type 0) : Type 0 where
  pub moved :
      (s : State) (k n : ℕ)
      → P s
      → P (record s { world = record (s.world) { seg = met cfg s.world k; now = n } })
  pub cached :
      (s : State) (vs : Cache.Versions)
      → P s
      → P (record s { world = record (s.world) { versions = vs } })
  pub clocked :
      (s : State) (c n : ℕ) → P s → P (record s { world = record (s.world) { clock = c; now = n } })
  pub validated : (s : State) (f : ℕ → ℕ) → P s → P (record s { tx = record (s.tx) { vc = f } })

-- An abort leads from `P` to `Q`.
abbrev pub Gone : (P Q : State → Type 0) → Type 0
Gone P Q =
    (s : State) (c : TransactionStats)
    → P s
    → Q (record s {
      tx = record (s.tx) { stats = c; write_set = []; read_set = []; status = tx_aborted };
    })

pub abort-Ends :
    {A : Type 0} {P R Q : State → Type 0} (gone : Gone P Q) (r : ℕ) (s : State)
    → P s
    → Ends R Q (abort {A = A} r s)
unfolding abort
abort-Ends gone r s h = leaves (gone s (count_abort r s.tx.stats) h)

module _ (cfg : Config) {P Q : State → Type 0} (st : Stable cfg P) where
  pub get_version-Ends : (a : ℕ) (s : State) → P s → Ends P Q (get_version cfg a s)
  unfolding get_version
  get_version-Ends a s h = returns (st.moved s 0 (s.world.now + 1) h)

  pub add_version-Ends : (a v : ℕ) (s : State) → P s → Ends P Q (add_version cfg a v s)
  unfolding add_version
  add_version-Ends a v s h = elim (Bool-cases cfg.cache) [
    | inl e ↦ rw e (returns (st.cached s _ h))
    | inr e ↦ rw e (returns h)
  ]

  pub get_cached-Ends : (a : ℕ) (s : State) → P s → Ends P Q (get_cached cfg a s)
  unfolding get_cached
  get_cached-Ends a s h = returns (st.cached s _ h)

  pub increase_clock-Ends : (v : ℕ) (s : State) → P s → Ends P Q (increase_clock cfg v s)
  unfolding increase_clock
  increase_clock-Ends v s h =
      go (Clock.increase_clock cfg.gasnet cfg.env_clock (v + 1) 0 v s.world.clock s.world.now) refl
    where
      go :
          (o : Option (Clock.Ticked Bool))
          → Clock.increase_clock cfg.gasnet cfg.env_clock (v + 1) 0 v s.world.clock s.world.now ≡ o
          → Ends P Q (increase_clock cfg v s)
      go none e = rw (e, increase_clock) stops
      go (some r) e = rw (e, increase_clock) (returns (st.clocked s r.clock r.now h))

  pub get_next_clock-Ends : (s : State) → P s → Ends P Q (get_next_clock cfg s)
  unfolding get_next_clock
  get_next_clock-Ends s h =
      go (Clock.get_next_clock cfg.gasnet cfg.env_clock cfg.rounds s.world.clock s.world.now) refl
    where
      go :
          (o : Option (Clock.Ticked ℕ))
          → Clock.get_next_clock cfg.gasnet cfg.env_clock cfg.rounds s.world.clock s.world.now ≡ o
          → Ends P Q (get_next_clock cfg s)
      go none e = rw (e, get_next_clock) stops
      go (some r) e = rw (e, get_next_clock) (returns (st.clocked s r.clock r.now h))

  outdated-Ends : (a v : ℕ) (s : State) → P s → Ends P Q (outdated cfg a v s)
  unfolding outdated
  outdated-Ends a v s h = Ends-bind (add_version-Ends a v s h) (λ _ s' h'. returns h')

  is_current-Ends : (a v : ℕ) (s : State) → P s → Ends P Q (is_current cfg a v s)
  unfolding is_current
  is_current-Ends a v s h =
      Ends-bind (get_version-Ends (object_lock_addr cfg.mgr a) s h) (λ c s' h'.
        Ends-if (is_locked c || is_timestamp_greater c v) (outdated cfg a c) (pure true) s'
          (outdated-Ends a c s' h') (returns h'))

  check_cached-Ends : (a v : ℕ) (s : State) → P s → Ends P Q (check_cached cfg a v s)
  unfolding check_cached
  check_cached-Ends a v s h = Ends-bind (get_cached-Ends a s h) (λ c s' h'.
      Ends-if (is_locked c || is_timestamp_greater c v) (pure false) (is_current cfg a v) s'
        (returns h') (is_current-Ends a v s' h'))

  check_entry-Ends : (a v : ℕ) (s : State) → P s → Ends P Q (check_entry cfg a v s)
  unfolding check_entry
  check_entry-Ends a v s h =
      Ends-if cfg.cache (check_cached cfg a v) (is_current cfg a v) s (check_cached-Ends a v s h)
        (is_current-Ends a v s h)

  validate_set-Ends : (es : Entries) (v : ℕ) (s : State) → P s → Ends P Q (validate_set cfg v es s)
  unfolding validate_set
  validate_set-Ends [] v s h = returns h
  validate_set-Ends ((b, e) ∷ es) v s h =
      Ends-bind
        (Ends-if (is_timestamp_greater v e.ts) (check_entry cfg b e.ts) (pure true) s
          (check_entry-Ends b e.ts s h) (returns h))
        (λ c s' h'.
          Ends-if c (validate_set cfg v es) (pure false) s' (validate_set-Ends es v s' h')
            (returns h'))

  validate_entries-Ends : (es : Entries) (s : State) → P s → Ends P Q (validate_entries cfg es s)
  unfolding validate_entries
  validate_entries-Ends [] s h = returns h
  validate_entries-Ends ((b, e) ∷ es) s h = Ends-bind (check_entry-Ends b e.ts s h) (λ c s' h'.
      Ends-if c (validate_entries cfg es) (pure false) s' (validate_entries-Ends es s' h')
        (returns h'))

  pub validate_all-Ends : (s : State) → P s → Ends P Q (validate_all cfg s)
  unfolding validate_all
  validate_all-Ends s h = validate_entries-Ends s.tx.read_set s h

  validate_sets-Ends : (v : ℕ) (t : Tx) (s : State) → P s → Ends P Q (validate_sets cfg v t s)
  unfolding validate_sets
  validate_sets-Ends v t s h = Ends-bind (validate_set-Ends t.read_set v s h) λ c s1 h1.
      Ends-bind
        (Ends-if c (validate_set cfg v t.write_set) (pure false) s1
          (validate_set-Ends t.write_set v s1 h1) (returns h1))
        λ d s2 h2.
          elim d
            as (λ (b : Bool). Ends P Q (
              ok b (record s2 {
                tx =
                    if b
                    then record (s2.tx) {
                      vc = λ n. if n == node_ts v then version_ts v else (s2.tx).vc n;
                    }
                    else s2.tx;
              }))) [ true ↦ returns (st.validated s2 _ h2) | false ↦ returns h2 ]

  pub validate-Ends : (v : ℕ) (s : State) → P s → Ends P Q (validate cfg v s)
  unfolding validate
  validate-Ends v s h =
      Ends-if (ltb (s.tx.vc (node_ts v)) (version_ts v)) (validate_sets cfg v s.tx) (pure true) s
        (validate_sets-Ends v s.tx s h) (returns h)

  pub read_cell-Ends : (a l : ℕ) (s : State) → P s → Ends P Q (read_cell cfg a l s)
  unfolding read_cell
  read_cell-Ends a l s h = go (Cache.read_cell cfg.gasnet hist cfg.rounds s.world.now a l true) refl
    where
      hist : ℕ → Segments
      hist t = met cfg s.world (t - s.world.now)

      go :
          (o : Option Cache.CellRead)
          → Cache.read_cell cfg.gasnet hist cfg.rounds s.world.now a l true ≡ o
          → Ends P Q (read_cell cfg a l s)
      go none e = rw (e, read_cell) stops
      go (some r) e = rw (e, read_cell) (returns (st.moved s _ _ h))
