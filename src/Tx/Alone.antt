-- ===== src/Tx/Alone.antt =====
-- A transaction that no other thread or node disturbs, while no lock is held.
pub mod Looks
pub mod Accept
pub mod Access
pub mod Grants
pub mod Places
pub mod Collects
pub mod Commit
use dstm_p.Common.{
  subst, ℕ, zero, suc, ◌+◌, ◌-◌, ◌*◌, ◌/◌, ◌%◌, ◌^◌, ◌≤◌, ◌<◌, ◌≡◌, refl, sym, ◌∙◌, ap, Bool, true,
  false, ◌||◌, ◌⊎◌, Option, none, some, List, [], ◌∷◌, ltb, ◌==◌, if◌then◌else◌, length, get_or,
  arith, Bool-cases, Option-cases, inl, inr, All, All-insert, All-find, All-erase, find, insert,
  erase, find-insert, find-insert_self, is_some,
}
use dstm_p.Timestamp.{
  node_from_address, addr_from_address, is_locked, version_ts, node_ts, is_timestamp_greater,
  is_timestamps_equivalent,
}
use dstm_p.Network.{Segments, Gasnet}
use dstm_p.MemMgr
use dstm_p.MemMgr.{MemMgr, cdu_size, object_lock_addr, object_lock_addr_at, objects_base}
use dstm_p.MemMgr.Layout.{lock_addr_split, same_lock_iff, objects_end}
use dstm_p.Cache
use dstm_p.Cache.{
  CellRead, Versions, fetch, copy_cell, low_bound, add_version_to_cache, get_cached_version,
}
use dstm_p.Cache.ReadCell.{fetch-word}
use dstm_p.Tx.State.{
  Entry, Entries, Tx, World, Config, State, Run, ok, Cmd, pure, and_then, met, abort, read_cell,
  add_version, get_version, get_cached, increase_clock,
}
use dstm_p.Tx.Validate.{
  check_entry, check_cached, is_current, outdated, validate_set, validate_sets, validate,
}
use dstm_p.Tx.Access.{
  block_lb, filled, accept_unlocked, accept, read_new, read_from, read_valid, read, enter,
  write_new, store_word, write_to, write_valid, write, stored, set_word,
}
use dstm_p.Tx.Hidden.{met-quiet}
use dstm_p.Tx.Placed.{IsObject}
use dstm_p.Tx.Sim.{IsWord}

-- The run returns, with `P`.
pub data Succeeds {A : Type 0} (P : A → State → Type 0) : Run A → Type 0 where
  succeeds : {a : A} {s : State} → P a s → Succeeds P (ok a s)

pub Succeeds-bind :
    {A B : Type 0} {P : A → State → Type 0} {R : B → State → Type 0} {r : Run A} {k : A → Cmd B}
    → Succeeds P r
    → ((a : A) (s : State) → P a s → Succeeds R (k a s))
    → Succeeds R (and_then r k)
Succeeds-bind (succeeds p) next = next _ _ p

pub Succeeds-then :
    {A : Type 0} {P : A → State → Type 0} (b : Bool) (m n : Cmd A) (s : State)
    → b ≡ true
    → Succeeds P (m s)
    → Succeeds P ((if b then m else n) s)
Succeeds-then true m n s e h = h
Succeeds-then false m n s e h = cc

pub Succeeds-else :
    {A : Type 0} {P : A → State → Type 0} (b : Bool) (m n : Cmd A) (s : State)
    → b ≡ false
    → Succeeds P (n s)
    → Succeeds P ((if b then m else n) s)
Succeeds-else true m n s e h = cc
Succeeds-else false m n s e h = h

pub Succeeds-weaken :
    {A : Type 0} {P R : A → State → Type 0} {r : Run A}
    → ((a : A) (s : State) → P a s → R a s)
    → Succeeds P r
    → Succeeds R r
Succeeds-weaken f (succeeds p) = succeeds (f _ _ p)

-- What holds of a result that is known.
pub Succeeds-ok :
    {A : Type 0} {P : A → State → Type 0} {r : Run A} {a : A} {s : State}
    → Succeeds P r
    → r ≡ ok a s
    → P a s
Succeeds-ok {P = P} {a = a} {s = s} h e = known (subst (Succeeds P) e h)
  where
    known : Succeeds P (ok a s) → P a s
    known (succeeds p) = p

-- The lock word of an object.
abbrev pub lock_of : MemMgr → Segments → ℕ → ℕ
lock_of mgr m b = m (node_from_address b) (addr_from_address (object_lock_addr mgr b))

-- What others leave alone.
pub record IsAlone (cfg : Config) : Type 0 where
  pub quiet : (t : ℕ) (m : Segments) → cfg.env t m ≡ m
  pub calm : (t c : ℕ) → cfg.env_clock t c ≡ c
  pub still : (t : ℕ) (vs : Versions) → cfg.env_versions t vs ≡ vs
  pub some_rounds : 0 < cfg.rounds

-- The cached version of an object is unlocked, and no newer than the object.
abbrev pub Older : Config → List ℕ → Segments → Versions → Type 0
Older cfg segs m vs =
    (b : ℕ)
    → IsObject segs b
    → (is_locked (get_cached_version b vs) ≡ false)
      × (version_ts (get_cached_version b vs) ≤ version_ts (lock_of cfg.mgr m b))

-- An entry at the version of its object.
abbrev pub IsCurrent : Config → List ℕ → Segments → ℕ × Entry → Type 0
IsCurrent cfg segs m (b, e) = IsObject segs b × (e.ts ≡ lock_of cfg.mgr m b)

-- No object is in both sets.
abbrev pub Apart : Entries → Entries → Type 0
Apart rs ws = (b : ℕ) → (find b rs ≡ none) ⊎ (find b ws ≡ none)

-- Memory is `m`, and all entries and cached versions are of it.
pub record Current (cfg : Config) (segs : List ℕ) (m : Segments) (s : State) : Type 0 where
  pub memory : s.world.seg ≡ m
  pub cached : Older cfg segs m s.world.versions
  pub reads : All (IsCurrent cfg segs m) s.tx.read_set
  pub writes : All (IsCurrent cfg segs m) s.tx.write_set
  pub apart : Apart s.tx.read_set s.tx.write_set
  pub changed : s.tx.rl_changed_objects ≡ []

-- What a look at memory, the clock or the cached versions keeps.
abbrev pub Looked : Segments → State → State → Type 0
Looked m s t = (t.world.seg ≡ m) × (t.world.versions ≡ s.world.versions) × (t.tx ≡ s.tx)
