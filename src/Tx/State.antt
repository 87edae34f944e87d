-- ===== src/Tx/State.antt =====
-- The fields of a transaction, the memory, clock and cache that it shares, and commands over both.
use dstm_p.Common.{ℕ, zero, suc, ◌+◌, ◌-◌, Bool, true, none, some, List, [], if◌then◌else◌}
use dstm_p.Network.{Segments, Block, Gasnet}
use dstm_p.MemMgr.{MemMgr}
use dstm_p.Clock
use dstm_p.Cache
use dstm_p.Cache.{Versions}
use dstm_p.Stats.{TransactionStats, count_abort}

-- TX_IDLE, TX_ACTIVE, TX_COMMITTED, TX_ABORTED
pub data Status : Type 0 where
  tx_idle tx_active tx_committed tx_aborted : Status

-- A malloc'ed entry of the read or write set: the version word and the copy of the object behind it.
pub record Entry : Type 0 where
  pub ts : ℕ
  pub cell : Block

abbrev pub Entries : Type 0
Entries = List (ℕ × Entry)

-- The fields of DSTMTransaction. `vc` is the vector VC, by node.
pub record Tx : Type 0 where
  pub status : Status
  pub read_set : Entries
  pub write_set : Entries
  pub vc : ℕ → ℕ
  pub rl_nodes : ℕ
  pub rl_changed_objects : List ℕ
  pub stats : TransactionStats

-- What a transaction shares with other threads and nodes; `now` numbers the accesses to memory.
pub record World : Type 0 where
  pub seg : Segments
  pub clock : ℕ
  pub versions : Versions
  pub now : ℕ

-- How a transaction runs: GASNet, the memory manager, the flag CACHE, what malloc'ed memory holds,
-- what other threads and nodes do to memory, to the clock and to the cached versions before an
-- access, and the rounds that loops may take.
pub record Config : Type 0 where
  pub gasnet : Gasnet
  pub mgr : MemMgr
  pub cache : Bool
  pub fresh : Entry
  pub env : ℕ → Segments → Segments
  pub env_clock : ℕ → ℕ → ℕ
  pub env_versions : ℕ → Versions → Versions
  pub rounds : ℕ
  -- the address of the transaction's descriptor
  pub self : ℕ

pub record State : Type 0 where
  pub tx : Tx
  pub world : World

-- How a command ends: with a value, by `abort` with its reason, or out of rounds.
pub data Run (A : Type 0) : Type 0 where
  ok : A → State → Run A
  aborted : ℕ → State → Run A
  out_of_rounds : Run A

abbrev pub Cmd : Type 0 → Type 0
Cmd A = State → Run A

abbrev pub pure : {A : Type 0} → A → Cmd A
pure = ok

module _ {A B : Type 0} where
  abbrev pub and_then : Run A → (A → Cmd B) → Run B
  and_then (ok a s) k = k a s
  and_then (aborted r s) k = aborted r s
  and_then out_of_rounds k = out_of_rounds

  infixl 5 ◌>>=◌ ◌>>◌
  abbrev pub ◌>>=◌ : Cmd A → (A → Cmd B) → Cmd B
  m >>= k = λ s. and_then (m s) k

  abbrev pub ◌>>◌ : Cmd A → Cmd B → Cmd B
  m >> n = m >>= λ _. n

-- The fields of the transaction.
abbrev pub this : Cmd Tx
this s = ok s.tx s

abbrev pub update : (Tx → Tx) → Cmd (Unit {0})
update f s = ok tt (record s { tx = f s.tx })

-- `clearWriteSet` and `clearReadSet`; the entries are freed.
abbrev pub clear_write_set : Cmd (Unit {0})
clear_write_set = update λ t. record t { write_set = [] }

abbrev pub clear_read_set : Cmd (Unit {0})
clear_read_set = update λ t. record t { read_set = [] }

-- `abort`: it counts, clears both sets, and leaves by siglongjmp.
unfoldable pub abort : {A : Type 0} → ℕ → Cmd A
unfolding count_abort
abort reason s =
    let t = s.tx in
    aborted reason (record s {
      tx = record t {
        stats = count_abort reason t.stats;
        write_set = [];
        read_set = [];
        status = tx_aborted;
      };
    })

module _ (cfg : Config) where
  -- The memory that the `d`-th access from now meets.
  abbrev pub met : World → ℕ → Segments
  met w zero = cfg.env w.now w.seg
  met w (suc d) = cfg.env (w.now + suc d) (met w d)

  -- A gasnet_put of `nbytes` bytes, as one access to memory.
  abbrev pub put : ℕ → ℕ → Block → ℕ → Cmd (Unit {0})
  put node dst src nbytes s =
      let w = s.world in
      let seg = cfg.gasnet.put (cfg.env w.now w.seg) node dst src nbytes in
      ok tt (record s { world = record w { seg = seg; now = w.now + 1 } })

  -- One access to memory.
  abbrev pub look : Cmd Segments
  look s =
      let w = s.world in
      let seg = cfg.env w.now w.seg in
      ok seg (record s { world = record w { seg = seg; now = w.now + 1 } })

  -- `globalCache->getVersion(globalMemMgr->getObjectLockAddr(block))`
  unfoldable pub get_version : ℕ → Cmd ℕ
  unfolding Cache.get_version
  get_version lock_addr = do m ← look; pure (Cache.get_version cfg.gasnet m lock_addr)

  -- `globalCache->addVersionToCache(addr, version)` of the build with CACHE.
  unfoldable pub add_version : ℕ → ℕ → Cmd (Unit {0})
  unfolding Cache.add_version_to_cache
  add_version addr version s =
      let w = s.world in
      let versions = Cache.add_version_to_cache addr version (cfg.env_versions w.now w.versions) in
      ok tt (if cfg.cache then record s { world = record w { versions = versions } } else s)

  -- `globalCache->getCachedVersion(addr)`
  unfoldable pub get_cached : ℕ → Cmd ℕ
  unfolding Cache.get_cached_version
  get_cached addr s =
      let w = s.world in
      let versions = cfg.env_versions w.now w.versions in
      ok (Cache.get_cached_version addr versions)
        (record s { world = record w { versions = versions } })

  -- `glue::increaseClock(version)`. The rounds that the call can need are given, one more than the
  -- version.
  unfoldable pub increase_clock : ℕ → Cmd (Unit {0})
  unfolding Clock.increase_clock
  increase_clock version s =
      let w = s.world in
      elim (Clock.increase_clock cfg.gasnet cfg.env_clock (version + 1) 0 version w.clock w.now) [
        | none ↦ out_of_rounds
        | some r ↦ ok tt (record s { world = record w { clock = r.clock; now = r.now } })
      ]

  -- `glue::getNextClock()`
  unfoldable pub get_next_clock : Cmd ℕ
  unfolding Clock.get_next_clock
  get_next_clock s =
      let w = s.world in
      elim (Clock.get_next_clock cfg.gasnet cfg.env_clock cfg.rounds w.clock w.now) [
        | none ↦ out_of_rounds
        | some r ↦ ok r.result (record s { world = record w { clock = r.clock; now = r.now } })
      ]

  -- `globalCache->readCell<uint64_t>(addr, lock_addr, &timestamp, entry)`: the value, the version, and
  -- the copy, if it was written. `met` with the accesses counted from now is the history that it sees.
  unfoldable pub read_cell : ℕ → ℕ → Cmd Cache.CellRead
  unfolding Cache.read_cell
  read_cell addr lock_addr s =
      let w = s.world in
      elim (Cache.read_cell cfg.gasnet (λ t. met w (t - w.now)) cfg.rounds w.now addr lock_addr
        true) [
          | none ↦ out_of_rounds
          | some r ↦
              ok r (record s { world = record w { seg = met w (r.now - w.now - 1); now = r.now } })
        ]
