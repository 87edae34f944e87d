-- ===== src/Tx/Validate.antt =====
-- `validate` and `validateAll`.
use dstm_p.Common.{ℕ, Bool, true, false, ◌||◌, [], ◌∷◌, ltb, ◌==◌, if◌then◌else◌}
use dstm_p.Timestamp.{node_ts, version_ts, is_locked, is_timestamp_greater}
use dstm_p.MemMgr.{object_lock_addr}
use dstm_p.Tx.State.{
  Entries, Tx, Config, Cmd, pure, ◌>>=◌, ◌>>◌, this, update, get_version, add_version, get_cached,
}

module _ (cfg : Config) where
  unfoldable pub outdated : ℕ → ℕ → Cmd Bool
  outdated block ts_cur = do add_version cfg block ts_cur; pure false

  -- Whether the object of an entry is at the version of the entry, or an older one, and unlocked.
  unfoldable pub is_current : ℕ → ℕ → Cmd Bool
  unfolding object_lock_addr outdated
  is_current block ts = do
    ts_cur ← get_version cfg (object_lock_addr cfg.mgr block)
    if is_locked ts_cur || is_timestamp_greater ts_cur ts then outdated block ts_cur else pure true

  unfoldable pub check_cached : ℕ → ℕ → Cmd Bool
  unfolding is_current
  check_cached block ts = do
    ts_cached ← get_cached cfg block
    if is_locked ts_cached || is_timestamp_greater ts_cached ts
        then pure false
        else is_current block ts

  -- The body that the loops share: with CACHE the cached version is asked first.
  unfoldable pub check_entry : ℕ → ℕ → Cmd Bool
  unfolding is_current check_cached
  check_entry block ts = if cfg.cache then check_cached block ts else is_current block ts

  -- The loop of `validate` over a set: entries that are not older than `ts_new` are passed over.
  unfoldable pub validate_set : ℕ → Entries → Cmd Bool
  unfolding check_entry
  validate_set ts_new [] = pure true
  validate_set ts_new ((block, entry) ∷ es) = do
    good ← if is_timestamp_greater ts_new entry.ts then check_entry block entry.ts else pure true
    if good then validate_set ts_new es else pure false

  -- `validate`, from the test `tsn_new > tsn_old` on: the read set, the write set, and VC.
  unfoldable pub validate_sets : ℕ → Tx → Cmd Bool
  unfolding validate_set
  validate_sets ts t = do
    reads ← validate_set ts t.read_set
    writes ← if reads then validate_set ts t.write_set else pure false
    update λ t.
        if writes
        then record t { vc = λ n. if n == node_ts ts then version_ts ts else t.vc n }
        else t
    pure writes

  unfoldable pub validate : ℕ → Cmd Bool
  unfolding validate_sets
  validate ts = do
    t ← this
    if ltb (t.vc (node_ts ts)) (version_ts ts) then validate_sets ts t else pure true

  -- The loop of `validateAll`, and `validateAll`.
  unfoldable pub validate_entries : Entries → Cmd Bool
  unfolding check_entry
  validate_entries [] = pure true
  validate_entries ((block, entry) ∷ es) = do
    good ← check_entry block entry.ts
    if good then validate_entries es else pure false

  unfoldable pub validate_all : Cmd Bool
  unfolding validate_entries
  validate_all = do t ← this; validate_entries t.read_set
