-- ===== src/Tx/Access.antt =====
-- `begin`, `read<uint64_t>` and `write<uint64_t>`.
use dstm_p.Common.{
  ℕ, ◌-◌, ◌*◌, ◌/◌, ◌^◌, Bool, true, Option, none, some, [], ◌==◌, bit_or, if◌then◌else◌, find,
  insert, erase,
}
use dstm_p.Timestamp.{version_ts, is_locked, addr_from_address}
use dstm_p.Network.{Block}
use dstm_p.MemMgr.{cdu_size, object_lock_addr}
use dstm_p.Cache.{CellRead}
use dstm_p.Stats.{
  abort_invalid_memory_r, abort_invalid_memory_w, abort_wr_conflict, abort_readset_val,
}
use dstm_p.Tx.State.{
  tx_active, Entry, Entries, Config, Cmd, pure, ◌>>=◌, ◌>>◌, this, update, abort, add_version,
  increase_clock, read_cell,
}
use dstm_p.Tx.Validate.{validate}

-- The address of an object: the low bits cleared, the node kept.
abbrev pub block_lb : ℕ → ℕ
block_lb addr = addr / 2 ^ cdu_size * 2 ^ cdu_size

-- `begin`
unfoldable pub begin : Cmd Bool
begin = do
  update λ t. record t { status = tx_active; rl_changed_objects = []; vc = λ n. 0 }
  pure true

-- The word at an address, in the copy of its object, and the copy after a write of it.
abbrev pub word_at : ℕ → Block → ℕ
word_at addr cell = cell (addr_from_address (addr - block_lb addr))

abbrev pub set_word : ℕ → ℕ → Entry → Entry
set_word addr value e = record e {
  cell = λ o. if o == addr_from_address (addr - block_lb addr) then value else e.cell o;
}

-- The write set with a word of an entry changed.
abbrev pub stored : ℕ → ℕ → Option Entry → Entries → Entries
stored addr value none ws = ws
stored addr value (some e) ws = insert (block_lb addr) (set_word addr value e) ws

-- `*((T*)(write_set[block_lb] + ...)) = value`
unfoldable pub store_word : ℕ → ℕ → Cmd (Unit {0})
store_word addr value =
    update
      λ t. record t { write_set = stored addr value (find (block_lb addr) t.write_set) t.write_set }

module _ (cfg : Config) where
  -- The malloc'ed entry after `readCell`: what it copied, or what was there.
  abbrev pub filled : CellRead → Entry
  filled r = elim r.copied [ none ↦ cfg.fresh | some cell ↦ record { ts = r.version; cell = cell } ]

  unfoldable pub accept_unlocked : ℕ → Cmd (Unit {0})
  accept_unlocked timestamp = do
    increase_clock cfg (version_ts timestamp)
    good ← validate cfg timestamp
    if good then pure tt else abort (bit_or abort_wr_conflict abort_readset_val)

  -- What follows a `readCell` in `read` and in `write`: the version goes to the cache, a locked object
  -- aborts, the clock catches up, and the sets are validated against the version.
  unfoldable pub accept : ℕ → ℕ → Cmd (Unit {0})
  unfolding accept_unlocked
  accept block timestamp = do
    add_version cfg block timestamp
    if is_locked timestamp then abort timestamp else accept_unlocked timestamp

  -- The first read of an object.
  unfoldable pub read_new : ℕ → Cmd ℕ
  unfolding accept
  read_new addr = do
    update λ t. record t { read_set = insert (block_lb addr) cfg.fresh t.read_set }
    r ← read_cell cfg addr (object_lock_addr cfg.mgr addr)
    update λ t. record t { read_set = insert (block_lb addr) (filled r) t.read_set }
    accept (block_lb addr) r.version
    pure r.value

  -- `read`, given what the write set and the read set hold of the object.
  unfoldable pub read_from : ℕ → Option Entry → Option Entry → Cmd ℕ
  unfolding read_new
  read_from addr (some e) r = pure (word_at addr e.cell)
  read_from addr none (some e) = pure (word_at addr e.cell)
  read_from addr none none = read_new addr

  unfoldable pub read_valid : ℕ → Cmd ℕ
  unfolding read_from
  read_valid addr = do
    t ← this
    read_from addr (find (block_lb addr) t.write_set) (find (block_lb addr) t.read_set)

  unfoldable pub read : ℕ → Cmd ℕ
  unfolding read_valid
  read addr = if addr == 0 then abort abort_invalid_memory_r else read_valid addr

  -- The entry of a first write, read from memory or taken over from the read set.
  unfoldable pub enter : ℕ → Option Entry → Cmd (Unit {0})
  unfolding accept
  enter addr none = do
    r ← read_cell cfg addr (object_lock_addr cfg.mgr addr)
    update λ t. record t { write_set = insert (block_lb addr) (filled r) t.write_set }
    accept (block_lb addr) r.version
  enter addr (some e) = update λ t. record t {
    write_set = insert (block_lb addr) e t.write_set;
    read_set = erase (block_lb addr) t.read_set;
  }

  -- The first write of an object.
  unfoldable pub write_new : ℕ → Cmd (Unit {0})
  unfolding enter
  write_new addr = do
    update λ t. record t { write_set = insert (block_lb addr) cfg.fresh t.write_set }
    t ← this
    enter addr (find (block_lb addr) t.read_set)

  -- `write`, given what the write set holds of the object.
  unfoldable pub write_to : ℕ → ℕ → Option Entry → Cmd (Unit {0})
  unfolding write_new store_word
  write_to addr value (some e) = store_word addr value
  write_to addr value none = do write_new addr; store_word addr value

  unfoldable pub write_valid : ℕ → ℕ → Cmd (Unit {0})
  unfolding write_to
  write_valid addr value = do t ← this; write_to addr value (find (block_lb addr) t.write_set)

  unfoldable pub write : ℕ → ℕ → Cmd (Unit {0})
  unfolding write_valid
  write addr value = if addr == 0 then abort abort_invalid_memory_w else write_valid addr value
