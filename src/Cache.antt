-- ===== src/Cache.antt =====
-- src/dstm_cache.cpp and src/dstm_cache_impl.h: reads of an object under its version, and the table
-- of versions that the node has seen (the build with CACHE).
pub mod Snapshot
pub mod ReadCell
pub mod Table
mod Tests
use dstm_p.Common.{
  ℕ, zero, suc, ◌+◌, ◌-◌, ◌*◌, ◌/◌, ◌^◌, Bool, true, false, ◌&&◌, ◌||◌, Option, none, some, List,
  ◌==◌, if◌then◌else◌, find, insert,
}
use dstm_p.Timestamp.{
  node_from_address, addr_from_address, is_locked, is_timestamps_equivalent, is_timestamps_equal,
  is_timestamp_greater,
}
use dstm_p.Network.{Segments, Block, Gasnet}
use dstm_p.MemMgr.{cdu_size}

-- What `readCell` hands back: `*version`, its return value, and what it wrote behind `copy`. The
-- field `now` numbers the next access to memory.
pub record CellRead : Type 0 where
  pub version : ℕ
  pub value : ℕ
  pub copied : Option Block
  pub now : ℕ

-- i_map: address to version
abbrev pub Versions : Type 0
Versions = List (ℕ × ℕ)

-- The local address of the object that holds `addr`.
abbrev pub low_bound : ℕ → ℕ
low_bound addr = addr_from_address addr / 2 ^ cdu_size * 2 ^ cdu_size

module _ (g : Gasnet) where
  -- A read of `nbytes` at address `a` of a node: by a plain load on the node itself, by gasnet_get on
  -- another.
  unfoldable pub fetch : Segments → ℕ → ℕ → ℕ → Block
  fetch s node a nbytes o = if node == g.mynode then s node (a + o) else g.get s node a nbytes o

  -- `memcpy` or gasnet_get of the whole object to `copy`, a word at a time, from access `t` on.
  unfoldable pub copy_cell : (hist : ℕ → Segments) → ℕ → ℕ → Block
  unfolding fetch
  copy_cell hist t addr o =
      fetch (hist (t + o / 8)) (node_from_address addr) (low_bound addr) (2 ^ cdu_size) o

  -- One round of `readCell<uint64_t>` at access number `t`, and the rounds after it. `hist t` is the
  -- memory that access number `t` meets. The eight words of an object are copied one by one.
  unfoldable pub read_cell : (hist : ℕ → Segments) → ℕ → ℕ → ℕ → ℕ → Bool → Option CellRead
  read_cell hist zero t addr lock_addr copy = none
  read_cell hist (suc fuel) t addr lock_addr copy =
      let node = node_from_address addr in
      let version = fetch (hist t) node (addr_from_address lock_addr) 8 0 in
      let cell = copy_cell hist (t + 1) addr in
      let word = fetch (hist (t + 1)) node (addr_from_address addr) 8 0 in
      let version2 = fetch (hist (t + 9)) node (addr_from_address lock_addr) 8 0 in
      let again = read_cell hist fuel (t + 10) addr lock_addr copy in
      if is_locked version
      then some (record { version = version; value = 0; copied = none; now = t + 1 })
      else (if is_locked version2
          then some (record { version = version2; value = 0; copied = none; now = t + 10 })
          else (if is_timestamps_equivalent version version2
              then some (record {
                version = version;
                value = if copy then cell (addr_from_address addr - low_bound addr) else word;
                copied = if copy then some cell else none;
                now = t + 10;
              })
              else again))

  -- `getVersion`: the lock word at a global address.
  unfoldable pub get_version : Segments → ℕ → ℕ
  get_version s addr = g.get s (node_from_address addr) (addr_from_address addr) 8 0

-- `addVersionToCache`
unfoldable pub add_version_to_cache : ℕ → ℕ → Versions → Versions
add_version_to_cache addr version m = if is_locked version then m else elim (find addr m) [
  | some old ↦
      if is_timestamp_greater version old || (is_locked version && is_timestamps_equal version old)
      then insert addr version m
      else m
  | none ↦ insert addr version m
]

-- `getCachedVersion`
unfoldable pub get_cached_version : ℕ → Versions → ℕ
get_cached_version addr m = elim (find addr m) [ some v ↦ v | none ↦ 0 ]
