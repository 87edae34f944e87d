-- ===== src/LocksCache.antt =====
-- src/dstm_lib_p1/dstm_locks_cache.cpp: lines of remote lock words, kept for one validation (the build
-- with VARIANT3).
pub mod Lookup
mod Tests
use dstm_p.Common.{
  ℕ, ◌+◌, ◌-◌, ◌*◌, ◌/◌, ◌^◌, Option, none, some, List, ◌==◌, if◌then◌else◌, find, insert, bit_or,
}
use dstm_p.Timestamp.{node_from_address, addr_from_address}
use dstm_p.Network.{Segments, Block, Gasnet}

-- DSTMLocksCache
pub record LocksCache : Type 0 where
  pub cl_pow : ℕ
  pub i_map : List (ℕ × Block)

-- The local address of the line of an address.
abbrev pub line : ℕ → ℕ → ℕ
line cl_pow addr = addr_from_address addr / 2 ^ cl_pow * 2 ^ cl_pow

module _ (g : Gasnet) where
  -- `get`, where the line is not in the map: it is fetched and kept.
  unfoldable pub fill : Segments → ℕ → LocksCache → ℕ × LocksCache
  fill s addr c =
      let low = line c.cl_pow addr in
      let node = node_from_address addr in
      let new_cl = g.get s node low (2 ^ c.cl_pow) in
      (
        new_cl (addr_from_address addr - low),
        record c { i_map = insert (bit_or low (node * 2 ^ 48)) new_cl c.i_map },
      )

  unfoldable pub get_line : Option Block → Segments → ℕ → LocksCache → ℕ × LocksCache
  unfolding fill
  get_line none s addr c = fill s addr c
  get_line (some cl) s addr c = (cl (addr_from_address addr - line c.cl_pow addr), c)

  -- `get`
  unfoldable pub get : Segments → ℕ → LocksCache → ℕ × LocksCache
  unfolding get_line
  get s addr c =
      if node_from_address addr == g.mynode
      then (s g.mynode (addr_from_address addr), c)
      else get_line (find (line c.cl_pow addr) c.i_map) s addr c
