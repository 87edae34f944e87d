-- ===== src/LocksCache/Lookup.antt =====
-- What the cache of lock lines finds.
use dstm_p.Common.{
  ℕ, ◌+◌, ◌*◌, ◌^◌, ◌<◌, ◌≡◌, ◌≢◌, none, find, find-insert, arith, bit_or, bit_or-disjoint,
}
use native.Mathlib.Nat.{div-add-mod'}
use dstm_p.Timestamp.{node_from_address, addr_from_address}
use dstm_p.Network.{Segments, Gasnet}
use dstm_p.LocksCache.{LocksCache, line, fill, get_line, get}

line-lt : (cl_pow addr : ℕ) → line cl_pow addr < 2 ^ 48
line-lt cl_pow addr = omega (arith, div-add-mod' (addr_from_address addr) (2 ^ cl_pow))

-- The key under which a line of a node is kept.
key-eq :
    (cl_pow addr : ℕ)
    → bit_or (line cl_pow addr) (node_from_address addr * 2 ^ 48)
      ≡ line cl_pow addr + node_from_address addr * 2 ^ 48
key-eq cl_pow addr = bit_or-disjoint 48 _ _ (line-lt cl_pow addr)

module _ (g : Gasnet) where
  -- A line of a node other than 0 and this one, not in the map before, is not found again: it is kept under its address with the node,
  -- and looked up under its address alone. So the second read of an address goes to the network and
  -- sees memory as it then is.
  pub get_again :
      (s s' : Segments) (addr : ℕ) (c : LocksCache)
      → node_from_address addr ≢ 0
      → node_from_address addr ≢ g.mynode
      → find (line c.cl_pow addr) c.i_map ≡ none
      → (get g s' addr (get g s addr c).1).0 ≡ (fill g s' addr c).0
  unfolding get get_line fill
  get_again s s' addr c remote other new =
      let low = line c.cl_pow addr in
      let node = node_from_address addr in
      let kept = g.get s node low (2 ^ c.cl_pow) in
      ground (
        arith,
        line-lt c.cl_pow addr,
        key-eq c.cl_pow addr,
        find-insert (bit_or low (node * 2 ^ 48)) low kept c.i_map,
      )

  -- A line of node 0, not in the map before, is found for every node: once it is kept, a read of the same local address of
  -- another remote node gives the lock word of node 0.
  pub get_other_node :
      (s s' : Segments) (addr other : ℕ) (c : LocksCache)
      → node_from_address addr ≡ 0
      → addr_from_address other ≡ addr_from_address addr
      → node_from_address addr ≢ g.mynode
      → node_from_address other ≢ g.mynode
      → find (line c.cl_pow addr) c.i_map ≡ none
      → (get g s' other (get g s addr c).1).0 ≡ (get g s addr c).0
  unfolding get get_line fill
  get_other_node s s' addr other c zero_node same remote remote' new =
      let low = line c.cl_pow addr in
      let node = node_from_address addr in
      let kept = g.get s node low (2 ^ c.cl_pow) in
      rw same (
        ground (
          arith,
          line-lt c.cl_pow addr,
          key-eq c.cl_pow addr,
          find-insert (bit_or low (node * 2 ^ 48)) low kept c.i_map,
        ))
