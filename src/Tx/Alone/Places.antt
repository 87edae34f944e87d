-- ===== src/Tx/Alone/Places.antt =====
-- Objects in the requests that `getLocks` puts together.
use dstm_p.Common.{
  ℕ, ◌+◌, ◌*◌, ◌<◌, ◌≡◌, refl, sym, false, ◌&&◌, List, ◌==◌, if◌then◌else◌, length, set, arith,
  Bool-cases, inl, inr, All,
}
use dstm_p.Timestamp.{node_from_address, addr_from_address}
use dstm_p.Network.{Segments}
use dstm_p.MemMgr
use dstm_p.MemMgr.{MemMgr, cdu_size, object_lock_addr, object_lock_addr_at, objects_base}
use dstm_p.MemMgr.Layout.{lock_addr_split, lock_at}
use dstm_p.Tx.State.{Entry, Entries, Config}
use dstm_p.Tx.Commit.{max_requested, Requests, add_object}
use dstm_p.Tx.Placed.{IsObject}
use dstm_p.Tx.Requests.{length-set, get_or-set, IsObject-IsTarget}
use dstm_p.Tx.Alone.{lock_of}
use dstm_p.Tx.Alone.Grants.{slot, version_at, count, IsPlace, IsReady}

-- The request does not ask for the object.
abbrev pub Lacks : ℕ → ℕ × List ℕ → Type 0
Lacks b (node, array) =
    (i : ℕ)
    → i < count array
    → (node == node_from_address b && slot array i == addr_from_address b) ≡ false

abbrev pub AllLack : Entries → Requests → Type 0
AllLack es rs = All (λ (p : ℕ × Entry). All (Lacks p.0) rs) es

-- The array has its full length, and room for one more object.
abbrev pub Room : List ℕ → Type 0
Room array = (length array ≡ 2 * max_requested + 2) × (count array < max_requested)

module _ (cfg : Config) (segs : List ℕ) (me : ℕ) (m0 : Segments)
    (built : cfg.mgr ≡ (MemMgr.init segs me m0).0) (m : Segments) where
  -- An object as a place of a request to its node.
  pub place_of :
      (b : ℕ)
      → IsObject segs b
      → IsPlace segs (node_from_address b) (addr_from_address b)
        × (object_lock_addr_at cfg.mgr (addr_from_address b) (node_from_address b)
            ≡ addr_from_address (object_lock_addr cfg.mgr b))
  place_of b ib =
      let n = node_from_address b in
      let it = IsObject-IsTarget segs b ib in
      (
        record { target = it; small = omega arith; aligned = ib.aligned },
        rw built (
            omega (
              arith,
              lock_at segs me m0 n ib.known (addr_from_address b) ib.low it.above,
              lock_at segs me m0 n ib.known b ib.low ib.above,
              lock_addr_split segs me m0 n ib.known b refl ib.low ib.above ib.below,
            )),
      )

  -- What `add_object` writes.
  pub add_object-at :
      (b ts : ℕ) (array : List ℕ)
      → Room array
      → (length (add_object cfg b ts array) ≡ 2 * max_requested + 2)
        × (count (add_object cfg b ts array) ≡ count array + 1)
        × ((i : ℕ)
            → i < count array + 1
            → (slot (add_object cfg b ts array) i
                ≡ (if i == count array then addr_from_address b else slot array i))
              × (version_at (add_object cfg b ts array) i
                  ≡ (if i == count array then ts else version_at array i)))
  unfolding add_object
  add_object-at b ts array (len, few) =
      let k = count array in
      let a1 = set array (k + 2) (addr_from_address b) in
      let a2 = set a1 (k + max_requested + 2) ts in
      let len1 = length-set array (k + 2) (addr_from_address b) in
      let len2 = length-set a1 (k + max_requested + 2) ts in
      (
        omega (arith, length-set a2 1 (k + 1)),
        ground (arith, len1, len2, get_or-set a2 1 1 (k + 1) 0),
        λ i lt. (
          ground (
            arith,
            len1,
            get_or-set a2 1 (i + 2) (k + 1) 0,
            get_or-set a1 (k + max_requested + 2) (i + 2) ts 0,
            get_or-set array (k + 2) (i + 2) (addr_from_address b) 0,
          ),
          ground (
            arith,
            len1,
            get_or-set a2 1 (i + max_requested + 2) (k + 1) 0,
            get_or-set a1 (k + max_requested + 2) (i + max_requested + 2) ts 0,
            get_or-set array (k + 2) (i + max_requested + 2) (addr_from_address b) 0,
          ),
        ),
      )

  pub add_object-Ready :
      (b ts : ℕ) (array : List ℕ)
      → IsObject segs b
      → ts ≡ lock_of cfg.mgr m b
      → Room array
      → IsReady segs cfg.mgr m (node_from_address b) array
      → Lacks b (node_from_address b, array)
      → IsReady segs cfg.mgr m (node_from_address b) (add_object cfg b ts array)
  add_object-Ready b ts array ib same room ready lacks =
      let (len, counted, at) = add_object-at b ts array room in
      let (place, lock) = place_of b ib in
      record {
        places = λ i lt. elim (Bool-cases (i == count array)) [
          | inl e ↦ rw ((at i (omega arith)).0, e) place
          | inr e ↦ rw ((at i (omega arith)).0, e) (ready.places i (ground (arith, counted)))
        ];
        words = λ i lt. elim (Bool-cases (i == count array)) [
          | inl e ↦ rw ((at i (omega arith)).0, (at i (omega arith)).1, e) (rw lock (sym same))
          | inr e ↦
              rw ((at i (omega arith)).0, (at i (omega arith)).1, e)
                (ready.words i (ground (arith, counted)))
        ];
        unique = λ i j lt lt2.
            let at_i = (at i (omega arith)).0 in
            let at_j = (at j (omega arith)).0 in
            elim (Bool-cases (j == count array)) [
              | inl e ↦ ground (arith, at_i, at_j, lacks i (ground arith))
              | inr e ↦ ground (arith, at_i, at_j, ready.unique i j lt (ground (arith, counted)))
            ];
      }

  pub add_object-Lacks :
      (b ts c : ℕ) (array : List ℕ)
      → IsObject segs b
      → IsObject segs c
      → (b == c) ≡ false
      → Room array
      → Lacks c (node_from_address b, array)
      → Lacks c (node_from_address b, add_object cfg b ts array)
  add_object-Lacks b ts c array ib ic other room lacks i lt =
      let (len, counted, at) = add_object-at b ts array room in
      elim (Bool-cases (i == count array)) [
        | inl e ↦ ground (arith, (at i (omega arith)).0, ib.unlocked, ic.unlocked)
        | inr e ↦ ground (arith, (at i (omega arith)).0, lacks i (ground (arith, counted)))
      ]
