-- ===== src/Tx/Requests.antt =====
-- The requests that `getLocks` puts together: each asks its node for objects of that node.
use dstm_p.Common.{
  ℕ, zero, suc, ◌+◌, ◌*◌, ◌<◌, ◌≡◌, refl, ◌&&◌, List, [], ◌∷◌, ltb, ◌==◌, if◌then◌else◌, length,
  get_or, set, All, find, insert, All-insert, All-find, arith, Bool-cases, Option-cases, inl, inr,
}
use dstm_p.Timestamp.{node_from_address, addr_from_address}
use dstm_p.Tx.State.{Entry, Entries, Config}
use dstm_p.Tx.Commit.{max_requested, Requests, request_for, add_object, collect}
use dstm_p.Tx.Placed.{IsObject}
use dstm_p.Tx.Same.{IsTarget}

pub length-set : (xs : List ℕ) (i v : ℕ) → length (set xs i v) ≡ length xs
length-set [] i v = refl
length-set (x ∷ xs) zero v = refl
length-set (x ∷ xs) (suc i) v = omega (arith, length-set xs i v)

pub get_or-set :
    (xs : List ℕ) (i j v d : ℕ)
    → get_or (set xs i v) j d ≡ (if i == j && ltb i (length xs) then v else get_or xs j d)
get_or-set [] i j v d = ground arith
get_or-set (x ∷ xs) zero zero v d = ground arith
get_or-set (x ∷ xs) zero (suc j) v d = ground arith
get_or-set (x ∷ xs) (suc i) zero v d = ground arith
get_or-set (x ∷ xs) (suc i) (suc j) v d = ground (arith, get_or-set xs i j v d)

abbrev pub AllObjects : List ℕ → Entries → Type 0
AllObjects segs = All (λ (p : ℕ × Entry). IsObject segs p.0)

-- The first objects of a request, as many as it counts, are of the node.
abbrev pub Targets : List ℕ → ℕ × List ℕ → Type 0
Targets segs (node, array) =
    (i : ℕ) → i < get_or array 1 0 → IsTarget segs node (get_or array (i + 2) 0)

-- And there is room for one more.
abbrev Room : List ℕ → ℕ × List ℕ → Type 0
Room segs (node, array) =
    (length array ≡ 2 * max_requested + 2)
    × (get_or array 1 0 < max_requested)
    × Targets segs (node, array)

abbrev pub AllTargets : List ℕ → Requests → Type 0
AllTargets segs = All (Targets segs)

pub IsObject-IsTarget :
    (segs : List ℕ) (b : ℕ)
    → IsObject segs b
    → IsTarget segs (node_from_address b) (addr_from_address b)
IsObject-IsTarget segs b ib = record {
  known = ib.known;
  low = ib.low;
  above = omega (arith, ib.above);
  below = omega (arith, ib.below);
}

Room-Targets : (segs : List ℕ) (rs : Requests) → All (Room segs) rs → AllTargets segs rs
Room-Targets segs [] h = tt
Room-Targets segs (r ∷ rs) h = (h.0.2, Room-Targets segs rs h.1)

module _ (cfg : Config) (segs : List ℕ) where
  request_for-Room :
      (node : ℕ) (rs : Requests) → All (Room segs) rs → Room segs (node, request_for cfg node rs)
  request_for-Room node rs h = elim (Option-cases (find node rs)) [
    | inl e ↦ rw (request_for, e) (refl, omega arith, λ i lt. absurd (omega arith))
    | inr (array, e) ↦ rw (request_for, e) (All-find (Room segs) node rs h e)
  ]

  -- One more object is counted, and stands after the others.
  add_object-Targets :
      (b ts : ℕ) (array : List ℕ)
      → IsObject segs b
      → Room segs (node_from_address b, array)
      → (length (add_object cfg b ts array) ≡ 2 * max_requested + 2)
        × (get_or (add_object cfg b ts array) 1 0 ≡ get_or array 1 0 + 1)
        × Targets segs (node_from_address b, add_object cfg b ts array)
  unfolding add_object
  add_object-Targets b ts array ib (len, few, targets) =
      let count = get_or array 1 0 in
      let a1 = set array (count + 2) (addr_from_address b) in
      let a2 = set a1 (count + max_requested + 2) ts in
      let len1 = length-set array (count + 2) (addr_from_address b) in
      let len2 = length-set a1 (count + max_requested + 2) ts in
      let counted : get_or (set a2 1 (count + 1)) 1 0 ≡ count + 1 =
        ground (arith, len1, len2, get_or-set a2 1 1 (count + 1) 0) in
      (
        omega (arith, length-set a2 1 (count + 1)),
        counted,
        λ i lt. elim (Bool-cases (i == count)) [
          | inl e ↦
              let last : get_or (set a2 1 (count + 1)) (i + 2) 0 ≡ addr_from_address b = ground (
                arith,
                len1,
                get_or-set a2 1 (i + 2) (count + 1) 0,
                get_or-set a1 (count + max_requested + 2) (i + 2) ts 0,
                get_or-set array (count + 2) (i + 2) (addr_from_address b) 0,
              ) in
              rw last (IsObject-IsTarget segs b ib)
          | inr e ↦
              let old : get_or (set a2 1 (count + 1)) (i + 2) 0 ≡ get_or array (i + 2) 0 = ground (
                arith,
                get_or-set a2 1 (i + 2) (count + 1) 0,
                get_or-set a1 (count + max_requested + 2) (i + 2) ts 0,
                get_or-set array (count + 2) (i + 2) (addr_from_address b) 0,
              ) in
              rw old (targets i (ground arith))
        ],
      )

  pub collect-AllTargets :
      (es : Entries) (rs : Requests)
      → AllObjects segs es
      → All (Room segs) rs
      → AllTargets segs (collect cfg es rs).0 × AllObjects segs (collect cfg es rs).1
  unfolding collect
  collect-AllTargets [] rs objects room = (Room-Targets segs rs room, tt)
  collect-AllTargets ((b, e) ∷ es) rs objects room =
      let node = node_from_address b in
      let added =
        add_object-Targets b e.ts (request_for cfg node rs) objects.0
          (request_for-Room node rs room) in
      let before = request_for-Room node rs room in
      elim (Bool-cases
        (get_or (add_object cfg b e.ts (request_for cfg node rs)) 1 0 == max_requested)) [
          | inl full ↦
              rw full
                (All-insert (Targets segs) node _ rs (Room-Targets segs rs room) added.2, objects.1)
          | inr more ↦ rw more (
              collect-AllTargets es
                (insert node (add_object cfg b e.ts (request_for cfg node rs)) rs) objects.1
                (All-insert (Room segs) node _ rs room
                  (added.0, ground (arith, added.1, before.1), added.2)))
        ]
