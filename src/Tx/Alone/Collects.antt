-- ===== src/Tx/Alone/Collects.antt =====
-- The requests that `getLocks` puts together can be granted.
use dstm_p.Common.{
  ℕ, ◌≡◌, refl, false, none, List, [], ◌∷◌, ◌==◌, arith, Bool-cases, Option-cases, inl, inr, All,
  All-insert, All-find, find, insert,
}
use dstm_p.Timestamp.{node_from_address, addr_from_address}
use dstm_p.Network.{Segments}
use dstm_p.MemMgr
use dstm_p.MemMgr.{MemMgr, cdu_size, object_lock_addr, object_lock_addr_at, objects_base}
use dstm_p.Tx.State.{Entry, Entries, Config}
use dstm_p.Tx.Commit.{max_requested, Requests, request_for, add_object, collect}
use dstm_p.Tx.Placed.{IsObject, Distinct}
use dstm_p.Tx.Alone.{IsCurrent}
use dstm_p.Tx.Alone.Grants.{
  slot, count, IsReady, AllReady, Nodes, Nodes-insert, Misses, locks_differ,
}
use dstm_p.Tx.Alone.Places.{
  Lacks, AllLack, Room, place_of, add_object-at, add_object-Ready, add_object-Lacks,
}

module _ (cfg : Config) (segs : List ℕ) (me : ℕ) (m0 : Segments)
    (built : cfg.mgr ≡ (MemMgr.init segs me m0).0) (m : Segments) where
  -- A request with room, that can be granted.
  abbrev pub Open : ℕ × List ℕ → Type 0
  Open (node, array) = Room array × IsReady segs cfg.mgr m node array

  Open-AllReady : (rs : Requests) → All Open rs → AllReady segs cfg.mgr m rs
  Open-AllReady [] h = tt
  Open-AllReady (r ∷ rs) h = (h.0.1, Open-AllReady rs h.1)

  request_for-Open : (node : ℕ) (rs : Requests) → All Open rs → Open (node, request_for cfg node rs)
  request_for-Open node rs h = elim (Option-cases (find node rs)) [
    | inl e ↦
        rw (request_for, e)
          (
            (refl, omega arith),
            record {
              places = λ i lt. absurd (omega arith);
              words = λ i lt. absurd (omega arith);
              unique = λ i j lt lt2. absurd (omega arith);
            },
          )
    | inr (array, e) ↦ rw (request_for, e) (All-find Open node rs h e)
  ]

  request_for-Lacks :
      (c node : ℕ) (rs : Requests) → All (Lacks c) rs → Lacks c (node, request_for cfg node rs)
  request_for-Lacks c node rs h = elim (Option-cases (find node rs)) [
    | inl e ↦ rw (request_for, e) λ i lt. absurd (omega arith)
    | inr (array, e) ↦ rw (request_for, e) (All-find (Lacks c) node rs h e)
  ]

  -- The requests after one more object.
  grown : ℕ → Entry → Requests → Requests
  grown b e rs =
      insert (node_from_address b)
        (add_object cfg b e.ts (request_for cfg (node_from_address b) rs)) rs

  grown-Lacks :
      (b c : ℕ) (e : Entry) (rs : Requests)
      → IsObject segs b
      → IsObject segs c
      → (b == c) ≡ false
      → All Open rs
      → All (Lacks c) rs
      → All (Lacks c) (grown b e rs)
  unfolding grown
  grown-Lacks b c e rs ib ic other roomy lacks =
      let node = node_from_address b in
      All-insert (Lacks c) node _ rs lacks (
        add_object-Lacks cfg segs me m0 built m b e.ts c (request_for cfg node rs) ib ic other
          (request_for-Open node rs roomy).0 (request_for-Lacks c node rs lacks))

  grown-AllLack :
      (b : ℕ) (e : Entry) (es : Entries) (rs : Requests)
      → IsObject segs b
      → find b es ≡ none
      → All Open rs
      → All (IsCurrent cfg segs m) es
      → AllLack es rs
      → AllLack es (grown b e rs)
  unfolding find
  grown-AllLack b e [] rs ib absent roomy current lacks = tt
  grown-AllLack b e ((c, w) ∷ es) rs ib absent roomy current lacks = elim (Bool-cases (c == b)) [
    | inl k ↦ absurd (ground arith)
    | inr k ↦ (
      grown-Lacks b c e rs ib current.0.0 (ground arith) roomy lacks.0,
      grown-AllLack b e es rs ib (ground arith) roomy current.1 lacks.1,
    )
  ]

  -- What a round leaves.
  pub record Collected (rs : Requests) (left : Entries) : Type 0 where
    pub ready : AllReady segs cfg.mgr m rs
    pub nodes : Nodes rs
    pub current : All (IsCurrent cfg segs m) left
    pub distinct : Distinct left
    pub not_asked : AllLack left rs

  pub collect-Collected :
      (es : Entries) (rs : Requests)
      → All (IsCurrent cfg segs m) es
      → Distinct es
      → All Open rs
      → Nodes rs
      → AllLack es rs
      → Collected (collect cfg es rs).0 (collect cfg es rs).1
        × ((c : ℕ)
            → IsObject segs c
            → find c es ≡ none
            → All (Lacks c) rs
            → All (Lacks c) (collect cfg es rs).0 × (find c (collect cfg es rs).1 ≡ none))
  unfolding collect grown find
  collect-Collected [] rs current distinct roomy nodes lacks = (
    record {
      ready = Open-AllReady rs roomy;
      nodes = nodes;
      current = tt;
      distinct = tt;
      not_asked = tt;
    },
    λ c ic absent lack. (lack, refl),
  )
  collect-Collected ((b, e) ∷ es) rs current distinct roomy nodes lacks =
      let node = node_from_address b in
      let ib = current.0.0 in
      let before = request_for-Open node rs roomy in
      let (len, counted, at) =
        add_object-at cfg segs me m0 built m b e.ts (request_for cfg node rs) before.0 in
      let ready =
        add_object-Ready cfg segs me m0 built m b e.ts (request_for cfg node rs) ib current.0.1
          before.0 before.1 (request_for-Lacks b node rs lacks.0) in
      let more = grown-AllLack b e es rs ib distinct.0 roomy current.1 lacks.1 in
      let next_nodes =
        Nodes-insert node (add_object cfg b e.ts (request_for cfg node rs)) rs nodes in
      elim (Bool-cases (count (add_object cfg b e.ts (request_for cfg node rs)) == max_requested)) [
        | inl full ↦ rw full (
          record {
            ready =
                All-insert (λ (p : ℕ × List ℕ). IsReady segs cfg.mgr m p.0 p.1) node _ rs
                  (Open-AllReady rs roomy) ready;
            nodes = next_nodes;
            current = current.1;
            distinct = distinct.1;
            not_asked = more;
          },
          λ c ic absent lack. (grown-Lacks b c e rs ib ic (ground arith) roomy lack, ground arith),
        )
        | inr room ↦
            let (all, others) =
              collect-Collected es (grown b e rs) current.1 distinct.1
                (All-insert Open node _ rs roomy
                  ((len, ground (arith, counted, before.0.1)), ready))
                next_nodes more in
            rw room (
              all,
              λ c ic absent lack.
                  others c ic (ground arith) (grown-Lacks b c e rs ib ic (ground arith) roomy lack),
            )
      ]

  -- The lock of an object that no request asks for.
  pub Lacks-Misses :
      (c : ℕ) (rs : Requests)
      → IsObject segs c
      → AllReady segs cfg.mgr m rs
      → All (Lacks c) rs
      → All
          (Misses cfg.mgr (node_from_address c) (addr_from_address (object_lock_addr cfg.mgr c)))
          rs
  Lacks-Misses c [] ic ready lacks = tt
  Lacks-Misses c ((node, array) ∷ rs) ic ready lacks = (
    λ i lt. elim (Bool-cases (node_from_address c == node)) [
      | inr e ↦ rw e refl
      | inl e ↦
          let (place, lock) = place_of cfg segs me m0 built m c ic in
          let here : node_from_address c ≡ node = ground arith in
          let apart =
            locks_differ segs cfg.mgr me m0 built (node_from_address c) (slot array i)
              (addr_from_address c) (rw here (ready.0.places i lt)) place
              (ground (arith, lacks.0 i lt)) in
          rw (← here, ← lock) apart
    ],
    Lacks-Misses c rs ic ready.1 lacks.1,
  )
