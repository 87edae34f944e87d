-- ===== src/Tx/Alone/Grants.antt =====
-- Requests for locks that are all granted.
use dstm_p.Common.{
  ℕ, zero, suc, ◌+◌, ◌%◌, ◌^◌, ◌≤◌, ◌<◌, ◌≡◌, refl, ◌∙◌, ap, Bool, false, ◌&&◌, List, [], ◌∷◌, leb,
  ltb, ◌==◌, get_or, arith, Bool-cases, inl, inr, All, All-insert, insert,
}
use dstm_p.Timestamp.{locked_word}
use dstm_p.Network.{Segments, Gasnet}
use dstm_p.MemMgr
use dstm_p.MemMgr.{
  MemMgr, cdu_size, object_lock_addr, object_lock_addr_at, objects_base, locks_base,
}
use dstm_p.MemMgr.Layout.{lock_at}
use dstm_p.Locks.{
  Mem, grant, grant_all, request_locks_handler, process_locks_request, locks_request_processed,
}
use dstm_p.Tx.State.{Config, State}
use dstm_p.Tx.Commit.{max_requested, Requests, request, request_all}
use dstm_p.Tx.Alone.{Succeeds, succeeds, Succeeds-bind, Succeeds-weaken}
use dstm_p.Tx.Same.{IsTarget}

-- The address and the version at a place of a request.
abbrev pub slot : List ℕ → ℕ → ℕ
slot array i = get_or array (i + 2) 0

abbrev pub version_at : List ℕ → ℕ → ℕ
version_at array i = get_or array (i + max_requested + 2) 0

abbrev pub count : List ℕ → ℕ
count array = get_or array 1 0

-- Whether the word at `x` of node `n` is written by a store to the lock of the address `a` of `node`.
abbrev pub hits : MemMgr → ℕ → ℕ → ℕ → ℕ → Bool
hits mgr n x node a =
    n == node
    && (leb (object_lock_addr_at mgr a node) x && ltb x (object_lock_addr_at mgr a node + 8))

-- An address of an object of the node.
pub record IsPlace (segs : List ℕ) (node a : ℕ) : Type 0 where
  pub target : IsTarget segs node a
  pub small : a < 2 ^ 48
  pub aligned : a % 2 ^ cdu_size ≡ 0

module _ (segs : List ℕ) (mgr : MemMgr) (me : ℕ) (m0 : Segments)
    (built : mgr ≡ (MemMgr.init segs me m0).0) where
  -- Locks of different objects are different words.
  pub locks_differ :
      (node a b : ℕ)
      → IsPlace segs node a
      → IsPlace segs node b
      → (a == b) ≡ false
      → hits mgr node (object_lock_addr_at mgr b node) node a ≡ false
  unfolding objects_base
  locks_differ node a b pa pb other =
      let ta = pa.target in
      let tb = pb.target in
      let la = lock_at segs me m0 node ta.known a ta.low ta.above in
      let lb = lock_at segs me m0 node tb.known b tb.low tb.above in
      rw built
        (ground (arith, la, lb, ta.above, tb.above, pa.small, pb.small, pa.aligned, pb.aligned))

module _ (g : Gasnet) (mgr : MemMgr) (env : ℕ → Segments → Segments)
    (quiet : (t : ℕ) (s : Segments) → env t s ≡ s) where
  grant-Granted :
      (me obj version : ℕ) (r : Mem)
      → r.seg me (object_lock_addr_at mgr obj me) ≡ version
      → ((grant g mgr env me obj version r).0 ≡ false)
        × ((n x : ℕ)
            → hits mgr n x me obj ≡ false
            → (grant g mgr env me obj version r).1.seg n x ≡ r.seg n x)
  unfolding grant
  grant-Granted me obj version r word =
      let lock = object_lock_addr_at mgr obj me in
      let s1 = env r.now r.seg in
      let same1 = quiet r.now r.seg in
      let same2 = quiet (r.now + 1) s1 in
      rw (same2, same1, word, g.cas_law version version (locked_word version))
        (ground arith, λ n x miss. ground arith)

  pub grant_all-Granted :
      (me : ℕ) (array : List ℕ) (left current : ℕ) (r : Mem)
      → ((i : ℕ)
          → current ≤ i
          → i < current + left
          → r.seg me (object_lock_addr_at mgr (slot array i) me) ≡ version_at array i)
      → ((i j : ℕ)
          → i < j
          → j < current + left
          → current ≤ i
          → hits mgr me (object_lock_addr_at mgr (slot array j) me) me (slot array i) ≡ false)
      → ((grant_all g mgr env me array max_requested left current r).0 ≡ [])
        × ((n x : ℕ)
            → ((i : ℕ) → current ≤ i → i < current + left → hits mgr n x me (slot array i) ≡ false)
            → (grant_all g mgr env me array max_requested left current r).1.seg n x ≡ r.seg n x)
  unfolding grant_all
  grant_all-Granted me array zero current r words apart = (refl, λ n x miss. refl)
  grant_all-Granted me array (suc left) current r words apart =
      let here : r.seg me (object_lock_addr_at mgr (slot array current) me)
          ≡ get_or array (max_requested + current + 2) 0 =
        words current (omega arith) (omega arith)
        ∙ ap (λ (k : ℕ). get_or array k 0) (omega arith) in
      let (granted, rest) = grant-Granted me (slot array current) _ r here in
      let (none_changed, same) =
        grant_all-Granted me array left (current + 1)
          (grant g mgr env me (slot array current) (get_or array (max_requested + current + 2) 0)
            r).1
          (λ i le lt.
            rest me (object_lock_addr_at mgr (slot array i) me)
              (apart current i (omega arith) (omega arith) (omega arith))
            ∙ words i (omega arith) (omega arith))
          (λ i j lt lt2 le. apart i j lt (omega arith) (omega arith)) in
      (
        rw (granted, none_changed) refl,
        λ n x miss.
            same n x (λ i le lt. miss i (omega arith) (omega arith))
            ∙ rest n x (miss current (omega arith) (omega arith)),
      )

-- What a request asks for can be granted in the memory `m`.
pub record IsReady (segs : List ℕ) (mgr : MemMgr) (m : Segments) (node : ℕ) (array : List ℕ)
    : Type 0 where
  pub places : (i : ℕ) → i < count array → IsPlace segs node (slot array i)
  pub words :
      (i : ℕ)
      → i < count array
      → m node (object_lock_addr_at mgr (slot array i) node) ≡ version_at array i
  pub unique : (i j : ℕ) → i < j → j < count array → (slot array i == slot array j) ≡ false

abbrev pub AllReady : List ℕ → MemMgr → Segments → Requests → Type 0
AllReady segs mgr m = All (λ (p : ℕ × List ℕ). IsReady segs mgr m p.0 p.1)

-- No request is to the node; all requests are to different nodes.
abbrev pub Others : ℕ → Requests → Type 0
Others node = All (λ (p : ℕ × List ℕ). (p.0 == node) ≡ false)

abbrev pub Nodes : Requests → Type 0
Nodes [] = Unit {0}
Nodes ((node, array) ∷ rs) = Others node rs × Nodes rs

pub Nodes-insert :
    (node : ℕ) (array : List ℕ) (rs : Requests) → Nodes rs → Nodes (insert node array rs)
unfolding insert
Nodes-insert node array [] h = (tt, tt)
Nodes-insert node array ((k, a) ∷ rs) h = elim (Bool-cases (k == node)) [
  | inl e ↦ let same : k ≡ node = ground arith in rw e (rw (← same) h.0, h.1)
  | inr e ↦ rw e (
    All-insert (λ (p : ℕ × List ℕ). (p.0 == k) ≡ false) node array rs h.0 (ground arith),
    Nodes-insert node array rs h.1,
  )
]

-- The word is the lock of nothing that the request asks for.
abbrev pub Misses : MemMgr → ℕ → ℕ → ℕ × List ℕ → Type 0
Misses mgr n x (node, array) = (i : ℕ) → i < count array → hits mgr n x node (slot array i) ≡ false

-- The requests were granted, and memory is as before but for their locks.
abbrev pub Requested : MemMgr → Requests → State → State → Type 0
Requested mgr rs s t =
    (t.tx.rl_changed_objects ≡ [])
    × (t.tx.read_set ≡ s.tx.read_set)
    × (t.tx.write_set ≡ s.tx.write_set)
    × (t.world.versions ≡ s.world.versions)
    × ((n x : ℕ) → All (Misses mgr n x) rs → t.world.seg n x ≡ s.world.seg n x)

module _ (cfg : Config) (segs : List ℕ) (me : ℕ) (m0 : Segments)
    (built : cfg.mgr ≡ (MemMgr.init segs me m0).0)
    (quiet : (t : ℕ) (s : Segments) → cfg.env t s ≡ s) where
  request-Granted :
      (node : ℕ) (array : List ℕ) (s : State)
      → IsReady segs cfg.mgr s.world.seg node array
      → s.tx.rl_changed_objects ≡ []
      → Succeeds (λ _ t. Requested cfg.mgr ((node, array) ∷ []) s t) (request cfg node array s)
  unfolding request request_locks_handler process_locks_request locks_request_processed
  request-Granted node array s ready unchanged =
      let (none_changed, same) =
        grant_all-Granted cfg.gasnet cfg.mgr cfg.env quiet node array (count array) 0
          (record { seg = s.world.seg; now = s.world.now }) (λ i le lt. ready.words i (omega arith))
          (λ i j lt lt2 le.
            locks_differ segs cfg.mgr me m0 built node (slot array i) (slot array j)
              (ready.places i (omega arith)) (ready.places j (omega arith))
              (ready.unique i j lt (omega arith))) in
      succeeds (
        rw (none_changed, unchanged) refl,
        refl,
        refl,
        refl,
        λ n x miss. same n x λ i le lt. miss.0 i (omega arith),
      )

  AllReady-later :
      (node : ℕ) (rs : Requests) (s t : Segments)
      → Others node rs
      → ((n x : ℕ) → (n == node) ≡ false → t n x ≡ s n x)
      → AllReady segs cfg.mgr s rs
      → AllReady segs cfg.mgr t rs
  AllReady-later node [] s t others same h = tt
  AllReady-later node ((k, a) ∷ rs) s t others same h =
      let ready = h.0 in
      (
        record {
          places = ready.places;
          words = λ i lt. same k _ others.0 ∙ ready.words i lt;
          unique = ready.unique;
        },
        AllReady-later node rs s t others.1 same h.1,
      )

  pub request_all-Granted :
      (rs : Requests) (s : State)
      → AllReady segs cfg.mgr s.world.seg rs
      → Nodes rs
      → s.tx.rl_changed_objects ≡ []
      → Succeeds (λ _ t. Requested cfg.mgr rs s t) (request_all cfg rs s)
  unfolding request_all
  request_all-Granted [] s ready nodes unchanged =
      succeeds (unchanged, refl, refl, refl, λ n x miss. refl)
  request_all-Granted ((node, array) ∷ rs) s ready nodes unchanged =
      Succeeds-bind (request-Granted node array s ready.0 unchanged) λ _ s1 (c1, r1, w1, v1, same1).
        Succeeds-weaken
          (λ _ t (c, r, w, v, same).
            (c, r ∙ r1, w ∙ w1, v ∙ v1, λ n x miss. same n x miss.1 ∙ same1 n x (miss.0, tt)))
          (request_all-Granted rs s1
            (AllReady-later node rs s.world.seg s1.world.seg nodes.0
              (λ n x other. same1 n x (λ i lt. rw other refl, tt)) ready.1)
            nodes.1 c1)
