-- ===== src/Interface/Contract.antt =====
-- A transactional block that is right on plain memory, run as a transaction.
use dstm_p.Common.{ℕ, suc, ◌+◌, ◌≡◌, ◌∙◌, subst, List, none, false}
use dstm_p.Timestamp.{is_locked, node_from_address, addr_from_address}
use dstm_p.Network.{Segments}
use dstm_p.MemMgr
use dstm_p.Stats.{NodeStats, add32}
use dstm_p.Tx.State.{Config}
use dstm_p.Tx.Placed.{IsObject}
use dstm_p.Tx.Access.{block_lb}
use dstm_p.Tx.Same.{SameObjects}
use dstm_p.Tx.Sim.{IsWord, word-block, offset}
use dstm_p.Tx.Alone.{lock_of, IsAlone, Older}
use dstm_p.Interface.{Thread, Call, Body, atomic}
use dstm_p.Interface.Runs.{Ran, ran, back_at, open_ended}
use dstm_p.Interface.Serial.{exec, Executed, atomic_serial}
use dstm_p.Interface.Alone.{Comes, Comes-weaken, atomic_alone}
use dstm_p.Interface.Blocks.{Plain, Ensures, Agrees, exec-Ensures}

SameObjects-Agrees :
    (segs : List ℕ) (m m' : Segments) (h : Plain)
    → SameObjects segs m m'
    → Agrees segs m h
    → Agrees segs m' h
SameObjects-Agrees segs m m' h same agrees a ia =
    let (lt, node, at, _, _) = word-block segs a ia in
    let moved : m' (node_from_address (block_lb a)) (addr_from_address (block_lb a) + offset a)
        ≡ m (node_from_address (block_lb a)) (addr_from_address (block_lb a) + offset a) =
      same (block_lb a) (offset a) ia.object lt in
    subst (λ x. m' (node_from_address a) x ≡ m (node_from_address a) x) at
      (subst
        (λ n.
          m' n (addr_from_address (block_lb a) + offset a)
          ≡ m n (addr_from_address (block_lb a) + offset a))
        node moved)
    ∙ agrees a ia

pub Ran-weaken :
    {A : Type 0} {P R : A → Thread → Type 0} {Q : Thread → Type 0} {r : Call A}
    → ((a : A) (t : Thread) → P a t → R a t)
    → Ran P Q r
    → Ran R Q r
Ran-weaken f (ran p) = ran (f _ _ p)
Ran-weaken f (back_at q) = back_at q
Ran-weaken f open_ended = open_ended

-- The thread behind the block: its result and the words of all objects are as `Q` says, it is outside of a
-- transaction, and its node counts one transaction more.
abbrev pub Behind : {A : Type 0} → List ℕ → (A → Plain → Type 0) → NodeStats → A → Thread → Type 0
Behind segs Q n a t =
    ((h : Plain) × Q a h × Agrees segs t.world.seg h)
    × (t.key ≡ none)
    × (t.node_stats.total_txs ≡ add32 n.total_txs 1)

module _ {A : Type 0} (Q : A → Plain → Type 0) (cfg : Config) (segs : List ℕ) (me : ℕ)
    (m1 : Segments) (b : Body A) (h : Plain) (t : Thread) where
  Executed-Behind :
      Agrees segs t.world.seg h
      → Ensures (IsWord segs) Q b h
      → (a : A) (t1 : Thread) → Executed segs b t.world.seg t.node_stats a t1
      → Behind segs Q t.node_stats a t1
  Executed-Behind agrees e a t1 (value, same, key, stats) =
      let (_, (h1, q, after)) = exec-Ensures Q segs b t.world.seg h agrees e in
      (
        (h1, rw value q, SameObjects-Agrees segs (exec b t.world.seg).1 t1.world.seg h1 same after),
        key,
        stats,
      )

  -- In quiet memory laid out by `init`, a block begun outside of a transaction that returns, after any number
  -- of aborted attempts, did what it does on plain memory.
  pub block_serial :
      (tries : ℕ)
      → ((u : ℕ) (m : Segments) → cfg.env u m ≡ m)
      → cfg.mgr ≡ (MemMgr.init segs me m1).0
      → t.key ≡ none
      → Agrees segs t.world.seg h
      → Ensures (IsWord segs) Q b h
      → Ran (Behind segs Q t.node_stats) (λ _. ⊥) (atomic cfg tries b t)
  block_serial tries quiet built outer agrees e = Ran-weaken (Executed-Behind agrees e) (
      atomic_serial cfg segs me m1 tries b t quiet built
        (exec-Ensures Q segs b t.world.seg h agrees e).0 outer)

  -- Alone in the system it returns from its first attempt.
  pub block_alone :
      (tries : ℕ)
      → IsAlone cfg
      → cfg.mgr ≡ (MemMgr.init segs me m1).0
      → ((b : ℕ) → IsObject segs b → is_locked (lock_of cfg.mgr t.world.seg b) ≡ false)
      → Older cfg segs t.world.seg t.world.versions
      → t.key ≡ none
      → Agrees segs t.world.seg h
      → Ensures (IsWord segs) Q b h
      → Comes (Behind segs Q t.node_stats) (atomic cfg (suc tries) b t)
  block_alone tries alone built free older outer agrees e =
      Comes-weaken (Executed-Behind agrees e) (
        atomic_alone cfg segs me m1 tries b t alone built free older
          (exec-Ensures Q segs b t.world.seg h agrees e).0 outer)
