-- ===== src/Interface/Serial.antt =====
-- A transactional block beside the same block on plain memory.
use dstm_p.Common.{ℕ, zero, suc, ◌<◌, ◌≡◌, refl, ◌∙◌, List, none, find}
use dstm_p.Network.{Segments}
use dstm_p.MemMgr
use dstm_p.MemMgr.{cdu_size}
use dstm_p.Stats.{NodeStats, add32, count_commit}
use dstm_p.Tx.State.{Config}
use dstm_p.Tx.Access
use dstm_p.Tx.Access.{read, write}
use dstm_p.Tx.Commit.{commit}
use dstm_p.Tx.Gives.{Gives-Ends}
use dstm_p.Tx.Same.{SameObjects}
use dstm_p.Tx.Atomic.{Restored, Overlaid, commit-Overlaid}
use dstm_p.Tx.Sim.{IsWord, word, set_memory}
use dstm_p.Tx.Steps.{Left, Views, read-Views, write-Views}
use dstm_p.Interface.Runs.{
  Ran, ran, back_at, open_ended, Ran-bind, state_of, on_tx-Ran, Attempted, Attempted-Ran,
  attempt-Over,
}
use dstm_p.Interface.{
  Thread, Call, returned, jumped, unfinished, get_tx, save_restore_stack, begin_transaction, load,
  store, commit_transaction, Body, result, loads, stores, run_body, attempt, attempts, atomic,
}

-- The block on memory that its stores go to at once: its result and the memory after it.
abbrev pub exec : {A : Type 0} → Body A → Segments → A × Segments
exec (result a) m = (a, m)
exec (loads addr k) m = exec (k (word m addr)) m
exec (stores addr value b) m = exec b (set_memory m addr value)

-- Run on the memory `m`, the block accesses words of objects alone.
abbrev pub IsSafe : {A : Type 0} → List ℕ → Body A → Segments → Type 0
IsSafe segs (result a) m = Unit {0}
IsSafe segs (loads addr k) m = IsWord segs addr × IsSafe segs (k (word m addr)) m
IsSafe segs (stores addr value b) m = IsWord segs addr × IsSafe segs b (set_memory m addr value)

-- The thread is in the transaction, which views `m'`; or a jump left it at the checkpoint with the
-- objects as in `m0`.
abbrev pub Inside : List ℕ → Segments → Segments → NodeStats → Thread → Type 0
Inside segs m m' n t = Views segs m m' (state_of t) × (t.node_stats ≡ n)

abbrev pub Outside : List ℕ → Segments → NodeStats → Thread → Type 0
Outside segs m0 n t = Restored segs m0 (state_of t) × (t.node_stats ≡ n)

-- The thread after the block: it gave what the block on plain memory gives.
abbrev pub Executed : {A : Type 0} → List ℕ → Body A → Segments → NodeStats → A → Thread → Type 0
Executed segs b m0 n a t =
    (a ≡ (exec b m0).0)
    × SameObjects segs (exec b m0).1 t.world.seg
    × (t.key ≡ none)
    × (t.node_stats.total_txs ≡ add32 n.total_txs 1)

module _ (cfg : Config) (segs : List ℕ) (m0 : Segments) (n : NodeStats)
    (quiet : (t : ℕ) (m : Segments) → cfg.env t m ≡ m) where
  Left-Outside :
      (m : Segments) (t : Thread)
      → SameObjects segs m0 m
      → Left m (state_of t)
      → t.node_stats ≡ n
      → Outside segs m0 n t
  Left-Outside m t same left stats = ((rw left.0 same, left.1, left.2), stats)

  pub load-Ran :
      (addr : ℕ) (m m' : Segments) (t : Thread)
      → SameObjects segs m0 m
      → IsWord segs addr
      → Inside segs m m' n t
      → Ran
          (λ v t1. (v ≡ word m' addr) × Inside segs m m' n t1)
          (Outside segs m0 n)
          (load cfg addr t)
  unfolding load
  load-Ran addr m m' t same is h =
      on_tx-Ran {R = λ v t1. (v ≡ word m' addr) × Inside segs m m' n t1} (read cfg addr) t
        (read-Views cfg quiet segs m m' addr (state_of t) is h.0)
        (λ v t1 p q. (p.0, (p.1, q ∙ h.1))) λ t1 p q. Left-Outside m t1 same p (q ∙ h.1)

  pub store-Ran :
      (addr value : ℕ) (m m' : Segments) (t : Thread)
      → SameObjects segs m0 m
      → IsWord segs addr
      → Inside segs m m' n t
      → Ran
          (λ _ t1. Inside segs m (set_memory m' addr value) n t1)
          (Outside segs m0 n)
          (store cfg addr value t)
  unfolding store
  store-Ran addr value m m' t same is h =
      on_tx-Ran {R = λ _ t1. Inside segs m (set_memory m' addr value) n t1} (write cfg addr value) t
        (write-Views cfg quiet segs m m' addr value (state_of t) is h.0) (λ v t1 p q. (p, q ∙ h.1))
        λ t1 p q. Left-Outside m t1 same p (q ∙ h.1)

  pub run_body-Ran :
      {A : Type 0} (b : Body A) (m m' : Segments) (t : Thread)
      → SameObjects segs m0 m
      → IsSafe segs b m'
      → Inside segs m m' n t
      → Ran
          (λ a t1. (a ≡ (exec b m').0) × Inside segs m (exec b m').1 n t1)
          (Outside segs m0 n)
          (run_body cfg b t)
  unfolding run_body
  run_body-Ran (result a) m m' t same safe h = ran (refl, h)
  run_body-Ran (loads addr k) m m' t same safe h =
      Ran-bind (load-Ran addr m m' t same safe.0 h) λ v t1 (value, inside).
        rw value (run_body-Ran (k (word m' addr)) m m' t1 same safe.1 inside)
  run_body-Ran (stores addr value b) m m' t same safe h =
      Ran-bind (store-Ran addr value m m' t same safe.0 h)
        λ _ t1 inside. run_body-Ran b m (set_memory m' addr value) t1 same safe.1 inside

  module _ (me : ℕ) (m1 : Segments) (built : cfg.mgr ≡ (MemMgr.init segs me m1).0) where
    -- A commit makes the view the memory.
    commit_transaction-Ran :
        (m m' : Segments) (t : Thread)
        → SameObjects segs m0 m
        → Inside segs m m' n t
        → Ran
            (λ _ t1.
              SameObjects segs m' t1.world.seg
              × (t1.key ≡ none)
              × (t1.node_stats.total_txs ≡ add32 n.total_txs 1))
            (Outside segs m0 n)
            (commit_transaction cfg t)
    unfolding commit_transaction count_commit
    commit_transaction-Ran m m' t same (views, stats) =
        let s = state_of t in
        Ran-bind
          (on_tx-Ran
            {R = λ _ t1. Overlaid segs m s.tx.write_set (state_of t1) × (t1.node_stats ≡ n)}
            (commit cfg) t
            (Gives-Ends {R = λ _ s1. Overlaid segs m s.tx.write_set s1}
              (commit-Overlaid cfg segs me m1 quiet built m s.tx.write_set views.sim.objects s
                views.sim.distinct (rw views.memory (λ b o ib lt. refl), refl))
              λ a s1 e k. k)
            (λ _ t1 p q. (p, q ∙ stats))
            λ t1 p q. ((λ b o ib lt. p.0 b o ib lt ∙ same b o ib lt, p.1, p.2), q ∙ stats))
          λ _ t1 (overlaid, counted).
            ran
              (λ b o ib lt. overlaid b o ib lt ∙ views.sim.overlay b o ib lt, refl, rw counted refl)

    pub begin_transaction-Ran :
        (t : Thread)
        → Outside segs m0 n t
        → Ran (λ _ t1. Inside segs t.world.seg m0 n t1) (Outside segs m0 n) (begin_transaction t)
    unfolding begin_transaction Access.begin get_tx find
    begin_transaction-Ran t ((same, no_reads, no_writes), stats) = ran (
      record {
        memory = refl;
        sim =
            rw (no_reads, no_writes)
              (record {
                objects = tt;
                distinct = tt;
                reads = λ b o e found lt. cc;
                overlay = λ b o ib lt. same b o ib lt;
              });
      },
      stats,
    )

    pub attempt-Ran :
        {A : Type 0} (b : Body A) (t : Thread)
        → IsSafe segs b m0
        → Outside segs m0 n t
        → Ran (Executed segs b m0 n) (Outside segs m0 n) (attempt cfg b t)
    unfolding attempt
    attempt-Ran b t safe outside = Ran-bind (begin_transaction-Ran t outside) λ _ t1 inside.
        Ran-bind (run_body-Ran b t.world.seg m0 t1 outside.0.0 safe inside) λ a t2 (value, inside2).
          Ran-bind (commit_transaction-Ran t.world.seg (exec b m0).1 t2 outside.0.0 inside2)
            λ _ t3 k. ran (value, k.0, k.1, k.2)

    attempts-Ran :
        {A : Type 0} (tries : ℕ) (b : Body A) (t : Thread)
        → IsSafe segs b m0
        → Outside segs m0 n t
        → Ran (Executed segs b m0 n) (λ _. ⊥) (attempts cfg tries b t)
    unfolding attempts
    attempts-Ran zero b t safe outside = open_ended
    attempts-Ran {A = A} (suc tries) b t safe outside =
        next (attempt cfg b t) (attempt-Ran b t safe outside) λ t1 k. attempts-Ran tries b t1 safe k
      where
        next :
            (r : Call A)
            → Ran (Executed segs b m0 n) (Outside segs m0 n) r
            → ((t1 : Thread)
                → Outside segs m0 n t1
                → Ran (Executed segs b m0 n) (λ _. ⊥) (attempts cfg tries b t1))
            → Ran
                (Executed segs b m0 n)
                (λ _. ⊥)
                (elim r [
                  | returned a t1 ↦ returned a t1
                  | jumped r t1 ↦ attempts cfg tries b t1
                  | unfinished ↦ unfinished
                ])
        next _ (ran k) again = ran k
        next _ (back_at k) again = again _ k
        next _ open_ended again = open_ended

-- An attempt to run a block, from a checkpoint at which both sets are empty and the objects are as in
-- `m0`, by a thread whose accesses to memory and clock no other interrupts, in memory laid out by `init`,
-- either returns or jumps back. If it returns, its value and all objects are those of the block run on
-- plain memory from `m0`, the transaction is deleted, and the node counts one transaction more. If it
-- jumps, both sets are empty, the objects are as in `m0`, and the node counts no more. The block
-- accesses words of objects only.
pub attempt_serial :
    {A : Type 0} (cfg : Config) (segs : List ℕ) (me : ℕ) (m1 m0 : Segments) (b : Body A)
    (t : Thread)
    → ((u : ℕ) (m : Segments) → cfg.env u m ≡ m)
    → ((u c : ℕ) → cfg.env_clock u c ≡ c)
    → 0 < cfg.rounds
    → cfg.mgr ≡ (MemMgr.init segs me m1).0
    → IsSafe segs b m0
    → Outside segs m0 t.node_stats t
    → Attempted (Executed segs b m0 t.node_stats) (Outside segs m0 t.node_stats) (attempt cfg b t)
attempt_serial cfg segs me m1 m0 b t quiet calm some_rounds built safe outside =
    Attempted-Ran (attempt-Over cfg quiet calm some_rounds b t)
      (attempt-Ran cfg segs m0 t.node_stats quiet me m1 built b t safe outside)

-- A transactional block begun outside of a transaction, in quiet memory laid out by `init`, and
-- accessing words of objects only, does not jump past its checkpoint, and when it returns after any
-- number of aborted attempts, its value and all objects are those of the block run once on plain memory, the
-- transaction is deleted, and the node counts one transaction more.
pub atomic_serial :
    {A : Type 0} (cfg : Config) (segs : List ℕ) (me : ℕ) (m1 : Segments) (tries : ℕ) (b : Body A)
    (t : Thread)
    → ((u : ℕ) (m : Segments) → cfg.env u m ≡ m)
    → cfg.mgr ≡ (MemMgr.init segs me m1).0
    → IsSafe segs b t.world.seg
    → t.key ≡ none
    → Ran (Executed segs b t.world.seg t.node_stats) (λ _. ⊥) (atomic cfg tries b t)
unfolding atomic save_restore_stack get_tx
atomic_serial cfg segs me m1 tries b t quiet built safe outer =
    attempts-Ran cfg segs t.world.seg t.node_stats quiet me m1 built tries b (save_restore_stack t)
      safe (rw outer ((λ b o ib lt. refl, refl, refl), refl))
