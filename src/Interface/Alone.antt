-- ===== src/Interface/Alone.antt =====
-- A transactional block that nobody disturbs commits at the first attempt.
use dstm_p.Common.{find, inl, false, ℕ, suc, ◌≡◌, refl, List, none, some}
use dstm_p.Timestamp.{is_locked}
use dstm_p.Network.{Segments}
use dstm_p.MemMgr
use dstm_p.Stats.{NodeStats}
use dstm_p.Tx.State.{Config, State, Run, Cmd}
use dstm_p.Tx.Access
use dstm_p.Tx.Access.{read, write}
use dstm_p.Tx.Commit.{commit}
use dstm_p.Tx.Placed.{IsObject, Distinct}
use dstm_p.Tx.Sim.{set_memory}
use dstm_p.Tx.Alone.{Succeeds, succeeds, lock_of, IsAlone, Older, Current}
use dstm_p.Tx.Alone.Access.{read-Current, write-Current}
use dstm_p.Tx.Alone.Commit.{commit-Done}
use dstm_p.Interface.{
  Thread, Call, returned, jumped, unfinished, then_call, descriptor, get_tx, on_tx, back,
  save_restore_stack, begin_transaction, load, store, commit_transaction, Body, result, loads,
  stores, run_body, attempt, attempts, atomic,
}
use dstm_p.Interface.Runs.{Ran, ran, state_of}
use dstm_p.Interface.Serial.{
  IsSafe, Executed, Inside, Outside, load-Ran, store-Ran, run_body-Ran, begin_transaction-Ran,
  attempt-Ran,
}

-- The call returns, with `P`.
pub data Comes {A : Type 0} (P : A → Thread → Type 0) : Call A → Type 0 where
  comes : {a : A} {t : Thread} → P a t → Comes P (returned a t)

pub Comes-bind :
    {A B : Type 0} {P : A → Thread → Type 0} {R : B → Thread → Type 0} {r : Call A}
    {k : A → Thread → Call B}
    → Comes P r
    → ((a : A) (t : Thread) → P a t → Comes R (k a t))
    → Comes R (then_call r k)
Comes-bind (comes p) next = next _ _ p

-- With what holds of it if it returns.
Comes-Ran :
    {A : Type 0} {P R : A → Thread → Type 0} {Q : Thread → Type 0} {r : Call A}
    → Comes P r
    → Ran R Q r
    → Comes (λ a t. P a t × R a t) r
Comes-Ran (comes p) (ran q) = comes (p, q)

pub Comes-weaken :
    {A : Type 0} {P R : A → Thread → Type 0} {r : Call A}
    → ((a : A) (t : Thread) → P a t → R a t)
    → Comes P r
    → Comes R r
Comes-weaken f (comes p) = comes (f _ _ p)

on_tx-Comes :
    {A : Type 0} {P : A → State → Type 0} (c : Cmd A) (t : Thread)
    → Succeeds P (c (state_of t))
    → Comes (λ a t1. P a (state_of t1)) (on_tx c t)
unfolding get_tx
on_tx-Comes {A = A} {P = P} c t h = go h
  where
    go :
        {r : Run A}
        → Succeeds P r
        → Comes (λ a t1. P a (state_of t1)) (back (record t { key = some (descriptor t.key) }) r)
    go (succeeds p) = comes p

module _ (cfg : Config) (segs : List ℕ) (me : ℕ) (m1 : Segments)
    (built : cfg.mgr ≡ (MemMgr.init segs me m1).0) (alone : IsAlone cfg) (m : Segments)
    (free : (b : ℕ) → IsObject segs b → is_locked (lock_of cfg.mgr m b) ≡ false) where
  run_body-Comes :
      {A : Type 0} (b : Body A) (m' : Segments) (n : NodeStats) (t : Thread)
      → IsSafe segs b m'
      → Inside segs m m' n t
      → Current cfg segs m (state_of t)
      → Comes (λ a t1. Current cfg segs m (state_of t1)) (run_body cfg b t)
  unfolding run_body load store
  run_body-Comes (result a) m' n t safe h c = comes c
  run_body-Comes (loads addr k) m' n t safe h c =
      Comes-bind
        (Comes-Ran
          (on_tx-Comes {P = λ _ s. Current cfg segs m s} (read cfg addr) t
            (read-Current cfg segs me m1 built alone m free addr (state_of t) safe.0 c))
          (load-Ran cfg segs m n alone.quiet addr m m' t (λ b o ib lt. refl) safe.0 h))
        λ v t1 (c1, (value, inside)). run_body-Comes (k v) m' n t1 (rw value (safe.1)) inside c1
  run_body-Comes (stores addr value b) m' n t safe h c =
      Comes-bind
        (Comes-Ran
          (on_tx-Comes {P = λ _ s. Current cfg segs m s} (write cfg addr value) t
            (write-Current cfg segs me m1 built alone m free addr value (state_of t) safe.0 c))
          (store-Ran cfg segs m n alone.quiet addr value m m' t (λ b o ib lt. refl) safe.0 h))
        λ _ t1 (c1, inside). run_body-Comes b (set_memory m' addr value) n t1 safe.1 inside c1

  begin_transaction-Comes :
      (t : Thread)
      → Current cfg segs m (state_of t)
      → Comes (λ _ t1. Current cfg segs m (state_of t1)) (begin_transaction t)
  unfolding begin_transaction Access.begin get_tx
  begin_transaction-Comes t c = comes (record {
    memory = c.memory;
    cached = c.cached;
    reads = c.reads;
    writes = c.writes;
    apart = c.apart;
    changed = refl;
  })

  commit_transaction-Comes :
      (t : Thread)
      → Current cfg segs m (state_of t)
      → Distinct (descriptor t.key).write_set
      → Comes (λ _ _. Unit {0}) (commit_transaction cfg t)
  unfolding commit_transaction
  commit_transaction-Comes t c distinct =
      Comes-bind
        (on_tx-Comes {P = λ _ _. Unit {0}} (commit cfg) t
          (commit-Done cfg segs me m1 built alone m free (state_of t) c distinct))
        λ _ t1 _. comes tt

  attempt-Comes :
      {A : Type 0} (b : Body A) (t : Thread)
      → t.world.seg ≡ m
      → IsSafe segs b m
      → Outside segs m t.node_stats t
      → Current cfg segs m (state_of t)
      → Comes (λ _ _. Unit {0}) (attempt cfg b t)
  unfolding attempt
  attempt-Comes b t memory safe outside c =
      let n = t.node_stats in
      Comes-bind
        (Comes-Ran (begin_transaction-Comes t c)
          (begin_transaction-Ran cfg segs m n alone.quiet me m1 built t outside))
        λ _ t1 (c1, inside).
          Comes-bind
            (Comes-Ran (run_body-Comes b m n t1 safe (rw memory at inside) c1) (
              run_body-Ran cfg segs m n alone.quiet b m m t1 (λ k o ik lt. refl) safe
                (rw memory at inside)))
            λ a t2 (c2, (value, inside2)).
              Comes-bind (commit_transaction-Comes t2 c2 inside2.0.sim.distinct) λ _ t3 _. comes tt

-- A transactional block alone in the system commits at its first attempt: when other threads and nodes leave
-- memory, the clock and the cached versions alone, loops may take a round, no object in the memory laid
-- out by `init` is locked, and no cached version is locked or newer than its object, then a block that is
-- begun outside of a transaction and accesses words of objects only returns, for any number of attempts but
-- zero. Its value and all objects are those of the block run once on plain memory, the transaction is deleted, and
-- the node counts one transaction more.
pub atomic_alone :
    {A : Type 0} (cfg : Config) (segs : List ℕ) (me : ℕ) (m1 : Segments) (tries : ℕ) (b : Body A)
    (t : Thread)
    → IsAlone cfg
    → cfg.mgr ≡ (MemMgr.init segs me m1).0
    → ((b : ℕ) → IsObject segs b → is_locked (lock_of cfg.mgr t.world.seg b) ≡ false)
    → Older cfg segs t.world.seg t.world.versions
    → IsSafe segs b t.world.seg
    → t.key ≡ none
    → Comes (Executed segs b t.world.seg t.node_stats) (atomic cfg (suc tries) b t)
unfolding atomic attempts save_restore_stack get_tx find
atomic_alone {A = A} cfg segs me m1 tries b t alone built free older safe outer =
    first (attempt cfg b t1) (
      Comes-Ran (attempt-Comes cfg segs me m1 built alone m free b t1 refl safe outside current)
        (attempt-Ran cfg segs m t.node_stats alone.quiet me m1 built b t1 safe outside))
  where
    m : Segments
    m = t.world.seg

    t1 : Thread
    t1 = save_restore_stack t

    outside : Outside segs m t.node_stats t1
    outside = rw outer ((λ k o ik lt. refl, refl, refl), refl)

    current : Current cfg segs m (state_of t1)
    current = rw outer (record {
      memory = refl;
      cached = older;
      reads = tt;
      writes = tt;
      apart = λ k. inl refl;
      changed = refl;
    })

    first :
        (r : Call A)
        → Comes (λ a t2. Unit {0} × Executed segs b m t.node_stats a t2) r
        → Comes (Executed segs b m t.node_stats) (elim r [
          | returned a t2 ↦ returned a t2
          | jumped c t2 ↦ attempts cfg tries b t2
          | unfinished ↦ unfinished
        ])
    first _ (comes p) = comes p.1
