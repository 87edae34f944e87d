-- ===== src/Interface.antt =====
-- src/dstm_lib_p1/dstm_p1-ls.cpp, in the build with TRANSACTIONS_STATS: the functions that code compiled
-- by tanger calls, and how a transactional block calls them. The word-sized accesses, `load64` and
-- `store64`, stand for those of other sizes.
pub mod Runs
pub mod Serial
pub mod Alone
pub mod Blocks
pub mod Contract
mod Tests
use dstm_p.Common.{ℕ, zero, suc, Option, none, some, []}
use dstm_p.Stats.{NodeStats, zero_stats, count_commit}
use dstm_p.Tx.State.{tx_idle, Tx, World, Config, State, Run, ok, aborted, out_of_rounds, Cmd}
use dstm_p.Tx.Access
use dstm_p.Tx.Access.{read, write}
use dstm_p.Tx.Commit.{commit}

-- A thread: what TX_DATA_THREADKEY holds for it, what it shares with others, and
-- G_TRANSACTIONS_STATS of its node.
pub record Thread : Type 0 where
  pub key : Option Tx
  pub world : World
  pub node_stats : NodeStats

-- How a call ends for the thread.
pub data Call (A : Type 0) : Type 0 where
  returned : A → Thread → Call A
  -- by siglongjmp to the checkpoint
  jumped : ℕ → Thread → Call A
  unfinished : Call A

module _ {A B : Type 0} where
  abbrev pub then_call : Call A → (A → Thread → Call B) → Call B
  then_call (returned a t) k = k a t
  then_call (jumped r t) k = jumped r t
  then_call unfinished k = unfinished

-- `new DSTMTransaction()`
abbrev pub new_tx : Tx
new_tx = record {
  status = tx_idle;
  read_set = [];
  write_set = [];
  vc = λ _. 0;
  rl_nodes = 0;
  rl_changed_objects = [];
  stats = zero_stats;
}

abbrev pub descriptor : Option Tx → Tx
descriptor none = new_tx
descriptor (some tx) = tx

-- `tanger_stm_get_tx`: the thread with its key set.
unfoldable pub get_tx : Thread → Tx × Thread
get_tx t = let tx = descriptor t.key in (tx, record t { key = some tx })

-- The thread after a method of its transaction.
abbrev pub back : {A : Type 0} → Thread → Run A → Call A
back t (ok a s) = returned a (record t { key = some s.tx; world = s.world })
back t (aborted r s) = jumped r (record t { key = some s.tx; world = s.world })
back t out_of_rounds = unfinished

-- A method of the transaction that `tanger_stm_get_tx` gives.
abbrev pub on_tx : {A : Type 0} → Cmd A → Thread → Call A
unfolding get_tx
on_tx c t = let (tx, t1) = get_tx t in back t1 (c (record { tx = tx; world = t1.world }))

-- `tanger_stm_save_restore_stack`; a jump is taken to come back to where it returns.
unfoldable pub save_restore_stack : Thread → Thread
unfolding get_tx
save_restore_stack t = (get_tx t).1

-- `_ITM_beginTransaction`; the result is a_runInstrumentedCode.
unfoldable pub begin_transaction : Thread → Call ℕ
begin_transaction t = then_call (on_tx Access.begin t) λ _ t1. returned 0x01 t1

-- `tanger_stm_thread_shutdown`
unfoldable pub thread_shutdown : Thread → Thread
thread_shutdown t = record t { key = none }

-- What `_ITM_commitTransaction` does when `commit` has returned: it counts and deletes the transaction.
abbrev pub retire : Thread → Thread
unfolding count_commit
retire t = record t { key = none; node_stats = count_commit (descriptor t.key).stats t.node_stats }

-- The body of a transactional block: its accesses to shared memory, and its result.
pub data Body (A : Type 0) : Type 0 where
  result : A → Body A
  loads : ℕ → (ℕ → Body A) → Body A
  stores : ℕ → ℕ → Body A → Body A

module _ (cfg : Config) where
  -- `tanger_stm_load64`
  unfoldable pub load : ℕ → Thread → Call ℕ
  load addr t = on_tx (read cfg addr) t

  -- `tanger_stm_store64`
  unfoldable pub store : ℕ → ℕ → Thread → Call (Unit {0})
  store addr value t = on_tx (write cfg addr value) t

  -- `_ITM_commitTransaction`
  unfoldable pub commit_transaction : Thread → Call (Unit {0})
  commit_transaction t = then_call (on_tx (commit cfg) t) λ _ t1. returned tt (retire t1)

  -- The instrumented body.
  unfoldable pub run_body : {A : Type 0} → Body A → Thread → Call A
  unfolding load store
  run_body (result a) t = returned a t
  run_body (loads addr k) t = then_call (load addr t) λ v t1. run_body (k v) t1
  run_body (stores addr value b) t = then_call (store addr value t) λ _ t1. run_body b t1

  -- From the checkpoint to the end of the block.
  unfoldable pub attempt : {A : Type 0} → Body A → Thread → Call A
  unfolding begin_transaction run_body commit_transaction
  attempt b t = then_call (begin_transaction t) λ _ t1.
      then_call (run_body b t1) λ a t2. then_call (commit_transaction t2) λ _ t3. returned a t3

  -- From the checkpoint, with at most `tries` arrivals there. A jump is taken to come back with the locals as they
  -- were, as the code means it to; its target frame has returned by then, which C leaves undefined.
  unfoldable pub attempts : {A : Type 0} → ℕ → Body A → Thread → Call A
  unfolding attempt
  attempts zero b t = unfinished
  attempts (suc tries) b t = elim (attempt b t) [
    | returned a t1 ↦ returned a t1
    | jumped r t1 ↦ attempts tries b t1
    | unfinished ↦ unfinished
  ]

  -- A transactional block, with at most `tries` attempts.
  unfoldable pub atomic : {A : Type 0} → ℕ → Body A → Thread → Call A
  unfolding attempts save_restore_stack
  atomic tries b t = attempts tries b (save_restore_stack t)
