-- ===== src/IntSet/Calls.antt =====
-- `set_add`, `set_remove` and `set_contains` of tests/intset/intset_my.c, called by a thread with `notx` 0, and
-- `dstm_free` as they call it.
use dstm_p.Common.{ℕ, Bool, true, false, Option, none, some}
use dstm_p.Malloc.Remote.{dstm_free}
use dstm_p.Tx.State.{Config}
use dstm_p.Interface.{Thread, Call, returned, then_call, atomic}
use dstm_p.IntSet.{init_node, add, remove, contains}

module _ (cfg : Config) where
  -- `dstm_free`, called by the thread.
  unfoldable pub free_node : ℕ → Thread → Thread
  free_node ptr t = elim (dstm_free cfg.gasnet.mynode ptr t.world.seg) [
    | some s ↦ record t { world = record t.world { seg = s } }
    | none ↦ t
  ]

  -- What `set_add` does with its node when the block is done.
  unfoldable pub keep_node : ℕ → Option Bool → Thread → Thread
  unfolding free_node
  keep_node n (some false) t = free_node n t
  keep_node n r t = t

  -- `set_add`, where `n` is the node that `dstm_malloc` gave and `next` the uninitialised variable.
  unfoldable pub set_add : (tries fuel set val n next : ℕ) → Thread → Call (Option Bool)
  unfolding keep_node
  set_add tries fuel set val n next t =
      then_call (atomic cfg tries (init_node n val next) t) λ _ t1.
        then_call (atomic cfg tries (add fuel set val n) t1) λ r t2. returned r (keep_node n r t2)

  -- What `set_remove` returns and frees when the block is done.
  unfoldable pub drop_node : Option (Bool × ℕ) → Thread → Call (Option Bool)
  unfolding free_node
  drop_node none t = returned none t
  drop_node (some (true, n)) t = returned (some true) (free_node n t)
  drop_node (some (false, n)) t = returned (some false) t

  unfoldable pub set_remove : (tries fuel set val : ℕ) → Thread → Call (Option Bool)
  unfolding drop_node
  set_remove tries fuel set val t =
      then_call (atomic cfg tries (remove fuel set val) t) λ r t1. drop_node r t1

  unfoldable pub set_contains : (tries fuel set val : ℕ) → Thread → Call (Option Bool)
  set_contains tries fuel set val t = atomic cfg tries (contains fuel set val) t
