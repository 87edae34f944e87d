-- ===== src/Locks.antt =====
-- Lock requests: `processLocksRequest` of src/glue.cpp and the two handlers of src/gasnet_handlers.cpp
-- that carry them. A request is an array of 64-bit words: the transaction, the number of objects,
-- then as many addresses and as many versions as the array has room for.
pub mod Grant
mod Tests
use dstm_p.Common.{
  ℕ, zero, suc, ◌+◌, ◌-◌, ◌*◌, ◌/◌, ◌%◌, ◌^◌, Bool, true, false, not, ◌||◌, List, [], ◌∷◌, ◌++◌,
  length, get_or, take, drop, ltb, if◌then◌else◌, bit_or,
}
use dstm_p.Timestamp.{to_node_ts, locked_word}
use dstm_p.Network.{Segments, store, Gasnet}
use dstm_p.MemMgr.{MemMgr, object_lock_addr_at}

-- Memory as a thread goes on: its contents, and the number of the next access to it.
pub record Mem : Type 0 where
  pub seg : Segments
  pub now : ℕ

-- The array that `processLocksRequest` returns; its first word is left to the handler.
abbrev pub changed_array : List ℕ → List ℕ
changed_array [] = []
changed_array (x ∷ xs) = 0 ∷ length (x ∷ xs) ∷ x ∷ xs

-- What the handler replies to a request `buf`: the result, with the transaction as first word.
abbrev pub reply : List ℕ → List ℕ → List ℕ × ℕ
reply buf [] = (take 1 buf, 0)
reply buf (x ∷ xs) = (get_or buf 0 0 ∷ xs, get_or xs 0 0)

module _ (g : Gasnet) (mgr : MemMgr) (env : ℕ → Segments → Segments) where
  -- One object of a request that node `me` serves: whether its lock is refused, and memory. Before
  -- the load and before the compare-and-swap others may act, by `env`.
  unfoldable pub grant : ℕ → ℕ → ℕ → Mem → Bool × Mem
  grant me obj_addr current_version m =
      let lock = object_lock_addr_at mgr obj_addr me in
      let s1 = env m.now m.seg in
      let lock_val_old = s1 me lock in
      let lock_val_new = locked_word current_version in
      let s2 = env (m.now + 1) s1 in
      let (swapped, word) = g.cas (s2 me lock) lock_val_old lock_val_new in
      if ltb current_version lock_val_old
      then (true, record { seg = s1; now = m.now + 1 })
      else (if swapped
          then (false, record { seg = store s2 me lock word; now = m.now + 2 })
          else (true, record { seg = s2; now = m.now + 2 }))

  -- The loop of `processLocksRequest`, with the objects left to do: the changed objects, in order.
  unfoldable pub grant_all : ℕ → List ℕ → ℕ → ℕ → ℕ → Mem → List ℕ × Mem
  unfolding grant
  grant_all me objects_versions objects_num zero current m = ([], m)
  grant_all me objects_versions objects_num (suc left) current m =
      let obj_addr = get_or objects_versions (current + 2) 0 in
      let (refused, m') =
        grant me obj_addr (get_or objects_versions (objects_num + current + 2) 0) m in
      let (changed, m'') = grant_all me objects_versions objects_num left (current + 1) m' in
      (if refused then bit_or obj_addr (to_node_ts me) ∷ changed else changed, m'')

  -- `processLocksRequest`: `[]` for NULL, or else the reply array, with a word left for the handler.
  unfoldable pub process_locks_request : ℕ → List ℕ → ℕ → Mem → List ℕ × Mem
  unfolding grant_all
  process_locks_request me objects_versions nbytes m =
      let objects_num = (nbytes - 2 * 8) / 16 in
      let (changed, m') =
        grant_all me objects_versions objects_num (get_or objects_versions 1 0) 0 m in
      (changed_array changed, m')

  -- `requestlocks_medhandler`: the reply's array and its argument `nobjs`. Without refusals the
  -- request itself goes back, cut to its first word.
  unfoldable pub request_locks_handler : ℕ → List ℕ → ℕ → Mem → (List ℕ × ℕ) × Mem
  unfolding process_locks_request
  request_locks_handler me buf nbytes m =
      let (result, m') = process_locks_request me buf nbytes m in (reply buf result, m')

-- `requestlocks_succ_medhandler` and `DSTMTransaction::locksRequestProcessed`: the objects behind
-- the first two words join the transaction's changed objects. The reply is counted where the request is
-- made (Tx.Commit.request).
unfoldable pub locks_request_processed : List ℕ × ℕ → List ℕ → List ℕ
locks_request_processed (buf, nobjs) rl_changed_objects =
    rl_changed_objects ++ take nobjs (drop 2 buf)
