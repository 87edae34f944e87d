-- ===== src/Tx/Commit.antt =====
-- `commit` and its steps, and `rollback`.
use dstm_p.Common.{
  ℕ, zero, suc, ◌+◌, ◌-◌, ◌*◌, ◌^◌, Bool, true, false, none, some, List, [], ◌∷◌, ◌==◌,
  if◌then◌else◌, length, get_or, set, take, replicate, contains, find, insert, ltb,
}
use dstm_p.Timestamp.{node_from_address, addr_from_address, new_version}
use dstm_p.MemMgr.{cdu_size, object_lock_addr}
use dstm_p.Locks.{request_locks_handler, locks_request_processed}
use dstm_p.Stats.{abort_explicit, abort_readset_val, abort_grabbing_locks}
use dstm_p.Tx.State.{
  tx_committed, Entries, Config, ok, out_of_rounds, Cmd, pure, ◌>>=◌, ◌>>◌, this, update,
  clear_write_set, clear_read_set, abort, put, add_version, get_next_clock,
}
use dstm_p.Tx.Validate.{validate_all}

-- maxRequestedLocksPerNode
abbrev pub max_requested : ℕ
max_requested = 10

-- (2 * maxRequestedLocksPerNode + 2) * sizeof(uint64_t)
abbrev pub request_bytes : ℕ
request_bytes = (2 * max_requested + 2) * 8

-- objects_versions_array: the request to each node.
abbrev pub Requests : Type 0
Requests = List (ℕ × List ℕ)

module _ (cfg : Config) where
  -- The request for a node: the one begun, or a new one, all zero but for the transaction.
  abbrev pub request_for : ℕ → Requests → List ℕ
  request_for node rs = elim (find node rs) [
    | some objvers ↦ objvers
    | none ↦ set (replicate (2 * max_requested + 2) 0) 0 cfg.self
  ]

  -- An object and its version put into a request, and counted.
  unfoldable pub add_object : ℕ → ℕ → List ℕ → List ℕ
  add_object block ts objvers =
      let count = get_or objvers 1 0 in
      set (set (set objvers (count + 2) (addr_from_address block)) (count + max_requested + 2) ts) 1
        (count + 1)

  -- The inner loop of `getLocks`: requests, until one is full, and the entries left.
  unfoldable pub collect : Entries → Requests → Requests × Entries
  unfolding add_object
  collect [] rs = (rs, [])
  collect ((block, entry) ∷ es) rs =
      let node = node_from_address block in
      let objvers = add_object block entry.ts (request_for node rs) in
      let rs' = insert node objvers rs in
      let rest = collect es rs' in if get_or objvers 1 0 == max_requested then (rs', es) else rest

  -- `requestLocks` to a node, its handler there, and the reply's handler here.
  unfoldable pub request : ℕ → List ℕ → Cmd (Unit {0})
  unfolding request_locks_handler locks_request_processed
  request node objvers s =
      let w = s.world in
      let (answer, m) =
        request_locks_handler cfg.gasnet cfg.mgr cfg.env node objvers request_bytes
          (record { seg = w.seg; now = w.now }) in
      let t = s.tx in
      ok tt (record {
        tx = record t {
          rl_nodes = t.rl_nodes + 1;
          rl_changed_objects = locks_request_processed answer t.rl_changed_objects;
        };
        world = record w { seg = m.seg; now = m.now };
      })

  -- All requests of a round.
  unfoldable pub request_all : Requests → Cmd (Unit {0})
  unfolding request
  request_all [] = pure tt
  request_all ((node, objvers) ∷ rs) = do request node objvers; request_all rs

  -- The wait for as many replies as a round has requests: `rlNodes` counts them, and with one missing the
  -- thread waits forever.
  unfoldable pub wait_replies : ℕ → Cmd (Unit {0})
  wait_replies n s = if ltb s.tx.rl_nodes n then out_of_rounds else ok tt s

  -- The body of the loop of `releaseLocks`: the version of an object that is not among the changed
  -- ones goes back to its lock.
  unfoldable pub restore : ℕ → ℕ → List ℕ → Cmd (Unit {0})
  unfolding object_lock_addr
  restore block ts changed =
      if contains block changed
      then pure tt
      else put cfg (node_from_address block) (addr_from_address (object_lock_addr cfg.mgr block))
          (λ _. ts) 8

  unfoldable pub restore_all : Entries → Cmd (Unit {0})
  unfolding restore
  restore_all [] = pure tt
  restore_all ((block, entry) ∷ es) = do
    t ← this
    restore block entry.ts t.rl_changed_objects
    restore_all es

  -- `releaseLocks(it_end)`, given the entries before `it_end`.
  unfoldable pub release_locks : Entries → Cmd (Unit {0})
  unfolding restore_all
  release_locks es = do restore_all es; update λ t. record t { rl_changed_objects = [] }

  -- With CACHE, after `releaseLocks`: the sent version of each object that is then among the changed
  -- ones goes to the cache.
  unfoldable pub cache_changed : List ℕ → Cmd (Unit {0})
  cache_changed [] = pure tt
  cache_changed (block ∷ blocks) = do
    t ← this
    elim (find block t.write_set) [ some e ↦ add_version cfg block e.ts | none ↦ pure tt ]
    cache_changed blocks

  -- What `getLocks` does when an object has changed; `left` are the entries not asked for.
  unfoldable pub give_up : Entries → Cmd Bool
  unfolding release_locks cache_changed
  give_up left = do
    t ← this
    release_locks (take (length t.write_set - length left) t.write_set)
    t' ← this
    cache_changed t'.rl_changed_objects
    update λ t. record t { rl_changed_objects = [] }
    pure false

  -- The outer loop of `getLocks`, with fuel, over the entries left.
  unfoldable pub lock_rounds : ℕ → Entries → Cmd Bool
  unfolding collect request_all wait_replies give_up
  lock_rounds zero es = λ s. out_of_rounds
  lock_rounds (suc fuel) [] = pure true
  lock_rounds (suc fuel) (e ∷ es) = do
    let (requests, left) = collect (e ∷ es) []
    update λ t. record t { rl_nodes = 0 }
    request_all requests
    wait_replies (length requests)
    t ← this
    elim t.rl_changed_objects [ [] ↦ lock_rounds fuel left | b ∷ bs ↦ give_up left ]

  -- `getLocks`. Each round asks for at least one entry.
  unfoldable pub get_locks : Cmd Bool
  unfolding lock_rounds
  get_locks = do t ← this; lock_rounds (length t.write_set + 1) t.write_set

  -- `commitWriteSetValues`
  unfoldable pub put_values : Entries → Cmd (Unit {0})
  put_values [] = pure tt
  put_values ((block, entry) ∷ es) = do
    put cfg (node_from_address block) (addr_from_address block) entry.cell (2 ^ cdu_size)
    put_values es

  -- The loop of `releaseLocksWithNewClock`, and the whole.
  unfoldable pub put_versions : ℕ → Entries → Cmd (Unit {0})
  unfolding object_lock_addr
  put_versions version [] = pure tt
  put_versions version ((block, entry) ∷ es) = do
    put cfg (node_from_address block) (addr_from_address (object_lock_addr cfg.mgr block))
        (λ _. version) 8
    add_version cfg block version
    put_versions version es

  unfoldable pub release_locks_with_new_clock : Cmd (Unit {0})
  unfolding put_versions new_version
  release_locks_with_new_clock = do
    new_clock ← get_next_clock cfg
    t ← this
    put_versions (new_version cfg.gasnet.mynode new_clock) t.write_set

  abbrev pub is_empty : Entries → Bool
  is_empty [] = true
  is_empty (e ∷ es) = false

  -- `commit`, from the write of the values on.
  unfoldable pub publish : Cmd Bool
  unfolding put_values release_locks_with_new_clock
  publish = do
    t ← this
    put_values t.write_set
    release_locks_with_new_clock
    clear_write_set
    clear_read_set
    update λ t. record t { status = tx_committed }
    pure true

  -- `commit`, when `validateAll` fails.
  unfoldable pub reject : Cmd Bool
  unfolding release_locks
  reject = do
    t ← this
    if is_empty t.write_set then pure tt else release_locks t.write_set
    abort abort_readset_val

  -- `commit`, once the locks are held.
  unfoldable pub finish : Cmd Bool
  unfolding validate_all publish reject
  finish = do good ← validate_all cfg; if good then publish else reject

  unfoldable pub commit : Cmd Bool
  unfolding get_locks finish
  commit = do
    t ← this
    locked ← if is_empty t.write_set then pure true else get_locks
    if locked then finish else abort abort_grabbing_locks

  -- `rollback`
  unfoldable pub rollback : Cmd (Unit {0})
  rollback = abort abort_explicit
