-- ===== src/Tx/Tests.antt =====
-- Runs of transactions, on one node and on two.
use dstm_p.Common.{
  All, map, ℕ, ◌+◌, ◌^◌, ◌<◌, ◌≡◌, refl, true, some, arith, List, [], ◌∷◌, find, insert,
}
use dstm_p.Timestamp.{
  new_version, node_from_address, addr_from_address, is_timestamp_greater, is_timestamps_equivalent,
}
use dstm_p.Network.{flat}
use dstm_p.MemMgr.{MemMgr, cdu_size, locks_base, objects_base, init, object_lock_addr}
use dstm_p.Cache.{fetch, copy_cell}
use dstm_p.Tx.Validate.{validate}
use dstm_p.Stats.{zero_stats}
use dstm_p.Tx.State.{
  tx_idle, Entry, Config, State, Run, ok, aborted, out_of_rounds, Cmd, read_cell, add_version,
  increase_clock, get_next_clock, pure, ◌>>=◌, ◌>>◌,
}
use dstm_p.Tx.Access.{begin, read, write}
use dstm_p.Tx.Commit.{commit, finish}
use dstm_p.Tx.Frame.{Ends}
use dstm_p.Tx.Hidden.{access_hidden}
use dstm_p.Tx.Own.{read-write}
use dstm_p.Tx.Again.{read-read}
use dstm_p.Tx.Placed.{IsObject, word_of}
use dstm_p.Tx.Publish.{finish_writes}
use dstm_p.Tx.Checked.{Passed, finish-Passed}
use dstm_p.Tx.Completes.{Completes, commit-Completes}
use dstm_p.Tx.Atomic.{Overlaid, Restored, commit_atomic}

abbrev mgr : MemMgr
mgr = record { locks_addr = 0x10000 ∷ 0x20000 ∷ []; objects_addr = 0x210040 ∷ 0x220040 ∷ [] }

abbrev cfg : Config
cfg = record {
  gasnet = flat 0;
  mgr = mgr;
  cache = true;
  fresh = record { ts = 0; cell = λ _. 0xdead };
  env = λ _ s. s;
  env_clock = λ _ c. c;
  env_versions = λ _ m. m;
  rounds = 2;
  self = 0x7000;
}

abbrev start : State
start = record {
  tx = record {
    status = tx_idle;
    read_set = [];
    write_set = [];
    vc = λ _. 0;
    rl_nodes = 0;
    rl_changed_objects = [];
    stats = zero_stats;
  };
  world = record { seg = λ _ _. 0; clock = 3; versions = []; now = 0 };
}

abbrev there : ℕ
there = 2 ^ 48 + 0x220080

abbrev state_of : {A : Type 0} → Run A → State
state_of (ok a s) = s
state_of (aborted r s) = s
state_of out_of_rounds = start

-- Two objects, one on each node; what is read back, and the words that a commit leaves.
abbrev program : Cmd ℕ
program = do
  begin
  write cfg 0x210048 5
  write cfg there 7
  a ← read cfg 0x210048
  b ← read cfg (there + 8)
  commit cfg
  pure (a + b)

abbrev outcome : Run ℕ → List ℕ
outcome (ok a s) =
    a
    ∷ s.world.clock
    ∷ s.world.seg 0 0x210048
    ∷ s.world.seg 1 0x220080
    ∷ s.world.seg 0 0x10000
    ∷ s.world.seg 1 0x20008
    ∷ []
outcome (aborted r s) = 1000 ∷ r ∷ []
outcome out_of_rounds = []

run_program : outcome (program start) ≡ 5 ∷ 4 ∷ 5 ∷ 7 ∷ 4 ∷ 4 ∷ []
unfolding begin read write commit is_timestamp_greater is_timestamps_equivalent find insert
    read_cell fetch add_version increase_clock validate get_next_clock copy_cell
run_program = refl

-- A run inside a transaction, up to the read of node 1's object.
abbrev written : State
written = state_of (write cfg there 7 start)

read-write_example : read cfg there written ≡ ok 7 written
unfolding write find insert read_cell fetch add_version increase_clock validate copy_cell
    is_timestamp_greater is_timestamps_equivalent
read-write_example = read-write cfg there 7 start written refl

access_hidden_example :
    Ends
      (λ s. s.world.seg ≡ start.world.seg)
      (λ s. s.world.seg ≡ start.world.seg)
      (read cfg there start)
    × Ends
        (λ s. s.world.seg ≡ start.world.seg)
        (λ s. s.world.seg ≡ start.world.seg)
        (write cfg there 7 start)
access_hidden_example = access_hidden cfg there 7 start (λ t m. refl)

abbrev segs : List ℕ
segs = 0x10000 ∷ 0x20000 ∷ []

there-IsObject : IsObject segs there
unfolding objects_base locks_base
there-IsObject = record {
  unlocked = omega arith;
  known = omega arith;
  low = omega arith;
  above = omega arith;
  below = omega arith;
  aligned = omega arith;
}

abbrev finished : State
finished = state_of (finish cfg written)

finish_writes_example :
    ((b o : ℕ)
      → IsObject segs b
      → o < 2 ^ cdu_size
      → finished.world.seg (node_from_address b) (addr_from_address b + o)
        ≡ word_of
            (find b written.tx.write_set)
            o
            (written.world.seg (node_from_address b) (addr_from_address b + o)))
    × ((b : ℕ) (e : Entry)
        → find b written.tx.write_set ≡ some e
        → finished.world.seg (node_from_address b) (addr_from_address (object_lock_addr mgr b))
          ≡ new_version 0 finished.world.clock)
unfolding finish write find insert read_cell fetch add_version increase_clock validate copy_cell
    is_timestamp_greater is_timestamps_equivalent init objects_base locks_base get_next_clock
finish_writes_example =
    finish_writes cfg segs 0 start.world.seg written finished true (λ t m. refl) refl
      (there-IsObject, tt) (refl, tt) refl

commit_atomic_example :
    Ends
      (Overlaid segs written.world.seg written.tx.write_set)
      (Restored segs written.world.seg)
      (commit cfg written)
unfolding write find insert read_cell fetch add_version increase_clock validate copy_cell
    is_timestamp_greater is_timestamps_equivalent init objects_base locks_base
commit_atomic_example =
    commit_atomic cfg segs 0 start.world.seg written (λ t m. refl) refl (there-IsObject, tt)
      (refl, tt)

commit-Completes_example : Completes (commit cfg written)
commit-Completes_example = commit-Completes cfg written (λ t c. refl) (omega arith)

-- After a read of an object of node 0.
abbrev looked : State
looked = state_of (read cfg 0x210048 written)

read-read_example : read cfg 0x210048 looked ≡ ok 0 looked
unfolding read find insert read_cell fetch add_version increase_clock validate copy_cell
    is_timestamp_greater is_timestamps_equivalent write
read-read_example = read-read cfg 0x210048 0 written looked refl

-- Both sets are not empty.
finish-Passed_example : All (Passed cfg looked.world) looked.tx.read_set
unfolding finish write read find insert read_cell fetch add_version increase_clock validate
    copy_cell is_timestamp_greater is_timestamps_equivalent init objects_base locks_base
    get_next_clock dstm_p.Tx.State.get_cached dstm_p.Tx.State.get_version
finish-Passed_example = finish-Passed cfg looked (state_of (finish cfg looked)) true refl

looked_at : map (λ (p : ℕ × Entry). p.0) looked.tx.read_set ≡ 0x210040 ∷ []
unfolding write read find insert read_cell fetch add_version increase_clock validate copy_cell
    is_timestamp_greater is_timestamps_equivalent
looked_at = refl
