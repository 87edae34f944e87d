-- ===== src/Interface/Tests.antt =====
-- A transactional block over objects of two nodes.
use dstm_p.Common.{ℕ, ◌+◌, ◌^◌, ◌≡◌, refl, true, none, arith, List, [], ◌∷◌, find, insert, erase}
use dstm_p.Timestamp.{is_timestamp_greater, is_timestamps_equivalent}
use dstm_p.Network.{flat}
use dstm_p.MemMgr.{MemMgr, locks_base, objects_base, init}
use dstm_p.Cache.{get_cached_version, fetch, copy_cell}
use dstm_p.Stats.{NodeStats, zero_stats}
use dstm_p.Tx.State.{Config, read_cell, add_version, increase_clock, get_next_clock}
use dstm_p.Tx.Access
use dstm_p.Tx.Access.{read, write, block_lb}
use dstm_p.Tx.Validate.{validate}
use dstm_p.Tx.Commit.{commit}
use dstm_p.Tx.Sim.{IsWord}
use dstm_p.Interface.{
  Thread, Call, returned, jumped, unfinished, Body, result, loads, stores, attempt, atomic, retire,
}
use dstm_p.Tx.Alone.{IsAlone, Older}
use dstm_p.Interface.Alone.{Comes, atomic_alone}
use dstm_p.Interface.Runs.{Attempted}
use dstm_p.Interface.Serial.{Executed, Outside, attempt_serial}

abbrev mgr : MemMgr
mgr = record { locks_addr = 0x10000 ∷ 0x20000 ∷ []; objects_addr = 0x210040 ∷ 0x220040 ∷ [] }

abbrev cfg : Config
cfg = record {
  gasnet = flat 0;
  mgr = mgr;
  cache = true;
  fresh = record { ts = 0; cell = λ _. 0xdead };
  env = λ _ s. s;
  env_clock = λ _ c. c;
  env_versions = λ _ m. m;
  rounds = 2;
  self = 0x7000;
}

abbrev idle_stats : NodeStats
idle_stats = record { total_txs = 0; total_txs_stats = zero_stats }

abbrev start : Thread
start = record {
  key = none;
  world = record { seg = λ _ _. 0; clock = 3; versions = []; now = 0 };
  node_stats = idle_stats;
}

abbrev there : ℕ
there = 2 ^ 48 + 0x220080

-- Moves a word of the one object, and one more, to the other.
abbrev block : Body ℕ
block = loads 0x210048 λ v.
    stores there (v + 5) (stores 0x210048 9 (loads there λ w. loads 0x210048 λ x. result (w + x)))

abbrev outcome : Call ℕ → List ℕ
outcome (returned a t) =
    a ∷ t.world.seg 0 0x210048 ∷ t.world.seg 1 0x220080 ∷ t.node_stats.total_txs ∷ []
outcome (jumped r t) = 1000 ∷ r ∷ []
outcome unfinished = []

run_block : outcome (atomic cfg 1 block start) ≡ 14 ∷ 9 ∷ 5 ∷ 1 ∷ []
unfolding atomic Access.begin read write commit is_timestamp_greater is_timestamps_equivalent find
    insert read_cell fetch add_version increase_clock validate get_next_clock copy_cell erase retire
run_block = refl

abbrev segs : List ℕ
segs = 0x10000 ∷ 0x20000 ∷ []

there-IsWord : IsWord segs there
unfolding objects_base locks_base
there-IsWord = record {
  object = record {
    unlocked = omega arith;
    known = omega arith;
    low = omega arith;
    above = omega arith;
    below = omega arith;
    aligned = omega arith;
  };
  aligned = omega arith;
}

here-IsWord : IsWord segs 0x210048
unfolding objects_base locks_base
here-IsWord = record {
  object = record {
    unlocked = omega arith;
    known = omega arith;
    low = omega arith;
    above = omega arith;
    below = omega arith;
    aligned = omega arith;
  };
  aligned = omega arith;
}

attempt_serial_example :
    Attempted
      (Executed segs block start.world.seg idle_stats)
      (Outside segs start.world.seg idle_stats)
      (attempt cfg block start)
unfolding init objects_base locks_base
attempt_serial_example =
    attempt_serial cfg segs 0 start.world.seg start.world.seg block start (λ u m. refl)
      (λ u c. refl) (omega arith) refl
      (here-IsWord, (there-IsWord, (here-IsWord, (there-IsWord, (here-IsWord, tt)))))
      ((λ b o ib lt. refl, refl, refl), refl)

start-IsAlone : IsAlone cfg
start-IsAlone = record {
  quiet = λ u m. refl;
  calm = λ u c. refl;
  still = λ u vs. refl;
  some_rounds = omega arith;
}

start-Older : Older cfg segs start.world.seg start.world.versions
unfolding find get_cached_version
start-Older b ib = (refl, omega arith)

atomic_alone_example :
    Comes (Executed segs block start.world.seg idle_stats) (atomic cfg 1 block start)
unfolding init objects_base locks_base
atomic_alone_example =
    atomic_alone cfg segs 0 start.world.seg 0 block start start-IsAlone refl (λ b ib. refl)
      start-Older (here-IsWord, (there-IsWord, (here-IsWord, (there-IsWord, (here-IsWord, tt)))))
      refl
