-- ===== src/IntSet/Tests.antt =====
-- A set with the values 5 and 7, over objects of two nodes.
use dstm_p.Common.{
  ℕ, Bool, ◌+◌, ◌*◌, ◌^◌, ◌%◌, ◌≤◌, ◌<◌, ◌≡◌, refl, true, false, Option, none, some, arith, List,
  [], ◌∷◌, ◌==◌, ltb, leb, lt→ltb, get_or, zero, suc, ap, ◌∙◌, false, find, insert, erase, not,
  ◌&&◌, if◌then◌else◌,
}
use dstm_p.Timestamp.{node_from_address, addr_from_address}
use dstm_p.Tx.Access.{block_lb}
use dstm_p.MemMgr.{MemMgr, object_lock_addr_at, locks_base, objects_base, init}
use dstm_p.Network.{Segments, flat}
use dstm_p.Tx.Sim.{IsWord}
use dstm_p.Interface.Blocks.{Plain, Ensures, Agrees}
use dstm_p.Stats.{zero_stats, count_commit}
use dstm_p.Timestamp.{is_timestamp_greater, is_timestamps_equivalent}
use dstm_p.Cache.{fetch, copy_cell}
use dstm_p.Tx.State.{
  read_cell, add_version, increase_clock, get_next_clock, get_cached, get_version,
}
use dstm_p.Tx.Access
use dstm_p.Tx.Access.{read, write}
use dstm_p.Tx.Validate.{validate}
use dstm_p.Tx.Commit.{commit}
use dstm_p.Interface.{Thread, Call, returned, jumped, unfinished, atomic}
use dstm_p.Interface.Alone.{Comes}
use dstm_p.MemMgr.Layout.{lock_in_table, lock_addr_split}
use dstm_p.Tx.Placed.{IsObject}
use dstm_p.Cache.{get_cached_version}
use dstm_p.Tx.Alone.{IsAlone, lock_of}
use dstm_p.Tx.State.{Config}
use dstm_p.IntSet.Calls.{set_add, set_remove}
use dstm_p.IntSet.Shared.{Holds, HasValues, set_remove_alone}
use dstm_p.IntSet.Stress.{Worker, Draw, check_size, expected, rounds_expected}
use dstm_p.IntSet.{int_min, int_max, init_node, add, set_size}
use dstm_p.IntSet.Chain.{Cells, has, Node, IsIntSet}
use dstm_p.IntSet.Link.{IsNew}
use dstm_p.IntSet.Ops.{set_size-Ensures}
use dstm_p.IntSet.History.{adding, removing, asking, perform_all, after_all, perform_all-Ensures}

abbrev segs : List ℕ
segs = 0x10000 ∷ 0x20000 ∷ []

abbrev mgr : MemMgr
mgr = record { locks_addr = 0x10000 ∷ 0x20000 ∷ []; objects_addr = 0x210040 ∷ 0x220040 ∷ [] }

abbrev cfg : Config
cfg = record {
  gasnet = flat 0;
  mgr = mgr;
  cache = true;
  fresh = record { ts = 0; cell = λ _. 0xdead };
  env = λ _ s. s;
  env_clock = λ _ c. c;
  env_versions = λ _ m. m;
  rounds = 2;
  self = 0x7000;
}

-- The set, its ends, two nodes and a new one.
abbrev set0 : ℕ
set0 = 0x210040

abbrev mn0 : ℕ
mn0 = 0x210080

abbrev mx0 : ℕ
mx0 = 0x210090

abbrev n5 : ℕ
n5 = 2 ^ 48 + 0x220040

abbrev n7 : ℕ
n7 = 0x2100c0

abbrev n6 : ℕ
n6 = 2 ^ 48 + 0x220080

abbrev cells : Cells
cells = (n5, 5) ∷ (n7, 7) ∷ []

abbrev two : Plain
two a =
    if a == set0
    then mn0
    else if a == mn0
    then int_min
    else if a == mn0 + 8
    then n5
    else if a == n5
    then 5
    else if a == n5 + 8
    then n7
    else if a == n7
    then 7
    else if a == n7 + 8
    then mx0
    else if a == mx0
    then int_max
    else 0

IsWord-here : (a : ℕ) → 0x210040 ≤ a → a < 0x220000 → a % 8 ≡ 0 → IsWord segs a
unfolding objects_base locks_base
IsWord-here a low high aligned =
    let node : node_from_address (block_lb a) ≡ 0 = omega arith in
    record {
      object = record {
        unlocked = omega arith;
        known = omega arith;
        low = rw node (omega arith);
        above = rw node (omega arith);
        below = rw node (omega arith);
        aligned = omega arith;
      };
      aligned = aligned;
    }

IsWord-there : (a : ℕ) → 2 ^ 48 + 0x220040 ≤ a → a < 2 ^ 48 + 0x230000 → a % 8 ≡ 0 → IsWord segs a
unfolding objects_base locks_base
IsWord-there a low high aligned =
    let node : node_from_address (block_lb a) ≡ 1 = omega arith in
    record {
      object = record {
        unlocked = omega arith;
        known = omega arith;
        low = rw node (omega arith);
        above = rw node (omega arith);
        below = rw node (omega arith);
        aligned = omega arith;
      };
      aligned = aligned;
    }

Node-here : (a : ℕ) → 0x210040 ≤ a → a + 8 < 0x220000 → a % 8 ≡ 0 → Node (IsWord segs) a
Node-here a low high aligned = (
  IsWord-here a low (omega arith) aligned,
  IsWord-here (a + 8) (omega arith) (omega arith) (omega arith),
  omega arith,
)

Node-there :
    (a : ℕ) → 2 ^ 48 + 0x220040 ≤ a → a + 8 < 2 ^ 48 + 0x230000 → a % 8 ≡ 0 → Node (IsWord segs) a
Node-there a low high aligned = (
  IsWord-there a low (omega arith) aligned,
  IsWord-there (a + 8) (omega arith) (omega arith) (omega arith),
  omega arith,
)

two-IsIntSet : IsIntSet (IsWord segs) two set0 mn0 mx0 cells
two-IsIntSet = record {
  set_word = IsWord-here set0 (omega arith) (omega arith) (omega arith);
  first = Node-here mn0 (omega arith) (omega arith) (omega arith);
  head = refl;
  first_value = refl;
  chain = (
    refl,
    Node-there n5 (omega arith) (omega arith) (omega arith),
    refl,
    (
      refl,
      Node-here n7 (omega arith) (omega arith) (omega arith),
      refl,
      (refl, Node-here mx0 (omega arith) (omega arith) (omega arith), refl, refl),
    ),
  );
  apart = omega arith;
  off = omega arith;
  rising = omega arith;
}

n6-IsNew : IsNew (IsWord segs) n6 set0 mn0 mx0 cells
n6-IsNew = record {
  node = Node-there n6 (omega arith) (omega arith) (omega arith);
  away = omega arith;
  off_set = omega arith;
}

-- The memory of the nodes with that set, and a thread.
memory : Segments
memory n x =
    if leb (0x210040 + n * 0x10000) x then (if ltb n 2 then two (n * 2 ^ 48 + x) else 0) else 0

memory_low : (n x : ℕ) → x < 0x210040 + n * 0x10000 → memory n x ≡ 0
unfolding memory
memory_low n x h =
    let below : leb (0x210040 + n * 0x10000) x ≡ false = ground arith in rw below refl

memory_high : (n x : ℕ) → n < 2 → 0x210040 + n * 0x10000 ≤ x → memory n x ≡ two (n * 2 ^ 48 + x)
unfolding memory
memory_high n x known h =
    let above : leb (0x210040 + n * 0x10000) x ≡ true = ground arith in
    rw (above, lt→ltb n 2 known) refl

-- Where the tables end and the objects begin.
tables :
    (n : ℕ)
    → n < 2
    → (locks_base (get_or segs n 0) + 2 ^ 18 * 8 ≤ 0x210040 + n * 0x10000)
      × (0x210040 + n * 0x10000 ≤ objects_base (get_or segs n 0))
unfolding objects_base locks_base
tables zero h = omega arith
tables (suc zero) h = omega arith
tables (suc (suc n)) h = absurd (omega arith)

-- The locks are free.
lock_zero : (b : ℕ) → IsObject segs b → lock_of mgr memory b ≡ 0
unfolding init objects_base locks_base
lock_zero b ib =
    let split =
      lock_addr_split segs 0 memory (node_from_address b) ib.known b refl ib.low ib.above
        ib.below in
    let table =
      lock_in_table segs 0 memory (node_from_address b) ib.known b ib.low ib.above ib.below in
    memory_low (node_from_address b) _
      (omega (arith, split.0, table.1, (tables (node_from_address b) ib.known).0))

two-Agrees : Agrees segs memory two
two-Agrees a ia =
    let small : a < 2 ^ 63 = omega (arith, ia.object.unlocked) in
    let node : node_from_address a ≡ node_from_address (block_lb a) = omega arith in
    let whole : node_from_address a * 2 ^ 48 + addr_from_address a ≡ a = omega arith in
    memory_high (node_from_address a) (addr_from_address a) (rw node ia.object.known)
      (omega (arith, ia.object.above, (tables (node_from_address (block_lb a)) ia.object.known).1))
    ∙ ap two whole

abbrev holder : Thread
holder = record {
  key = none;
  world = record { seg = memory; clock = 3; versions = []; now = 0 };
  node_stats = record { total_txs = 0; total_txs_stats = zero_stats };
}

two-Holds : Holds segs set0 mn0 mx0 cells holder
two-Holds = ((two, two-IsIntSet, two-Agrees), refl)

cfg-IsAlone : IsAlone cfg
cfg-IsAlone = record {
  quiet = λ u m. refl;
  calm = λ u c. refl;
  still = λ u vs. refl;
  some_rounds = omega arith;
}

set_remove_alone_example :
    Comes
      (λ r t1. (r ≡ some true) × HasValues segs set0 mn0 mx0 (λ x. not (x == 5) && has x cells) t1)
      (set_remove cfg 1 4 set0 5 holder)
unfolding init objects_base locks_base find get_cached_version
set_remove_alone_example =
    set_remove_alone cfg segs 0 memory set0 mn0 mx0 0 4 5 cells holder cfg-IsAlone refl
      (λ b ib. rw (lock_zero b ib) refl) (λ b ib. (refl, omega arith)) (omega arith) (omega arith)
      two-Holds

perform_all-Ensures_example :
    Ensures
      (IsWord segs)
      (λ rs g.
        (rs ≡ some true ∷ some true ∷ some false ∷ [])
        × (ds : Cells) × IsIntSet (IsWord segs) g set0 mn0 mx0 ds
        × ((λ x. has x ds)
            ≡ after_all (adding 6 n6 0 ∷ removing 5 ∷ asking 5 ∷ []) (λ x. has x cells)))
      (perform_all 6 set0 (adding 6 n6 0 ∷ removing 5 ∷ asking 5 ∷ []))
      two
perform_all-Ensures_example =
    perform_all-Ensures (IsWord segs) 6 set0 mn0 mx0 (adding 6 n6 0 ∷ removing 5 ∷ asking 5 ∷ [])
      two cells two-IsIntSet (omega arith, n6-IsNew, (omega arith, (omega arith, tt))) (omega arith)

set_size-Ensures_example :
    Ensures (IsWord segs) (λ r g. (r ≡ some 3) × (g ≡ two)) (set_size 4 set0) two
set_size-Ensures_example =
    set_size-Ensures (IsWord segs) 4 two set0 mn0 mx0 cells two-IsIntSet (omega arith)

-- 6 is put between 5 and 7, through the transactions.
abbrev outcome : Call (Option Bool) → List ℕ
outcome (returned (some true) t) =
    1 ∷ t.world.seg 1 0x220048 ∷ t.world.seg 1 0x220080 ∷ t.world.seg 1 0x220088 ∷ []
outcome (returned r t) = 2 ∷ []
outcome (jumped r t) = 3 ∷ []
outcome unfinished = 4 ∷ []

run_set_add : outcome (set_add cfg 1 4 set0 6 n6 0 holder) ≡ 1 ∷ n6 ∷ 6 ∷ n7 ∷ []
unfolding set_add atomic Access.begin read write commit is_timestamp_greater
    is_timestamps_equivalent find insert read_cell fetch add_version increase_clock validate
    get_next_clock copy_cell erase count_commit memory add init_node object_lock_addr_at get_cached
    get_version
run_set_add = refl

-- Two threads: one adds 9, the other asks for 5.
abbrev worker : Worker
worker = record { last = none; nb_add = 0; nb_remove = 0; nb_contains = 0; nb_found = 0; diff = 0 }

abbrev schedule : List (ℕ × Draw)
schedule = (0, record { kind = 1; value = 8; node = n6; next = 0 }) ∷ []

rounds_expected_example :
    Ensures
      (IsWord segs)
      (λ r g. r.1 ≡ some (expected 3 r.0))
      (check_size 80 100 5 set0 schedule (worker ∷ worker ∷ []))
      two
rounds_expected_example =
    rounds_expected (IsWord segs) 80 100 5 set0 mn0 mx0 schedule (worker ∷ worker ∷ []) two cells
      (omega arith) (omega arith) two-IsIntSet (omega arith, n6-IsNew, tt) (omega arith)
      ((refl, refl), ((refl, refl), tt))
