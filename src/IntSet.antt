-- ===== src/IntSet.antt =====
-- tests/intset/intset_my.c: a set of integers as a sorted linked list in shared memory, between two nodes
-- with INT_MIN and INT_MAX. The atomic blocks of its operations, with the pointers that `dstm_malloc` gave as
-- arguments; the branches under `notx`, which nothing calls, are left out. An `intptr_t` is its bit pattern,
-- below 2 ^ 64; a loop over the list takes a number of rounds, and `none` means that there were too few.
pub mod Chain
pub mod Seek
pub mod Link
pub mod Unlink
pub mod Ops
pub mod Calls
pub mod History
pub mod Shared
pub mod Stress
mod Tests
use dstm_p.Common.{
  ℕ, zero, suc, ◌+◌, ◌-◌, ◌%◌, ◌^◌, Bool, true, false, Option, none, some, ltb, ◌==◌, if◌then◌else◌,
}
use dstm_p.Interface.{Body, result}
use dstm_p.Interface.Blocks.{◌>>=◌, ◌>>◌, load, store}

-- INT_MIN and INT_MAX as `intptr_t`.
abbrev pub int_min : ℕ
int_min = 2 ^ 64 - 2 ^ 31

abbrev pub int_max : ℕ
int_max = 2 ^ 31 - 1

-- The order of signed words, as numbers, and `<` on `intptr_t`.
abbrev pub key : ℕ → ℕ
key w = (w + 2 ^ 63) % 2 ^ 64

abbrev pub slt : ℕ → ℕ → Bool
slt a b = ltb (key a) (key b)

-- `&p->next`; `&p->val` is `p`, and `&set->head` is `set`.
abbrev pub next_at : ℕ → ℕ
next_at p = p + 8

-- The block of `new_node`.
unfoldable pub init_node : (node val next : ℕ) → Body (Unit {0})
init_node node val next = do store node val; store (next_at node) next

-- `set_new`, with the pointers to the set and to its two nodes.
unfoldable pub set_new : (set max min : ℕ) → Body (Unit {0})
unfolding init_node
set_new set max min = do init_node max int_max 0; init_node min int_min max; store set min

-- The loop that the three operations share: `prev`, `next` and `v` where it stops.
unfoldable pub seek : ℕ → (val prev next : ℕ) → Body (Option (ℕ × ℕ × ℕ))
seek zero val prev next = result none
seek (suc fuel) val prev next = do
  v ← load next
  let further = (do n ← load (next_at next); seek fuel val next n)
  if slt v val then further else result (some (prev, next, v))

-- `prev` and `next` at the start, and the loop.
unfoldable pub search_from : ℕ → (set val : ℕ) → Body (Option (ℕ × ℕ × ℕ))
unfolding seek
search_from fuel set val = do prev ← load set; next ← load (next_at prev); seek fuel val prev next

-- What `set_add` does behind the loop, with its new node.
unfoldable pub link : (val n : ℕ) → Option (ℕ × ℕ × ℕ) → Body (Option Bool)
link val n none = result none
link val n (some (prev, next, v)) =
    if v == val
    then result (some false)
    else (do store n val; store (next_at n) next; store (next_at prev) n; result (some true))

-- The block of `set_add`.
unfoldable pub add : ℕ → (set val n : ℕ) → Body (Option Bool)
unfolding search_from link
add fuel set val n = do found ← search_from fuel set val; link val n found

-- What `set_remove` does behind the loop: whether the value was there, and the node to free.
unfoldable pub unlink : ℕ → Option (ℕ × ℕ × ℕ) → Body (Option (Bool × ℕ))
unlink val none = result none
unlink val (some (prev, next, v)) =
    if v == val
    then (do
      n ← load (next_at next)
      store (next_at prev) n
      store next 123456789
      store (next_at next) next
      result (some (true, next)))
    else result (some (false, next))

-- The block of `set_remove`.
unfoldable pub remove : ℕ → (set val : ℕ) → Body (Option (Bool × ℕ))
unfolding search_from unlink
remove fuel set val = do found ← search_from fuel set val; unlink val found

-- What `set_contains` answers behind the loop, and its block.
abbrev pub is_there : ℕ → Option (ℕ × ℕ × ℕ) → Option Bool
is_there val none = none
is_there val (some (prev, next, v)) = some (v == val)

unfoldable pub contains : ℕ → (set val : ℕ) → Body (Option Bool)
unfolding search_from
contains fuel set val = do found ← search_from fuel set val; result (is_there val found)

-- The loop of `set_size`, and the accesses of the whole, the first of which it makes before its block.
unfoldable pub count : ℕ → (next size : ℕ) → Body (Option ℕ)
count zero next size = result none
count (suc fuel) next size =
    let further = (do n ← load (next_at next); count fuel n ((size + 1) % 2 ^ 32)) in
    if next == 0 then result (some size) else further

unfoldable pub set_size : ℕ → ℕ → Body (Option ℕ)
unfolding count
set_size fuel set = do node ← load set; next ← load (next_at node); count fuel next 0
