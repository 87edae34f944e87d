-- ===== src/Barrier.antt =====
-- src/dstm_barrier.cpp: how threads are shared out over nodes, and the barrier of a node's threads.
pub mod Threads
pub mod Round
mod Tests
use dstm_p.Common.{
  ℕ, zero, suc, ◌+◌, ◌-◌, ◌/◌, ◌%◌, Bool, true, false, ltb, ◌==◌, not, if◌then◌else◌, Option, none,
  some,
}

-- `barrier_calculate_threads(tnum)` on node `me` of `nodes`.
unfoldable pub calculate_threads : ℕ → ℕ → ℕ → ℕ
calculate_threads nodes me tnum =
    let mynode = me + 1 in
    let div = tnum / nodes in
    let mod' = tnum % nodes in
    if ltb 0 div
    then (if ltb 0 mod' then (if ltb mod' mynode then div else div + 1) else div)
    else (if ltb tnum mynode then 0 else 1)

-- The fields of barrier_t that decide; `waiting` counts the threads that gasnett_cond_wait keeps, `woken`
-- those that a broadcast has let go and that have not run on yet, and `opened` the calls of
-- gasnet_barrier_notify and gasnet_barrier_wait.
pub record Barrier : Type 0 where
  pub count : ℕ
  pub crossing : ℕ
  pub waiting : ℕ
  pub woken : ℕ
  pub opened : ℕ

-- `barrier_init(b, n)` on node `me`.
unfoldable pub init : ℕ → ℕ → Barrier
init me n = record {
  count = if me == 0 then n + 1 else n;
  crossing = 0;
  waiting = 0;
  woken = 0;
  opened = 0;
}

-- `barrier_cross(b, local_wait)`, up to the wait or the return.
unfoldable pub cross : Bool → Barrier → Barrier
cross local_wait b =
    let crossing = b.crossing + 1 in
    if ltb crossing b.count
    then (if local_wait
        then record b { crossing = crossing; waiting = b.waiting + 1 }
        else record b { crossing = crossing })
    else record b {
      count = crossing;
      crossing = if local_wait then crossing - 1 else 0;
      waiting = 0;
      woken = b.woken + b.waiting;
      opened = b.opened + 1;
    }

-- The rest of `barrier_cross` in a thread that a broadcast has woken; without one it does not run on.
unfoldable pub wake : Barrier → Option Barrier
wake b =
    if b.woken == 0
    then none
    else some
        (record b { crossing = if b.crossing == 0 then 0 else b.crossing - 1; woken = b.woken - 1 })

-- `barrier_canbe_destroyed`
unfoldable pub can_be_destroyed : Barrier → Bool
can_be_destroyed b = if b.crossing == 0 then true else false
