-- ===== src/Barrier/Threads.antt =====
-- The shares of the nodes add up.
use dstm_p.Common.{ℕ, zero, suc, ◌+◌, ◌*◌, ◌/◌, ◌%◌, ◌≤◌, ◌<◌, ◌≡◌, ltb, if◌then◌else◌, arith}
use Prim.Native.Nat.{min}
use native.Mathlib.Nat.{div-add-mod}
use dstm_p.Barrier.{calculate_threads}

-- The threads of the first `k` nodes.
pub threads_below : ℕ → ℕ → ℕ → ℕ
threads_below nodes tnum zero = 0
threads_below nodes tnum (suc k) = threads_below nodes tnum k + calculate_threads nodes k tnum

share :
    (nodes me tnum : ℕ)
    → 0 < nodes
    → me < nodes
    → calculate_threads nodes me tnum ≡ tnum / nodes + (if ltb me (tnum % nodes) then 1 else 0)
unfolding calculate_threads
share nodes me tnum h lt = ground (arith, div-add-mod tnum nodes)

threads_below_lem :
    (nodes tnum k : ℕ)
    → 0 < nodes
    → k ≤ nodes
    → threads_below nodes tnum k ≡ k * (tnum / nodes) + min k (tnum % nodes)
unfolding threads_below
threads_below_lem nodes tnum zero h le = omega arith
threads_below_lem nodes tnum (suc k) h le =
    ground
      (arith, threads_below_lem nodes tnum k h (omega arith), share nodes k tnum h (omega arith))

-- Over all nodes of a system of at least one, the shares add up to the threads asked for, and two
-- nodes' shares differ by one at most.
pub threads_shared :
    (nodes tnum : ℕ)
    → 0 < nodes
    → (threads_below nodes tnum nodes ≡ tnum)
      × ((i j : ℕ)
          → i < nodes
          → j < nodes
          → calculate_threads nodes i tnum ≤ calculate_threads nodes j tnum + 1)
threads_shared nodes tnum h = (
  omega (arith, threads_below_lem nodes tnum nodes h (omega arith), div-add-mod tnum nodes),
  λ i j hi hj. ground (arith, share nodes i tnum h hi, share nodes j tnum h hj),
)
