-- ===== src/Clock/Tests.antt =====
-- The clock beside another thread that moves it three times.
use dstm_p.Common.{ℕ, ◌+◌, ◌^◌, ◌≤◌, ◌<◌, ◌&&◌, ltb, if◌then◌else◌, arith}
use dstm_p.Network.{flat}
use dstm_p.Clock.{increase_clock}
use dstm_p.Clock.Loops.{Forward, Returns, increase_clock-Returns}

-- Before each of the first three accesses the other thread adds one, while the clock is small.
abbrev other : ℕ → ℕ → ℕ
other t c = if ltb t 3 && ltb c 100 then c + 1 else c

other-Forward : Forward other
other-Forward = record { mono = λ t c h. ground arith; bounded = λ t c h. ground arith }

increase_clock-Returns_example :
    Returns (λ _ c. (9 ≤ c) × (4 ≤ c) × (c < 2 ^ 48)) (increase_clock (flat 0) other 6 0 9 4 0)
increase_clock-Returns_example =
    increase_clock-Returns (flat 0) other other-Forward 6 0 9 4 0 (omega arith) (omega arith)
      (omega arith) (omega arith)
