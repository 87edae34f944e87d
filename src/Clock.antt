-- ===== src/Clock.antt =====
-- The node's version clock, LOCAL_CLOCK of src/glue.cpp, with its compare-and-swap loops. Other
-- threads of the node act between any two accesses: `env t c` is the clock after what they do before
-- access number `t`, if it stood at `c`.
pub mod Loops
mod Tests
use dstm_p.Common.{
  ℕ, zero, suc, ◌+◌, ◌-◌, ◌%◌, ◌^◌, Bool, true, false, ◌&&◌, Option, none, some, ltb, if◌then◌else◌,
}
use dstm_p.Network.{Gasnet}

-- What a call on the clock leaves: its result, the clock, and the number of the next access.
pub record Ticked (A : Type 0) : Type 0 where
  pub result : A
  pub clock : ℕ
  pub now : ℕ

-- `(int64_t)d > 0`
abbrev pub positive : ℕ → Bool
positive d = ltb 0 d && ltb d (2 ^ 63)

module _ (g : Gasnet) (env : ℕ → ℕ → ℕ) where
  -- `increaseClock`, with fuel; `none` means that the fuel ran out.
  unfoldable pub increase_clock : ℕ → ℕ → ℕ → ℕ → ℕ → Option (Ticked Bool)
  increase_clock zero tries new clock now = none
  increase_clock (suc fuel) tries new clock now =
      let cur = env now clock in
      let delta = (new + 2 ^ 64 - cur) % 2 ^ 64 in
      let (swapped, after) = g.cas (env (now + 1) cur) cur ((cur + delta) % 2 ^ 64) in
      let retry = increase_clock fuel (tries + 1) new after (now + 2) in
      if positive delta
      then (if swapped
          then some (record { result = true; clock = after; now = now + 2 })
          else retry)
      else some (record { result = ltb 0 tries; clock = cur; now = now + 1 })

  -- `getNextClock`, with fuel.
  unfoldable pub get_next_clock : ℕ → ℕ → ℕ → Option (Ticked ℕ)
  get_next_clock zero clock now = none
  get_next_clock (suc fuel) clock now =
      let cur = env now clock in
      let (swapped, after) = g.cas (env (now + 1) cur) cur ((cur + 1) % 2 ^ 64) in
      let retry = get_next_clock fuel after (now + 2) in
      if swapped
      then some (record { result = (cur + 1) % 2 ^ 64; clock = after; now = now + 2 })
      else retry
