-- ===== src/Clock/Loops.antt =====
-- The clock's loops end, and what they leave.
use dstm_p.Common.{ℕ, zero, suc, ◌+◌, ◌-◌, ◌*◌, ◌%◌, ◌^◌, ◌≤◌, ◌<◌, ◌≡◌, Option, none, some, arith}
use dstm_p.Network.{Gasnet}
use dstm_p.Clock.{Ticked, increase_clock, get_next_clock}

-- What the node's other threads may do: the clock never goes back, and stays below 2 ^ 48.
pub record Forward (env : ℕ → ℕ → ℕ) : Type 0 where
  pub mono : (t c : ℕ) → c < 2 ^ 48 → c ≤ env t c
  pub bounded : (t c : ℕ) → c < 2 ^ 48 → env t c < 2 ^ 48

-- The call has returned, with a clock for which `P` holds.
abbrev pub Returns : {A : Type 0} → (A → ℕ → Type 0) → Option (Ticked A) → Type 0
Returns P none = ⊥
Returns P (some r) = P r.result r.clock

module _ (g : Gasnet) (env : ℕ → ℕ → ℕ) (rely : Forward env) where
  -- While the other threads move the clock forward only and leave it and the new value below 2 ^ 48,
  -- whatever else they do, `increaseClock` returns within as many rounds as the clock is
  -- behind the new value, and one more; the clock is then at least the new value, and no less than
  -- before.
  pub increase_clock-Returns :
      (fuel tries new clock now : ℕ)
      → new < 2 ^ 48
      → clock < 2 ^ 48
      → new < clock + fuel
      → 0 < fuel
      → Returns
          (λ _ c. (new ≤ c) × (clock ≤ c) × (c < 2 ^ 48))
          (increase_clock g env fuel tries new clock now)
  unfolding increase_clock
  increase_clock-Returns zero tries new clock now hn hc enough some_fuel = absurd (omega arith)
  increase_clock-Returns (suc fuel) tries new clock now hn hc enough some_fuel =
      let cur = env now clock in
      let seen = env (now + 1) cur in
      ground (
        arith,
        rely.mono now clock,
        rely.bounded now clock,
        rely.mono (now + 1) cur,
        rely.bounded (now + 1) cur,
        g.cas_law seen cur ((cur + (new + 2 ^ 64 - cur) % 2 ^ 64) % 2 ^ 64),
        increase_clock-Returns fuel (tries + 1) new seen (now + 2),
      )

  -- `getNextClock` returns when the others, who move the clock forward only, leave it alone from some
  -- access on that its rounds reach, and its result
  -- is the clock it leaves, greater than the clock at the call.
  pub get_next_clock-Returns :
      (fuel clock now quiet_from : ℕ)
      → clock < 2 ^ 48
      → 0 < fuel
      → ((t c : ℕ) → quiet_from ≤ t → env t c ≡ c)
      → quiet_from < now + 2 * fuel
      → Returns (λ r c. (r ≡ c) × (clock < r)) (get_next_clock g env fuel clock now)
  unfolding get_next_clock
  get_next_clock-Returns zero clock now quiet_from hc some_fuel quiet enough = absurd (omega arith)
  get_next_clock-Returns (suc fuel) clock now quiet_from hc some_fuel quiet enough =
      let cur = env now clock in
      let seen = env (now + 1) cur in
      ground (
        arith,
        rely.mono now clock,
        rely.bounded now clock,
        rely.mono (now + 1) cur,
        rely.bounded (now + 1) cur,
        quiet (now + 1) cur,
        g.cas_law seen cur ((cur + 1) % 2 ^ 64),
        get_next_clock-Returns fuel seen (now + 2) quiet_from,
      )
