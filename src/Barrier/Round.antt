-- ===== src/Barrier/Round.antt =====
-- One round of a barrier.
use dstm_p.Common.{ℕ, zero, suc, true, Option, none, some}
use dstm_p.Barrier.{Barrier, cross, wake}

pub crosses : ℕ → Barrier → Barrier
crosses zero b = b
crosses (suc n) b = crosses n (cross true b)

-- The threads that are woken run on one by one; `none` if one of them still waits.
pub wakes : ℕ → Barrier → Option Barrier
wakes zero b = some b
wakes (suc n) b = elim (wake b) as (λ _. Option Barrier) [ none ↦ none | some c ↦ wakes n c ]
