-- ===== src/Bank.antt =====
-- tests/bank/bank_my.c: accounts on several nodes, and transactions over them. Each atomic block runs
-- at once here. An `int` is its bit pattern, below 2 ^ 32.
pub mod Total
mod Tests
use dstm_p.Common.{ℕ, zero, suc, ◌+◌, ◌-◌, ◌/◌, ◌%◌, ◌^◌, ◌&&◌, ◌==◌, if◌then◌else◌}

-- `bank[j].accounts[i].balance`
abbrev pub Bank : Type 0
Bank = ℕ → ℕ → ℕ

-- STORE of a balance.
abbrev pub set_balance : Bank → ℕ → ℕ → ℕ → Bank
set_balance b j i v = λ j' i'. if j' == j && i' == i then v else b j' i'

-- Where a transfer goes: not where it comes from, if there is another node.
unfoldable pub target : ℕ → ℕ → ℕ → ℕ
target nodes src_t dst_t = if dst_t == src_t then (src_t + 1) % nodes else dst_t

-- `transfer`, with the accounts and nodes that were drawn.
unfoldable pub transfer : ℕ → (src dst src_t dst_t amount : ℕ) → Bank → Bank
unfolding target
transfer nodes src dst src_t dst_t amount b =
    let to = target nodes src_t dst_t in
    let b1 = set_balance b src_t src ((b src_t src + 2 ^ 32 - amount) % 2 ^ 32) in
    set_balance b1 to dst ((b1 to dst + amount) % 2 ^ 32)

-- The inner loop of `total`, and the outer one, with the rounds left.
unfoldable pub total_row : Bank → (i left j acc : ℕ) → ℕ
total_row b i zero j acc = acc
total_row b i (suc left) j acc = total_row b i left (j + 1) ((acc + b j i) % 2 ^ 32)

unfoldable pub total_rows : Bank → (nodes left i acc : ℕ) → ℕ
unfolding total_row
total_rows b nodes zero i acc = acc
total_rows b nodes (suc left) i acc = total_rows b nodes left (i + 1) (total_row b i nodes 0 acc)

-- `total(bank, bank_size, 1)`
unfoldable pub total : ℕ → ℕ → Bank → ℕ
unfolding total_rows
total nodes bank_size b = total_rows b nodes (bank_size / nodes) 0 0

-- The inner loop of `reset`, and the outer one.
unfoldable pub reset_row : (i left j : ℕ) → Bank → Bank
reset_row i zero j b = b
reset_row i (suc left) j b = reset_row i left (j + 1) (set_balance b j i 0)

unfoldable pub reset_rows : (nodes left i : ℕ) → Bank → Bank
unfolding reset_row
reset_rows nodes zero i b = b
reset_rows nodes (suc left) i b = reset_rows nodes left (i + 1) (reset_row i nodes 0 b)

-- `reset`
unfoldable pub reset : ℕ → ℕ → Bank → Bank
unfolding reset_rows
reset nodes bank_size b = reset_rows nodes (bank_size / nodes) 0 b
