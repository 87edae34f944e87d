-- ===== src/Bank/Total.antt =====
-- The total of a bank under transfers and resets.
use dstm_p.Common.{
  ℕ, zero, suc, ◌+◌, ◌-◌, ◌/◌, ◌%◌, ◌^◌, ◌≤◌, ◌<◌, ◌≡◌, refl, ◌&&◌, ◌==◌, ltb, leb, if◌then◌else◌,
  arith,
}
use native.Mathlib.Nat.{mod-lt}
use dstm_p.Bank.{
  Bank, set_balance, target, transfer, total_row, total_rows, total, reset_row, reset_rows, reset,
}

-- Sums of balances, without overflow.
sum_row : Bank → (i left j : ℕ) → ℕ
sum_row b i zero j = 0
sum_row b i (suc left) j = b j i + sum_row b i left (j + 1)

sum_rows : Bank → (nodes left i : ℕ) → ℕ
sum_rows b nodes zero i = 0
sum_rows b nodes (suc left) i = sum_row b i nodes 0 + sum_rows b nodes left (i + 1)

total_row_lem :
    (b : Bank) (i left j acc : ℕ)
    → total_row b i left j acc % 2 ^ 32 ≡ (acc + sum_row b i left j) % 2 ^ 32
unfolding total_row sum_row
total_row_lem b i zero j acc = omega arith
total_row_lem b i (suc left) j acc =
    omega (arith, total_row_lem b i left (j + 1) ((acc + b j i) % 2 ^ 32))

total_row-lt : (b : Bank) (i left j acc : ℕ) → acc < 2 ^ 32 → total_row b i left j acc < 2 ^ 32
unfolding total_row
total_row-lt b i zero j acc h = h
total_row-lt b i (suc left) j acc h = total_row-lt b i left (j + 1) _ (omega arith)

total_rows_lem :
    (b : Bank) (nodes left i acc : ℕ)
    → acc < 2 ^ 32
    → total_rows b nodes left i acc ≡ (acc + sum_rows b nodes left i) % 2 ^ 32
unfolding total_rows sum_rows
total_rows_lem b nodes zero i acc h = omega arith
total_rows_lem b nodes (suc left) i acc h = omega (
  arith,
  total_rows_lem b nodes left (i + 1) (total_row b i nodes 0 acc) (total_row-lt b i nodes 0 acc h),
  total_row_lem b i nodes 0 acc,
)

-- A write of a balance moves the sum by the difference.
sum_row-set :
    (b : Bank) (j0 i0 v i left j : ℕ)
    → sum_row (set_balance b j0 i0 v) i left j
        + (if i == i0 && (leb j j0 && ltb j0 (j + left)) then b j0 i0 else 0)
      ≡ sum_row b i left j + (if i == i0 && (leb j j0 && ltb j0 (j + left)) then v else 0)
unfolding sum_row
sum_row-set b j0 i0 v i zero j = ground arith
sum_row-set b j0 i0 v i (suc left) j = ground (arith, sum_row-set b j0 i0 v i left (j + 1))

sum_rows-set :
    (b : Bank) (j0 i0 v nodes left i : ℕ)
    → j0 < nodes
    → sum_rows (set_balance b j0 i0 v) nodes left i
        + (if leb i i0 && ltb i0 (i + left) then b j0 i0 else 0)
      ≡ sum_rows b nodes left i + (if leb i i0 && ltb i0 (i + left) then v else 0)
unfolding sum_rows
sum_rows-set b j0 i0 v nodes zero i h = ground arith
sum_rows-set b j0 i0 v nodes (suc left) i h =
    ground (arith, sum_rows-set b j0 i0 v nodes left (i + 1) h, sum_row-set b j0 i0 v i nodes 0)

target-lt :
    (nodes src_t dst_t : ℕ) → src_t < nodes → dst_t < nodes → target nodes src_t dst_t < nodes
unfolding target
target-lt nodes src_t dst_t hs hd = ground (arith, mod-lt (src_t + 1) {m = nodes} (omega arith))

-- A transfer of an `int` between accounts and nodes of the bank keeps its total, also where balances
-- overflow.
pub total-transfer :
    (nodes bank_size src dst src_t dst_t amount : ℕ) (b : Bank)
    → src < bank_size / nodes
    → dst < bank_size / nodes
    → src_t < nodes
    → dst_t < nodes
    → amount < 2 ^ 32
    → total nodes bank_size (transfer nodes src dst src_t dst_t amount b) ≡ total nodes bank_size b
unfolding total transfer
total-transfer nodes bank_size src dst src_t dst_t amount b hs hd hst hdt ha =
    let n = bank_size / nodes in
    let to = target nodes src_t dst_t in
    let v1 = (b src_t src + 2 ^ 32 - amount) % 2 ^ 32 in
    let b1 = set_balance b src_t src v1 in
    let v2 = (b1 to dst + amount) % 2 ^ 32 in
    let b2 = set_balance b1 to dst v2 in
    let first : sum_rows b1 nodes n 0 + b src_t src ≡ sum_rows b nodes n 0 + v1 =
      ground (arith, sum_rows-set b src_t src v1 nodes n 0 hst) in
    let second : sum_rows b2 nodes n 0 + b1 to dst ≡ sum_rows b1 nodes n 0 + v2 =
      ground (arith, sum_rows-set b1 to dst v2 nodes n 0 (target-lt nodes src_t dst_t hst hdt)) in
    omega (
      arith,
      first,
      second,
      total_rows_lem b nodes n 0 0 (omega arith),
      total_rows_lem b2 nodes n 0 0 (omega arith),
    )

reset_row_lem :
    (i left j : ℕ) (b : Bank) (n k : ℕ)
    → reset_row i left j b n k ≡ (if k == i && (leb j n && ltb n (j + left)) then 0 else b n k)
unfolding reset_row
reset_row_lem i zero j b n k = ground arith
reset_row_lem i (suc left) j b n k =
    ground (arith, reset_row_lem i left (j + 1) (set_balance b j i 0) n k)

reset_rows_lem :
    (nodes left i : ℕ) (b : Bank) (n k : ℕ)
    → n < nodes
    → reset_rows nodes left i b n k ≡ (if leb i k && ltb k (i + left) then 0 else b n k)
unfolding reset_rows
reset_rows_lem nodes zero i b n k h = ground arith
reset_rows_lem nodes (suc left) i b n k h = ground (
  arith,
  reset_rows_lem nodes left (i + 1) (reset_row i nodes 0 b) n k h,
  reset_row_lem i nodes 0 b n k,
)

sum_row-zero :
    (b : Bank) (i left j nodes : ℕ)
    → ((n : ℕ) → n < nodes → b n i ≡ 0)
    → j + left ≤ nodes
    → sum_row b i left j ≡ 0
unfolding sum_row
sum_row-zero b i zero j nodes h le = refl
sum_row-zero b i (suc left) j nodes h le =
    omega (arith, h j (omega arith), sum_row-zero b i left (j + 1) nodes h (omega arith))

sum_rows-zero :
    (b : Bank) (nodes left i end : ℕ)
    → ((n k : ℕ) → n < nodes → k < end → b n k ≡ 0)
    → i + left ≤ end
    → sum_rows b nodes left i ≡ 0
unfolding sum_rows
sum_rows-zero b nodes zero i end h le = refl
sum_rows-zero b nodes (suc left) i end h le = omega (
  arith,
  sum_row-zero b i nodes 0 nodes (λ n lt. h n i lt (omega arith)) (omega arith),
  sum_rows-zero b nodes left (i + 1) end h (omega arith),
)

-- After a reset the total is zero.
pub total-reset :
    (nodes bank_size : ℕ) (b : Bank) → total nodes bank_size (reset nodes bank_size b) ≡ 0
unfolding total reset
total-reset nodes bank_size b =
    let n = bank_size / nodes in
    let zeros : sum_rows (reset_rows nodes n 0 b) nodes n 0 ≡ 0 =
      sum_rows-zero (reset_rows nodes n 0 b) nodes n 0 n
        (λ k i hk hi. ground (arith, reset_rows_lem nodes n 0 b k i hk)) (omega arith) in
    omega (arith, zeros, total_rows_lem (reset_rows nodes n 0 b) nodes n 0 0 (omega arith))
