-- ===== src/Stats/Counts.antt =====
-- Every abort is counted once, and sums of statistics keep that.
use dstm_p.Common.{ℕ, ◌+◌, ◌%◌, ◌^◌, ◌≡◌, List, [], ◌∷◌, arith, All}
use dstm_p.Stats.{TransactionStats, add_stats, add_node, count_abort, NodeStats, sum_nodes}

abbrev categories : TransactionStats → ℕ
categories s =
    s.rsval_aborts + s.grablocks_aborts + s.wr_confl_aborts + s.ww_confl_aborts + s.invmem_r_aborts
    + s.invmem_w_aborts + s.unknwn_aborts + s.explicit_aborts

-- The total is the sum of the categories, modulo 2 ^ 32.
abbrev pub IsBalanced : TransactionStats → Type 0
IsBalanced s = s.total_aborts ≡ categories s % 2 ^ 32

-- An abort for any reason counts in the total and in exactly one category.
pub count_abort-IsBalanced :
    (reason : ℕ) (s : TransactionStats) → IsBalanced s → IsBalanced (count_abort reason s)
unfolding count_abort
count_abort-IsBalanced reason s h = ground arith

add_stats-IsBalanced :
    (s t : TransactionStats) → IsBalanced s → IsBalanced t → IsBalanced (add_stats s t)
unfolding add_stats
add_stats-IsBalanced s t h k = omega arith

-- The summary over all nodes is balanced when each node's statistics and the start are.
pub sum_nodes-IsBalanced :
    (summary : NodeStats) (ns : List NodeStats)
    → IsBalanced summary.total_txs_stats
    → All (λ (n : NodeStats). IsBalanced n.total_txs_stats) ns
    → IsBalanced (sum_nodes summary ns).total_txs_stats
unfolding sum_nodes add_node
sum_nodes-IsBalanced summary [] h all = h
sum_nodes-IsBalanced summary (n ∷ ns) h all =
    sum_nodes-IsBalanced (add_node summary n) ns
      (add_stats-IsBalanced summary.total_txs_stats n.total_txs_stats h all.0) all.1
