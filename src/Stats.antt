-- ===== src/Stats.antt =====
-- src/dstm_lib_p1/dstm_transaction_stats.h, dstm_node_stats.h, src/dstm_stats.cpp and the abort codes
-- of dstm_transaction.h: what is counted of transactions. The counters are uint32_t.
pub mod Counts
use dstm_p.Common.{ℕ, ◌+◌, ◌*◌, ◌%◌, ◌^◌, List, [], ◌∷◌, set, if◌then◌else◌, ◌==◌, bit_or}

abbrev pub abort_explicit : ℕ
abort_explicit = 2 ^ 3

abbrev pub abort_implicit : ℕ
abort_implicit = 2 ^ 4

abbrev pub abort_readset_val : ℕ
abort_readset_val = bit_or abort_implicit (2 ^ 5)

abbrev pub abort_grabbing_locks : ℕ
abort_grabbing_locks = bit_or abort_implicit (2 ^ 6)

abbrev pub abort_wr_conflict : ℕ
abort_wr_conflict = bit_or abort_implicit (2 * 2 ^ 7)

abbrev pub abort_ww_conflict : ℕ
abort_ww_conflict = bit_or abort_implicit (4 * 2 ^ 7)

abbrev pub abort_invalid_memory_r : ℕ
abort_invalid_memory_r = bit_or abort_implicit (8 * 2 ^ 7)

abbrev pub abort_invalid_memory_w : ℕ
abort_invalid_memory_w = bit_or abort_implicit (0x10 * 2 ^ 7)

-- transaction_stats_t
pub record TransactionStats : Type 0 where
  pub total_aborts : ℕ
  pub rsval_aborts : ℕ
  pub grablocks_aborts : ℕ
  pub wr_confl_aborts : ℕ
  pub ww_confl_aborts : ℕ
  pub invmem_r_aborts : ℕ
  pub invmem_w_aborts : ℕ
  pub unknwn_aborts : ℕ
  pub explicit_aborts : ℕ

abbrev pub zero_stats : TransactionStats
zero_stats = record {
  total_aborts = 0;
  rsval_aborts = 0;
  grablocks_aborts = 0;
  wr_confl_aborts = 0;
  ww_confl_aborts = 0;
  invmem_r_aborts = 0;
  invmem_w_aborts = 0;
  unknwn_aborts = 0;
  explicit_aborts = 0;
}

abbrev pub add32 : ℕ → ℕ → ℕ
add32 a b = (a + b) % 2 ^ 32

-- `operator +`
unfoldable pub add_stats : TransactionStats → TransactionStats → TransactionStats
add_stats s1 s2 = record {
  total_aborts = add32 s1.total_aborts s2.total_aborts;
  rsval_aborts = add32 s1.rsval_aborts s2.rsval_aborts;
  grablocks_aborts = add32 s1.grablocks_aborts s2.grablocks_aborts;
  wr_confl_aborts = add32 s1.wr_confl_aborts s2.wr_confl_aborts;
  ww_confl_aborts = add32 s1.ww_confl_aborts s2.ww_confl_aborts;
  invmem_r_aborts = add32 s1.invmem_r_aborts s2.invmem_r_aborts;
  invmem_w_aborts = add32 s1.invmem_w_aborts s2.invmem_w_aborts;
  unknwn_aborts = add32 s1.unknwn_aborts s2.unknwn_aborts;
  explicit_aborts = add32 s1.explicit_aborts s2.explicit_aborts;
}

-- The counters that `DSTMTransaction::abort` moves for a reason (the build with TRANSACTIONS_STATS).
unfoldable pub count_abort : ℕ → TransactionStats → TransactionStats
count_abort reason s =
    let t = record s { total_aborts = add32 s.total_aborts 1 } in
    if reason == abort_readset_val
    then record t { rsval_aborts = add32 s.rsval_aborts 1 }
    else (if reason == bit_or abort_readset_val abort_wr_conflict
        then record t { rsval_aborts = add32 s.rsval_aborts 1 }
        else (if reason == bit_or abort_readset_val abort_ww_conflict
            then record t { rsval_aborts = add32 s.rsval_aborts 1 }
            else (if reason == abort_wr_conflict
                then record t { wr_confl_aborts = add32 s.wr_confl_aborts 1 }
                else (if reason == abort_ww_conflict
                    then record t { ww_confl_aborts = add32 s.ww_confl_aborts 1 }
                    else (if reason == abort_invalid_memory_r
                        then record t { invmem_r_aborts = add32 s.invmem_r_aborts 1 }
                        else (if reason == abort_invalid_memory_w
                            then record t { invmem_w_aborts = add32 s.invmem_w_aborts 1 }
                            else (if reason == abort_grabbing_locks
                                then record t { grablocks_aborts = add32 s.grablocks_aborts 1 }
                                else (if reason == abort_explicit
                                    then record t { explicit_aborts = add32 s.explicit_aborts 1 }
                                    else record t {
                                      unknwn_aborts = add32 s.unknwn_aborts 1;
                                    }))))))))

-- node_stats_t
pub record NodeStats : Type 0 where
  pub total_txs : ℕ
  pub total_txs_stats : TransactionStats

-- What `_ITM_commitTransaction` adds to G_TRANSACTIONS_STATS for a committed transaction.
unfoldable pub count_commit : TransactionStats → NodeStats → NodeStats
unfolding add_stats
count_commit stats n = record {
  total_txs = add32 n.total_txs 1;
  total_txs_stats = add_stats n.total_txs_stats stats;
}

-- `add_node_to_stat`
unfoldable pub add_node_to_stat : ℕ → NodeStats → List NodeStats → List NodeStats
add_node_to_stat node_num node_stat nodes_stats = set nodes_stats node_num node_stat

-- The loop body of `print_nodes_stats` that sums up.
unfoldable pub add_node : NodeStats → NodeStats → NodeStats
unfolding add_stats
add_node summary n = record {
  total_txs = add32 summary.total_txs n.total_txs;
  total_txs_stats = add_stats summary.total_txs_stats n.total_txs_stats;
}

-- The summary that `print_nodes_stats` sums up and prints.
unfoldable pub sum_nodes : NodeStats → List NodeStats → NodeStats
unfolding add_node
sum_nodes summary [] = summary
sum_nodes summary (n ∷ ns) = sum_nodes (add_node summary n) ns
