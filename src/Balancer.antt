-- ===== src/Balancer.antt =====
-- src/dummy_loadbalancer.cpp: threads go to the nodes in turn.
pub mod Turns
use dstm_p.Common.{ℕ, zero, suc, ◌+◌, ◌-◌, List, [], ◌∷◌, ltb, if◌then◌else◌}

-- DummyLoadBalancer. The field `lastNode` starts at -1: here is one more than it.
pub record Balancer : Type 0 where
  pub nodes_num : ℕ
  pub last_node_succ : ℕ

-- The constructor.
unfoldable pub new : ℕ → Balancer
new nodes_num = record { nodes_num = nodes_num; last_node_succ = 0 }

-- `getVictim`
unfoldable pub get_victim : Balancer → ℕ × Balancer
get_victim b =
    let last = if ltb b.last_node_succ b.nodes_num then b.last_node_succ + 1 else 1 in
    (last - 1, record b { last_node_succ = last })

-- The victims of `k` calls in a row.
unfoldable pub victims : ℕ → Balancer → List ℕ
unfolding get_victim
victims zero b = []
victims (suc k) b = (get_victim b).0 ∷ victims k (get_victim b).1
