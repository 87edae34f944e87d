-- ===== src/Balancer/Turns.antt =====
-- Every node has its turn.
use dstm_p.Common.{
  ℕ, zero, suc, ◌+◌, ◌%◌, ◌≤◌, ◌<◌, ◌≡◌, get_or, ltb, arith, Bool-cases, inl, inr, ap, sym, ◌∙◌,
}
use native.Mathlib.Nat.{mod-eq_of_lt, mod_self, add-mod_left}
use dstm_p.Balancer.{Balancer, new, get_victim, victims}

victims_from :
    (i k : ℕ) (b : Balancer)
    → 0 < b.nodes_num
    → b.last_node_succ ≤ b.nodes_num
    → i < k
    → get_or (victims k b) i 0 ≡ (b.last_node_succ + i) % b.nodes_num
unfolding victims get_victim
victims_from i zero b h le lt = absurd (omega arith)
victims_from zero (suc k) b h le lt = elim (Bool-cases (ltb b.last_node_succ b.nodes_num)) [
  | inl more ↦
      let below : b.last_node_succ < b.nodes_num = ground arith in
      let value : (get_victim b).0 ≡ b.last_node_succ = ground arith in
      value ∙ sym (mod-eq_of_lt below) ∙ ap (λ (t : ℕ). t % b.nodes_num) (omega arith)
  | inr last ↦
      let here : b.last_node_succ ≡ b.nodes_num = ground arith in
      let value : (get_victim b).0 ≡ 0 = ground arith in
      value ∙ sym (mod_self b.nodes_num) ∙ ap (λ (t : ℕ). t % b.nodes_num) (omega arith)
]
victims_from (suc i) (suc k) b h le lt = elim (Bool-cases (ltb b.last_node_succ b.nodes_num)) [
  | inl more ↦
      victims_from i k (get_victim b).1 h (ground arith) (omega arith)
      ∙ ap (λ (t : ℕ). t % b.nodes_num) (ground arith)
  | inr last ↦
      let here : b.last_node_succ ≡ b.nodes_num = ground arith in
      victims_from i k (get_victim b).1 h (ground arith) (omega arith)
      ∙ ap (λ (t : ℕ). t % b.nodes_num) {x = (get_victim b).1.last_node_succ + i} {y = suc i}
          (ground arith)
      ∙ sym (add-mod_left b.nodes_num (suc i))
      ∙ ap (λ (t : ℕ). (t + suc i) % b.nodes_num) (sym here)
]

-- Of `k` calls on a new balancer over `n` nodes, call number `i`, from 0, gets node `i % n`.
pub victims_in_turn : (n k i : ℕ) → 0 < n → i < k → get_or (victims k (new n)) i 0 ≡ i % n
unfolding new
victims_in_turn n k i h lt =
    victims_from i k (new n) h (omega arith) lt ∙ ap (λ (t : ℕ). t % n) (omega arith)
