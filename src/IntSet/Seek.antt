-- ===== src/IntSet/Seek.antt =====
-- Where the loop over the list stops.
use dstm_p.Common.{
  ℕ, zero, suc, ◌<◌, ◌≡◌, refl, ◌≢◌, true, false, Option, some, [], ◌∷◌, ◌==◌, arith, Bool-cases,
  inl, inr, length,
}
use dstm_p.Interface.Blocks.{Plain, Ensures, Ensures-weaken}
use dstm_p.IntSet.{int_max, slt, next_at, seek, search_from}
use dstm_p.IntSet.Chain.{Cells, Off, has, has-Rising, Between, Rising, Node, Chain, IsIntSet}

-- Behind the node `prev`, in front of the node `next` with the value `v`, where the cells `cs` and a last
-- node `mx` are ahead.
pub data Stops (val mx : ℕ) : ℕ → Cells → ℕ → ℕ → ℕ → Type 0 where
  at_end : {prev : ℕ} → slt int_max val ≡ false → Stops val mx prev [] prev mx int_max
  here : {prev a w : ℕ} {cs : Cells} → slt w val ≡ false → Stops val mx prev ((a, w) ∷ cs) prev a w
  later :
      {prev a w p n v : ℕ} {cs : Cells}
      → slt w val ≡ true
      → Stops val mx a cs p n v
      → Stops val mx prev ((a, w) ∷ cs) p n v

-- An address off the nodes is off the node where the loop stops.
pub Stops-Off :
    {val mx prev p n v : ℕ} {cs : Cells} (x : ℕ)
    → Stops val mx prev cs p n v
    → x ≢ next_at prev
    → Off x cs
    → x ≢ next_at p
Stops-Off x (at_end stop) d o = d
Stops-Off x (here stop) d o = d
Stops-Off x (later less s) d o = Stops-Off x s o.0.1 o.1

abbrev pub Found : (val mx prev : ℕ) → Cells → Option (ℕ × ℕ × ℕ) → Type 0
Found val mx prev cs r =
    (p : ℕ) × (n : ℕ) × (v : ℕ) × (r ≡ some (p, n, v)) × Stops val mx prev cs p n v

module _ (P : ℕ → Type 0) (val : ℕ) (between : Between val) where
  pub seek-Ensures :
      (fuel : ℕ) (h : Plain) (mx prev next : ℕ) (cs : Cells)
      → Chain P h mx next cs
      → length cs < fuel
      → Ensures P (λ r g. (g ≡ h) × Found val mx prev cs r) (seek fuel val prev next) h
  unfolding seek
  seek-Ensures zero h mx prev next cs c lt = absurd (omega arith)
  seek-Ensures (suc fuel) h mx prev next [] (at, node, value, last) lt =
      let stop : slt int_max val ≡ false = ground arith in
      rw (at, value, stop) (node.0, (refl, (prev, mx, int_max, refl, at_end stop)))
  seek-Ensures (suc fuel) h mx prev next ((a, w) ∷ cs) (at, node, value, rest) lt =
      rw (at, value)
        (
          node.0,
          elim (Bool-cases (slt w val)) [
            | inl less ↦ rw less (
              node.1,
              Ensures-weaken P _ _ (seek fuel val a (h (next_at a))) h
                  (seek-Ensures fuel h mx a (h (next_at a)) cs rest (omega arith))
                  λ r g (same, (p, n, v, e, stops)). (same, (p, n, v, e, later less stops)),
            )
            | inr stop ↦ rw stop (refl, (prev, a, w, refl, here stop))
          ],
        )

  pub search_from-Ensures :
      (fuel : ℕ) (h : Plain) (set mn mx : ℕ) (cs : Cells) (is : IsIntSet P h set mn mx cs)
      → length cs < fuel
      → Ensures P (λ r g. (g ≡ h) × Found val mx mn cs r) (search_from fuel set val) h
  unfolding search_from
  search_from-Ensures fuel h set mn mx cs is lt = (
    is.set_word,
    rw is.head (is.first.1, seek-Ensures fuel h mx mn (h (next_at mn)) cs is.chain lt),
  )

  -- Whether the value is there shows at the node where the loop stops.
  pub Stops-has :
      {mx prev p n v : ℕ} {cs : Cells} (lo : ℕ)
      → Stops val mx prev cs p n v
      → Rising lo cs
      → (v == val) ≡ has val cs
  Stops-has lo (at_end stop) r = ground arith
  Stops-has lo (here {w = w} {cs} stop) r = ground (arith, has-Rising val w cs)
  Stops-has lo (later {w = w} less s) r = ground (arith, Stops-has w s r.1)

  -- What memory holds there.
  pub Stops-nodes :
      {mx prev p n v : ℕ} {cs : Cells} (h : Plain)
      → Stops val mx prev cs p n v
      → Node P prev
      → Chain P h mx (h (next_at prev)) cs
      → Node P p × Node P n × (h n ≡ v) × (h (next_at p) ≡ n)
  Stops-nodes h (at_end stop) node c = (node, c.1, c.2, c.0)
  Stops-nodes h (here stop) node c = (node, c.1, c.2, c.0)
  Stops-nodes h (later less s) node c = Stops-nodes h s c.1 c.3
