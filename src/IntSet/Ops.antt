-- ===== src/IntSet/Ops.antt =====
-- `set_new`, `set_contains` and `set_size`, and what `dstm_free` does to a set.
use dstm_p.Common.{
  ℕ, zero, suc, ◌+◌, ◌%◌, ◌^◌, ◌<◌, ◌≡◌, refl, sym, ap, ◌∙◌, false, some, [], ◌∷◌, ◌==◌, arith,
  length,
}
use dstm_p.Interface.Blocks.{Plain, update, update-ne, Ensures, Ensures-bind, Ensures-weaken}
use dstm_p.IntSet.{
  int_min, int_max, next_at, init_node, set_new, search_from, contains, count, set_size,
}
use dstm_p.IntSet.Chain.{Cells, has, whole, Off, Away, Between, Node, Chain, Chain-update, IsIntSet}
use dstm_p.IntSet.Seek.{search_from-Ensures, Stops-has}
use dstm_p.IntSet.Link.{IsNew}
use dstm_p.IntSet.Unlink.{Removed}

module _ (P : ℕ → Type 0) where
  -- `set_new` makes an empty set, of two nodes and a word that are apart.
  pub set_new-Ensures :
      (h : Plain) (set max min : ℕ)
      → P set
      → Node P max
      → Node P min
      → Off set (whole min max [])
      → Away min ((max, int_max) ∷ [])
      → Ensures P (λ _ g. IsIntSet P g set min max []) (set_new set max min) h
  unfolding set_new init_node
  set_new-Ensures h set max min ps node_max node_min off away = (
    node_max.0,
    (
      node_max.1,
      (
        node_min.0,
        (
          node_min.1,
          (
            ps,
            record {
              set_word = ps;
              first = node_min;
              head = ground arith;
              first_value = ground (arith, off, away);
              chain = (
                ground (arith, off, away),
                node_max,
                ground (arith, off, away),
                ground (arith, off, away),
              );
              apart = (away, ((tt, tt), tt));
              off = off;
              rising = tt;
            },
          ),
        ),
      ),
    ),
  )

  -- `set_contains` answers whether the value is there, and changes nothing.
  pub contains-Ensures :
      (val : ℕ)
      → Between val
      → (fuel : ℕ) (h : Plain) (set mn mx : ℕ) (cs : Cells) → IsIntSet P h set mn mx cs
      → length cs < fuel
      → Ensures P (λ r g. (r ≡ some (has val cs)) × (g ≡ h)) (contains fuel set val) h
  unfolding contains
  contains-Ensures val between fuel h set mn mx cs is lt =
      Ensures-bind P _ _ (search_from fuel set val) _ h
        (search_from-Ensures P val between fuel h set mn mx cs is lt)
        λ r g (same, (p, n, v, e, stops)).
          (rw (e, Stops-has P val between int_min stops is.rising) refl, same)

  count-Ensures :
      (fuel : ℕ) (h : Plain) (mx next size : ℕ) (cs : Cells)
      → Chain P h mx next cs
      → length cs + 1 < fuel
      → Ensures P
          (λ r g. (r ≡ some ((size + (length cs + 1)) % 2 ^ 32)) × (g ≡ h))
          (count fuel next (size % 2 ^ 32))
          h
  unfolding count
  count-Ensures zero h mx next size cs c lt = absurd (omega arith)
  count-Ensures (suc zero) h mx next size cs c lt = absurd (omega arith)
  count-Ensures (suc (suc fuel)) h mx next size [] (at, node, value, last) lt =
      let full : (mx == 0) ≡ false = ground (arith, node) in
      rw (at, full) (node.1, rw last (ap some (omega arith), refl))
  count-Ensures (suc fuel) h mx next size ((a, w) ∷ cs) (at, node, value, rest) lt =
      let full : (a == 0) ≡ false = ground (arith, node) in
      let one : (size % 2 ^ 32 + 1) % 2 ^ 32 ≡ (size + 1) % 2 ^ 32 = omega arith in
      rw (at, full)
        (
          node.1,
          rw one (
              Ensures-weaken P _ _ (count fuel (h (next_at a)) ((size + 1) % 2 ^ 32)) h
                (count-Ensures fuel h mx (h (next_at a)) (size + 1) cs rest (omega arith))
                λ r g (e, same). (e ∙ ap some (omega arith), same)),
        )

  -- On a set in memory, with two rounds more than elements, `set_size` gives one more than the number of elements,
  -- as an `int`, and changes nothing.
  pub set_size-Ensures :
      (fuel : ℕ) (h : Plain) (set mn mx : ℕ) (cs : Cells)
      → IsIntSet P h set mn mx cs
      → length cs + 1 < fuel
      → Ensures P (λ r g. (r ≡ some ((length cs + 1) % 2 ^ 32)) × (g ≡ h)) (set_size fuel set) h
  unfolding set_size
  set_size-Ensures fuel h set mn mx cs is lt = (
    is.set_word,
    rw is.head (
      is.first.1,
      Ensures-weaken P _ _ (count fuel (h (next_at mn)) 0) h
          (count-Ensures fuel h mx (h (next_at mn)) 0 cs is.chain lt)
          λ r g (e, same). (e ∙ ap some (omega arith), same),
    ),
  )

  -- A node that the set does not use can be freed, or anything be written to its first word.
  pub update-IsIntSet :
      (h : Plain) (set mn mx n v : ℕ) (cs : Cells)
      → IsIntSet P h set mn mx cs
      → Removed set mn mx cs n
      → IsIntSet P (update h n v) set mn mx cs
  update-IsIntSet h set mn mx n v cs is (d, off) = record {
    set_word = is.set_word;
    first = is.first;
    head = update-ne h n v set (λ e. d (sym e)) ∙ is.head;
    first_value = update-ne h n v mn off.0.0 ∙ is.first_value;
    chain =
        rw (update-ne h n v (next_at mn) off.0.1)
          (Chain-update P h n v mx (h (next_at mn)) cs off.1 is.chain);
    apart = is.apart;
    off = is.off;
    rising = is.rising;
  }

  -- The block of `new_node`, in a node that the set does not use.
  pub init_node-Ensures :
      (h : Plain) (set mn mx n val next : ℕ) (cs : Cells)
      → IsIntSet P h set mn mx cs
      → IsNew P n set mn mx cs
      → Ensures P (λ _ g. IsIntSet P g set mn mx cs) (init_node n val next) h
  unfolding init_node
  init_node-Ensures h set mn mx n val next cs is new = (
    new.node.0,
    (
      new.node.1,
      update-IsIntSet (update h n val) set mn mx (next_at n) next cs
          (update-IsIntSet h set mn mx n val cs is (new.off_set.0, new.away.0))
          (new.off_set.1, new.away.1),
    ),
  )
