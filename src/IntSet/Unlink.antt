-- ===== src/IntSet/Unlink.antt =====
-- `set_remove` on the set in memory.
use dstm_p.Common.{
  ℕ, ◌<◌, ◌≡◌, refl, sym, subst, ◌∙◌, ◌≢◌, true, false, some, ◌∷◌, ◌==◌, arith, Bool-cases, inl,
  inr, length,
}
use dstm_p.Interface.Blocks.{Plain, update, Ensures, Ensures-bind}
use dstm_p.IntSet.{int_min, int_max, next_at, search_from, unlink, remove}
use dstm_p.IntSet.Chain.{
  Cells, has, erase_absent, erase_cell, whole, Off, Apart, Between, Chain, Chain-update, IsIntSet,
  Apart-step, Apart-erase_cell, Off-erase_cell, Rising-erase_cell,
}
use dstm_p.IntSet.Seek.{
  Stops, at_end, here, later, Stops-Off, search_from-Ensures, Stops-has, Stops-nodes,
}

-- An address off the nodes ahead is off the one that the loop has before it.
Stops-ahead :
    {val mx prev p n v : ℕ} {cs : Cells} (x : ℕ)
    → Stops val mx prev cs p n v
    → Off x ((mx, int_max) ∷ cs)
    → (x ≢ n) × (x ≢ next_at n)
Stops-ahead x (at_end stop) o = o.0
Stops-ahead x (here stop) o = o.1.0
Stops-ahead x (later less s) o = Stops-ahead x s (o.0, o.1.1)

module _ (P : ℕ → Type 0) (val : ℕ) where
  -- Memory after `unlink`.
  abbrev unlinked : Plain → (n p : ℕ) → Plain
  unlinked h n p = update (update (update h (next_at p) (h (next_at n))) n 123456789) (next_at n) n

  unlinked-ne :
      (h : Plain) (n p x : ℕ) → x ≢ n → x ≢ next_at n → x ≢ next_at p → unlinked h n p x ≡ h x
  unlinked-ne h n p x d e f = ground arith

  -- The list with the value out.
  unlink-Chain :
      (h : Plain) (mx : ℕ) {prev p n v : ℕ} {cs : Cells}
      → Stops val mx prev cs p n v
      → Between val
      → (v == val) ≡ true
      → Apart ((prev, 0) ∷ (mx, int_max) ∷ cs)
      → Chain P h mx (h (next_at prev)) cs
      → Chain P (unlinked h n p) mx (unlinked h n p (next_at prev)) (erase_cell val cs)
  unfolding erase_cell
  unlink-Chain h mx (at_end stop) between eq apart c = absurd (ground (arith, between))
  unlink-Chain h mx {prev} (here {a = a} {w} {cs} stop) between eq apart c =
      let to : h (next_at a) ≡ unlinked h a prev (next_at prev) = ground (arith, apart) in
      rw eq (
        subst (λ q. Chain P (unlinked h a prev) mx q cs) to
          (Chain-update P (update (update h (next_at prev) (h (next_at a))) a 123456789) (next_at a)
            a mx (h (next_at a)) cs (ground (arith, apart), apart.1.1.0.1)
            (Chain-update P (update h (next_at prev) (h (next_at a))) a 123456789 mx (h (next_at a))
              cs (ground (arith, apart), apart.1.1.0.0)
              (Chain-update P h (next_at prev) (h (next_at a)) mx (h (next_at a)) cs
                (apart.0.1.0, apart.0.1.1.1) c.3))))
  unlink-Chain h mx {prev} {p} {n} (later {a = a} {w} {cs} less s) between eq apart c =
      let other : (w == val) ≡ false = ground arith in
      let (d, e) = Stops-ahead (next_at prev) s (apart.0.1.0, apart.0.1.1.1) in
      let (d', e') = Stops-ahead a s (ground (arith, apart), apart.1.1.0.0) in
      let before : unlinked h n p (next_at prev) ≡ h (next_at prev) =
        unlinked-ne h n p (next_at prev) d e
          (Stops-Off (next_at prev) s apart.0.1.1.0.1 apart.0.1.1.1) in
      let value : unlinked h n p a ≡ h a =
        unlinked-ne h n p a d' e' (Stops-Off a s (omega arith) apart.1.1.0.0) in
      rw other (
        before ∙ c.0,
        c.1,
        value ∙ c.2,
        unlink-Chain h mx s between eq (Apart-step prev mx a w cs apart) c.3,
      )

  -- The node that is taken out is none of those left.
  unlinked-Off :
      {mx prev p n v : ℕ} {cs : Cells}
      → Stops val mx prev cs p n v
      → Between val
      → (v == val) ≡ true
      → Apart ((prev, 0) ∷ (mx, int_max) ∷ cs)
      → Off n ((prev, 0) ∷ (mx, int_max) ∷ erase_cell val cs)
  unfolding erase_cell
  unlinked-Off (at_end stop) between eq apart = absurd (ground (arith, between))
  unlinked-Off (here {a = a} {w} {cs} stop) between eq apart =
      rw eq (ground (arith, apart), (ground (arith, apart), apart.1.1.0.0))
  unlinked-Off {mx} {prev} (later {a = a} {w} {cs} less s) between eq apart =
      let other : (w == val) ≡ false = ground arith in
      let (d, _) = Stops-ahead prev s (apart.0.0.0, apart.0.0.1.1) in
      let (e, _) = Stops-ahead (next_at prev) s (apart.0.1.0, apart.0.1.1.1) in
      let left = unlinked-Off s between eq (Apart-step prev mx a w cs apart) in
      rw other ((λ q. d (sym q), λ q. e (sym q)), (left.1.0, (left.0, left.1.1)))

-- A node that the set does not use any more.
abbrev pub Removed : (set mn mx : ℕ) → Cells → ℕ → Type 0
Removed set mn mx cs n = (set ≢ n) × Off n (whole mn mx cs)

module _ (P : ℕ → Type 0) (val : ℕ) (between : Between val) where
  unlinked-IsIntSet :
      (h : Plain) (set mn mx p n v : ℕ) (cs : Cells) (is : IsIntSet P h set mn mx cs)
      → Stops val mx mn cs p n v
      → (v == val) ≡ true
      → IsIntSet P (unlinked P val h n p) set mn mx (erase_cell val cs)
  unlinked-IsIntSet h set mn mx p n v cs is stops eq =
      let (d, e) = Stops-ahead set stops is.off.1 in
      let (d', e') = Stops-ahead mn stops is.apart.0.0 in
      record {
        set_word = is.set_word;
        first = is.first;
        head =
            unlinked-ne P val h n p set d e (Stops-Off set stops is.off.0.1 is.off.1.1) ∙ is.head;
        first_value =
            unlinked-ne P val h n p mn d' e' (Stops-Off mn stops (omega arith) is.apart.0.0.1)
            ∙ is.first_value;
        chain = unlink-Chain P val h mx stops between eq is.apart is.chain;
        apart = (
          (
            (is.apart.0.0.0, Off-erase_cell mn val cs is.apart.0.0.1),
            (is.apart.0.1.0, Off-erase_cell (next_at mn) val cs is.apart.0.1.1),
          ),
          (
            (
              Off-erase_cell mx val cs is.apart.1.0.0,
              Off-erase_cell (next_at mx) val cs is.apart.1.0.1,
            ),
            Apart-erase_cell val cs is.apart.1.1,
          ),
        );
        off = (is.off.0, (is.off.1.0, Off-erase_cell set val cs is.off.1.1));
        rising = Rising-erase_cell int_min val cs is.rising;
      }

  -- On a set in memory, `set_remove` answers whether the value was there; then the set does not have it, and
  -- does not use the node that is freed.
  pub remove-Ensures :
      (fuel : ℕ) (h : Plain) (set mn mx : ℕ) (cs : Cells)
      → IsIntSet P h set mn mx cs
      → length cs < fuel
      → Ensures P
          (λ r g.
            (n : ℕ) × (r ≡ some (has val cs, n))
            × IsIntSet P g set mn mx (erase_cell val cs)
            × (has val cs ≡ true → P n × Removed set mn mx (erase_cell val cs) n))
          (remove fuel set val)
          h
  unfolding remove unlink
  remove-Ensures fuel h set mn mx cs is lt =
      Ensures-bind P _ _ (search_from fuel set val) (unlink val) h
        (search_from-Ensures P val between fuel h set mn mx cs is lt)
        λ r g (same, (p, n, v, e, stops)).
          let there = Stops-has P val between int_min stops is.rising in
          let (at, node, _, _) = Stops-nodes P val between h stops is.first is.chain in
          rw (e, same)
            (elim (Bool-cases (v == val)) [
              | inl eq ↦
                  let after = unlinked-IsIntSet h set mn mx p n v cs is stops eq in
                  rw eq (
                    node.1,
                    (
                      at.1,
                      (
                        node.0,
                        (
                          node.1,
                          (
                            n,
                            rw (← there, eq) refl,
                            after,
                            λ _. (
                              node.0,
                              (
                                (Stops-ahead set stops is.off.1).0,
                                unlinked-Off P val stops between eq is.apart,
                              ),
                            ),
                          ),
                        ),
                      ),
                    ),
                  )
              | inr ne ↦ rw ne (
                n,
                rw (← there, ne) refl,
                rw (erase_absent val cs (sym there ∙ ne)) is,
                λ h. cc (sym there ∙ ne),
              )
            ])
