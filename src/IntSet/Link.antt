-- ===== src/IntSet/Link.antt =====
-- `set_add` on the set in memory.
use dstm_p.Common.{
  ℕ, ◌<◌, ◌≡◌, refl, subst, ◌∙◌, ◌≢◌, not, true, false, some, [], ◌∷◌, ◌==◌, arith, Bool-cases, inl,
  inr, length,
}
use dstm_p.Interface.Blocks.{Plain, update, Ensures, Ensures-bind}
use dstm_p.IntSet.{int_min, int_max, next_at, search_from, link, add}
use dstm_p.IntSet.Chain.{
  Cells, has, insert_cell, whole, Off, Away, Apart, Between, Node, Chain, Chain-update, IsIntSet,
  Off-step, Apart-step, Apart-insert_cell, Off-insert_cell, Rising-insert_cell,
}
use dstm_p.IntSet.Seek.{
  Stops, at_end, here, later, Stops-Off, search_from-Ensures, Stops-has, Stops-nodes,
}

module _ (P : ℕ → Type 0) (val : ℕ) where
  -- Memory after `link`.
  abbrev linked : Plain → (nd n p : ℕ) → Plain
  linked h nd n p = update (update (update h nd val) (next_at nd) n) (next_at p) nd

  linked-ne :
      (h : Plain) (nd n p x : ℕ) → x ≢ nd → x ≢ next_at nd → x ≢ next_at p → linked h nd n p x ≡ h x
  linked-ne h nd n p x d e f = ground arith

  linked_frame :
      (h : Plain) (nd mx n p q : ℕ) (cs : Cells)
      → Away nd ((mx, int_max) ∷ cs)
      → Off (next_at p) ((mx, int_max) ∷ cs)
      → Chain P h mx q cs
      → Chain P (linked h nd n p) mx q cs
  linked_frame h nd mx n p q cs away off c =
      Chain-update P (update (update h nd val) (next_at nd) n) (next_at p) nd mx q cs off (
        Chain-update P (update h nd val) (next_at nd) n mx q cs away.1
          (Chain-update P h nd val mx q cs away.0 c))

  -- Where the loop stops the new node stands in front of the rest.
  link_here :
      (h : Plain) (nd mx prev n : ℕ) (cs : Cells)
      → Node P nd
      → Away nd ((prev, 0) ∷ (mx, int_max) ∷ cs)
      → Off (next_at prev) ((mx, int_max) ∷ cs)
      → Chain P h mx n cs
      → Chain P (linked h nd n prev) mx (linked h nd n prev (next_at prev)) ((nd, val) ∷ cs)
  link_here h nd mx prev n cs node away off c =
      let to : n ≡ linked h nd n prev (next_at nd) = ground (arith, away) in
      (
        ground arith,
        node,
        ground (arith, away),
        subst (λ q. Chain P (linked h nd n prev) mx q cs) to
            (linked_frame h nd mx n prev n cs (away.0.1, away.1.1) off c),
      )

  -- The list with the value in.
  link-Chain :
      (h : Plain) (nd mx : ℕ) {prev p n v : ℕ} {cs : Cells}
      → Stops val mx prev cs p n v
      → (v == val) ≡ false
      → Node P nd
      → Away nd ((prev, 0) ∷ (mx, int_max) ∷ cs)
      → Apart ((prev, 0) ∷ (mx, int_max) ∷ cs)
      → Chain P h mx (h (next_at prev)) cs
      → Chain P (linked h nd n p) mx (linked h nd n p (next_at prev)) (insert_cell val nd cs)
  unfolding insert_cell
  link-Chain h nd mx {prev} (at_end stop) ne node away apart c =
      link_here h nd mx prev mx [] node away apart.0.1 (refl, c.1, c.2, c.3)
  link-Chain h nd mx {prev} (here {a = a} {w} {cs} stop) ne node away apart c =
      rw (stop, ne)
        (link_here h nd mx prev a ((a, w) ∷ cs) node away apart.0.1 (refl, c.1, c.2, c.3))
  link-Chain h nd mx {prev} {p} {n} (later {a = a} {w} {cs} less s) ne node away apart c =
      let before : linked h nd n p (next_at prev) ≡ h (next_at prev) =
        linked-ne h nd n p (next_at prev) (ground (arith, away)) (ground (arith, away))
          (Stops-Off (next_at prev) s apart.0.1.1.0.1 apart.0.1.1.1) in
      let value : linked h nd n p a ≡ h a =
        linked-ne h nd n p a (ground (arith, away)) (ground (arith, away))
          (Stops-Off a s (omega arith) apart.1.1.0.0) in
      rw less (
        before ∙ c.0,
        c.1,
        value ∙ c.2,
        link-Chain h nd mx s ne node
            (Off-step prev mx a w cs nd away.0, Off-step prev mx a w cs (next_at nd) away.1)
            (Apart-step prev mx a w cs apart) c.3,
      )

  -- Where the value is found, the list has it in.
  link_same :
      {mx prev p n v : ℕ} {cs : Cells} (nd : ℕ)
      → Between val
      → Stops val mx prev cs p n v
      → (v == val) ≡ true
      → insert_cell val nd cs ≡ cs
  unfolding insert_cell
  link_same nd between (at_end stop) e = absurd (ground (arith, between))
  link_same nd between (here stop) e = rw (stop, e) refl
  link_same nd between (later less s) e = rw (less, link_same nd between s e) refl

-- A node that the set does not use.
pub record IsNew (P : ℕ → Type 0) (nd set mn mx : ℕ) (cs : Cells) : Type 0 where
  pub node : Node P nd
  pub away : Away nd (whole mn mx cs)
  pub off_set : (set ≢ nd) × (set ≢ next_at nd)

insert_cell-Away :
    (val nd x : ℕ) (cs : Cells)
    → x ≢ nd
    → x ≢ next_at nd
    → next_at x ≢ nd
    → Away x cs
    → Away x (insert_cell val nd cs)
insert_cell-Away val nd x cs d e f away = (
  Off-insert_cell x val nd cs d e away.0,
  Off-insert_cell (next_at x) val nd cs f (omega arith) away.1,
)

Apart-whole :
    (val nd mn mx : ℕ) (cs : Cells)
    → Away nd (whole mn mx cs)
    → Apart (whole mn mx cs)
    → Apart (whole mn mx (insert_cell val nd cs))
Apart-whole val nd mn mx cs away apart =
    let (off_mn, next_mn) =
      insert_cell-Away val nd mn cs (omega (arith, away.0.0.0)) (ground (arith, away))
        (ground (arith, away)) (apart.0.0.1, apart.0.1.1) in
    (
      ((apart.0.0.0, off_mn), (apart.0.1.0, next_mn)),
      (
        insert_cell-Away val nd mx cs (ground (arith, away)) (ground (arith, away))
            (ground (arith, away)) apart.1.0,
        Apart-insert_cell val nd cs (away.0.1.1, away.1.1.1) apart.1.1,
      ),
    )

module _ (P : ℕ → Type 0) (val : ℕ) (between : Between val) where
  linked-IsIntSet :
      (h : Plain) (set mn mx nd p n v : ℕ) (cs : Cells) (is : IsIntSet P h set mn mx cs)
      → IsNew P nd set mn mx cs
      → Stops val mx mn cs p n v
      → (v == val) ≡ false
      → IsIntSet P (linked P val h nd n p) set mn mx (insert_cell val nd cs)
  linked-IsIntSet h set mn mx nd p n v cs is new stops ne = record {
    set_word = is.set_word;
    first = is.first;
    head =
        linked-ne P val h nd n p set new.off_set.0 new.off_set.1
          (Stops-Off set stops is.off.0.1 is.off.1.1)
        ∙ is.head;
    first_value =
        linked-ne P val h nd n p mn (ground (arith, new.away)) (ground (arith, new.away))
          (Stops-Off mn stops (omega arith) is.apart.0.0.1)
        ∙ is.first_value;
    chain = link-Chain P val h nd mx stops ne new.node new.away is.apart is.chain;
    apart = Apart-whole val nd mn mx cs new.away is.apart;
    off = (
      is.off.0,
      (is.off.1.0, Off-insert_cell set val nd cs new.off_set.0 new.off_set.1 is.off.1.1),
    );
    rising = Rising-insert_cell int_min val nd cs between between.1 is.rising;
  }

  -- On a set in memory, with a new node, `set_add` answers whether the value was not there; then the set has it.
  pub add-Ensures :
      (fuel : ℕ) (h : Plain) (set mn mx nd : ℕ) (cs : Cells) (is : IsIntSet P h set mn mx cs)
      → IsNew P nd set mn mx cs
      → length cs < fuel
      → Ensures P
          (λ r g. (r ≡ some (not (has val cs))) × IsIntSet P g set mn mx (insert_cell val nd cs))
          (add fuel set val nd)
          h
  unfolding add link
  add-Ensures fuel h set mn mx nd cs is new lt =
      Ensures-bind P _ _ (search_from fuel set val) (link val nd) h
        (search_from-Ensures P val between fuel h set mn mx cs is lt)
        λ r g (same, (p, n, v, e, stops)).
          rw (e, same)
            (elim (Bool-cases (v == val)) [
              | inl eq ↦ rw eq (
                rw (← Stops-has P val between int_min stops is.rising, eq) refl,
                rw (link_same P val nd between stops eq) is,
              )
              | inr ne ↦
                  let (at, _, _, _) = Stops-nodes P val between h stops is.first is.chain in
                  rw ne (
                    new.node.0,
                    (
                      new.node.1,
                      (
                        at.1,
                        (
                          rw (← Stops-has P val between int_min stops is.rising, ne) refl,
                          linked-IsIntSet h set mn mx nd p n v cs is new stops ne,
                        ),
                      ),
                    ),
                  )
            ])
