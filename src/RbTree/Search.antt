-- ===== src/RbTree/Search.antt =====
-- What `lookup` finds.
use dstm_p.Common.{
  ℕ, zero, suc, ◌+◌, ◌^◌, ◌<◌, ◌≡◌, refl, ap, ◌∙◌, ◌≢◌, true, false, some, ◌==◌, ltb, arith,
  Bool-cases, inl, inr,
}
use dstm_p.Interface.Blocks.{Plain, Ensures, Ensures-weaken}
use dstm_p.IntSet.{key}
use dstm_p.RbTree.{l_at, r_at, cmp_int, negative, lookup_from, lookup, widen}
use dstm_p.RbTree.Shape.{
  Tree, leaf, node, AllKeys, AllKeys-weaken, Ordered, Holds, size, address_of, address_of-absent,
}

-- A word that differs from the key by less than 2 ^ 31.
abbrev pub Near : (q k : ℕ) → Type 0
Near q k = (k < 2 ^ 64) × (key (widen q) < key k + 2 ^ 31) × (key k < key (widen q) + 2 ^ 31)

compare-Near :
    (q k : ℕ)
    → q < 2 ^ 32
    → Near q k
    → ((cmp_int q k == 0) ≡ (k == widen q)) × (negative (cmp_int q k) ≡ ltb (key (widen q)) (key k))
compare-Near q k small near = (ground arith, ground arith)

-- Where the key is in a node, and where it is in one of its trees alone.
module _ (w : ℕ) (l r : Tree) (a k c : ℕ) where
  pub address_here : (k == w) ≡ true → a ≡ address_of w (node l a k c r)
  address_here e = rw e refl

  pub address_left :
      (k == w) ≡ false
      → AllKeys (λ j. (j == w) ≡ false) r
      → address_of w l ≡ address_of w (node l a k c r)
  address_left e out = rw (e, address_of-absent w r out) (ground arith)

  pub address_right :
      (k == w) ≡ false
      → AllKeys (λ j. (j == w) ≡ false) l
      → address_of w r ≡ address_of w (node l a k c r)
  address_right e out = rw (e, address_of-absent w l out) refl

module _ (P : ℕ → Type 0) (q : ℕ) (small : q < 2 ^ 32) where
  lookup_from-Ensures :
      (fuel : ℕ) (h : Plain) (par p : ℕ) (t : Tree)
      → Holds P h par p t
      → Ordered t
      → AllKeys (Near q) t
      → size t < fuel
      → Ensures P (λ o g. (o ≡ some (address_of (widen q) t)) × (g ≡ h)) (lookup_from fuel p q) h
  unfolding lookup_from
  lookup_from-Ensures zero h par p t holds ordered near lt = absurd (omega arith)
  lookup_from-Ensures (suc fuel) h par p leaf holds ordered near lt = rw holds (refl, refl)
  lookup_from-Ensures (suc fuel) h par p (node l a k c r) (at, is, hk, hp, hc, hl, hr)
        (below, above, ol, or) (near, nearl, nearr) lt =
      let full : (a == 0) ≡ false = ground (arith, is) in
      let (eq, lt_eq) = compare-Near q k small near in
      rw (at, full)
        (
          is.0,
          rw (hk, eq)
              (elim (Bool-cases (k == widen q)) [
                | inl found ↦ rw found (ap some (address_here (widen q) l r a k c found), refl)
                | inr other ↦
                    rw (other, lt_eq)
                      (elim (Bool-cases (ltb (key (widen q)) (key k))) [
                        | inl less ↦ rw less (
                          is.3,
                          Ensures-weaken P _ _ (lookup_from fuel (h (l_at a)) q) h
                              (lookup_from-Ensures fuel h a (h (l_at a)) l hl ol nearl
                                (omega arith))
                              λ o g (e, same). (
                                e
                                    ∙ ap some (
                                        address_left (widen q) l r a k c other (
                                          AllKeys-weaken (λ j. key k < key j)
                                            (λ j. (j == widen q) ≡ false) r (λ j gt. ground arith)
                                            above)),
                                same,
                              ),
                        )
                        | inr more ↦ rw more (
                          is.4,
                          Ensures-weaken P _ _ (lookup_from fuel (h (r_at a)) q) h
                              (lookup_from-Ensures fuel h a (h (r_at a)) r hr or nearr
                                (omega arith))
                              λ o g (e, same). (
                                e
                                    ∙ ap some (
                                        address_right (widen q) l r a k c other (
                                          AllKeys-weaken (λ j. key j < key k)
                                            (λ j. (j == widen q) ≡ false) l (λ j gt. ground arith)
                                            below)),
                                same,
                              ),
                        )
                      ])
              ]),
        )

-- On an ordered tree in memory, with more rounds than nodes, `lookup` gives the node with the key, or NULL if there is none, and
-- changes nothing, where all keys of the tree differ from the one asked for by less than 2 ^ 31.
pub lookup-Ensures :
    (P : ℕ → Type 0) (fuel s q : ℕ) (h : Plain) (t : Tree)
    → q < 2 ^ 32
    → P s
    → Holds P h 0 (h s) t
    → Ordered t
    → AllKeys (Near q) t
    → size t < fuel
    → Ensures P (λ o g. (o ≡ some (address_of (widen q) t)) × (g ≡ h)) (lookup fuel s q) h
unfolding lookup
lookup-Ensures P fuel s q h t small word holds ordered near lt =
    (word, lookup_from-Ensures P q small fuel h 0 (h s) t holds ordered near lt)

compare_far :
    (q k : ℕ)
    → q < 2 ^ 32
    → k < 2 ^ 64
    → key (widen q) + 2 ^ 31 < key k
    → key k < key (widen q) + 2 ^ 32
    → ((cmp_int q k == 0) ≡ false) × (negative (cmp_int q k) ≡ false) × ((k == widen q) ≡ false)
compare_far q k small word low high = (ground arith, ground arith, ground arith)

-- The difference is cut to an `int`: where the key of the root is above the one asked for by more than 2 ^ 31 and less
-- than 2 ^ 32, and the root has no right child, `lookup` gives NULL, also where the tree has a node with the key.
pub lookup_misses :
    (P : ℕ → Type 0) (fuel s q a k c : ℕ) (h : Plain) (l : Tree)
    → q < 2 ^ 32
    → k < 2 ^ 64
    → P s
    → Holds P h 0 (h s) (node l a k c leaf)
    → key (widen q) + 2 ^ 31 < key k
    → key k < key (widen q) + 2 ^ 32
    → address_of (widen q) l ≢ 0
    → Ensures P (λ o g. (o ≡ some 0) × (g ≡ h)) (lookup (suc (suc fuel)) s q) h
      × (address_of (widen q) (node l a k c leaf) ≢ 0)
unfolding lookup lookup_from
lookup_misses P fuel s q a k c h l small word ps (at, is, hk, hp, hc, hl, hr) low high there =
    let full : (a == 0) ≡ false = ground (arith, is) in
    let (differs, not_below, other) = compare_far q k small word low high in
    (
      (ps, rw (at, full) (is.0, rw (hk, differs, not_below) (is.4, rw hr (refl, refl)))),
      λ e. there (address_left (widen q) l leaf a k c other tt ∙ e),
    )
