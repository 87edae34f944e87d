-- ===== src/RbTree/Verify.antt =====
-- What `verifyRedBlack` finds.
use dstm_p.Common.{
  ℕ, zero, suc, ◌+◌, ◌^◌, ◌≤◌, ◌<◌, ◌≡◌, refl, ap, Bool, true, false, not, ◌&&◌, some, ◌==◌,
  if◌then◌else◌, arith, Bool-cases, inl, inr,
}
use dstm_p.Interface.Blocks.{Plain, Ensures, Ensures-bind}
use dstm_p.RbTree.{l_at, r_at, red, black}
use dstm_p.RbTree.Walk.{red_child, verify_node, verify_red_black}
use dstm_p.RbTree.Shape.{Tree, leaf, node, Holds, size}

abbrev not_black : Tree → Bool
not_black leaf = false
not_black (node l a k c r) = not (c == black)

-- Every node is red or black, and a red one has no child that is not black.
abbrev pub alternates : Tree → Bool
alternates leaf = true
alternates (node l a k c r) =
    let below = alternates l in
    let above = alternates r in
    below && (above && (if c == red then not (not_black l) && not (not_black r) else c == black))

-- The number of black nodes, with the leaf, on the leftmost path.
abbrev pub left_height : Tree → ℕ
left_height leaf = 1
left_height (node l a k c r) = let below = left_height l in if c == red then below else below + 1

abbrev pub verdict : Tree → ℕ
verdict t = if alternates t then left_height t else 0

left_height-bounds : (t : Tree) → (0 < left_height t) × (left_height t ≤ size t + 1)
left_height-bounds leaf = (omega arith, omega arith)
left_height-bounds (node l a k c r) =
    let (low, high) = left_height-bounds l in (ground arith, ground arith)

module _ (P : ℕ → Type 0) where
  red_child-Ensures :
      (h : Plain) (par at : ℕ) (t : Tree)
      → P at
      → Holds P h par (h at) t
      → Ensures P (λ b g. (b ≡ not_black t) × (g ≡ h)) (red_child at) h
  unfolding red_child
  red_child-Ensures h par at leaf word holds = (word, rw holds (refl, refl))
  red_child-Ensures h par at (node l a k c r) word (to, is, hk, hp, hc, hl, hr) =
      let full : (a == 0) ≡ false = ground (arith, is) in
      (word, rw (to, full) (word, rw to (is.5, (ap (λ x. not (x == black)) hc, refl))))

  verify_node-Ensures :
      (h : Plain) (par p a k c : ℕ) (l r : Tree)
      → Holds P h par p (node l a k c r)
      → size l + 2 < 2 ^ 32
      → Ensures P
          (λ o g. (o ≡ some (verdict (node l a k c r))) × (g ≡ h))
          (verify_node a (verdict l) (verdict r))
          h
  unfolding verify_node
  verify_node-Ensures h par p a k c l r (to, is, hk, hp, hc, hl, hr) small =
      elim (Bool-cases (alternates l)) [
        | inr e ↦ rw e (refl, refl)
        | inl bl ↦ elim (Bool-cases (alternates r)) [
          | inr e ↦
              let below : (left_height l == 0) ≡ false = ground (arith, left_height-bounds l) in
              rw (bl, e, below) (refl, refl)
          | inl br ↦
              let below : (left_height l == 0) ≡ false = ground (arith, left_height-bounds l) in
              let above : (left_height r == 0) ≡ false = ground (arith, left_height-bounds r) in
              rw (bl, br, below, above)
                (
                  is.5,
                  rw hc (elim (Bool-cases (c == red)) [
                    | inl e ↦ rw e (
                        Ensures-bind P _ _ (red_child (l_at a)) _ h
                          (red_child-Ensures h a (l_at a) l is.3 hl)
                          λ b g (eb, same).
                            rw (eb, same)
                              (elim (Bool-cases (not_black l)) [
                                | inl n ↦ rw n (ap some (ground arith), refl)
                                | inr n ↦ rw n (
                                    Ensures-bind P _ _ (red_child (r_at a)) _ h
                                      (red_child-Ensures h a (r_at a) r is.4 hr)
                                      λ b1 g1 (e1, same1).
                                        rw (e1, same1)
                                          (elim (Bool-cases (not_black r)) [
                                            | inl m ↦ rw m (ap some (ground arith), refl)
                                            | inr m ↦ rw m (ap some (ground arith), refl)
                                          ]))
                              ]))
                    | inr e ↦
                        rw e (is.5, rw hc (ap some (ground (arith, left_height-bounds l)), refl))
                  ]),
                )
        ]
      ]

  verify-Ensures :
      (depth : ℕ) (h : Plain) (par p : ℕ) (t : Tree)
      → Holds P h par p t
      → size t < depth
      → size t + 1 < 2 ^ 32
      → Ensures P (λ o g. (o ≡ some (verdict t)) × (g ≡ h)) (verify_red_black depth p) h
  unfolding verify_red_black
  verify-Ensures zero h par p t holds lt small = absurd (omega arith)
  verify-Ensures (suc depth) h par p leaf holds lt small = rw holds (refl, refl)
  verify-Ensures (suc depth) h par p (node l a k c r) (to, is, hk, hp, hc, hl, hr) lt small =
      let full : (a == 0) ≡ false = ground (arith, is) in
      rw (to, full)
        (
          is.3,
          Ensures-bind P _ _ (verify_red_black depth (h (l_at a))) _ h
              (verify-Ensures depth h a (h (l_at a)) l hl (omega arith) (omega arith))
              λ o g (e, same).
                rw (e, same)
                  (
                    is.4,
                    Ensures-bind P _ _ (verify_red_black depth (h (r_at a))) _ h
                        (verify-Ensures depth h a (h (r_at a)) r hr (omega arith) (omega arith))
                        λ o1 g1 (e1, same1).
                          rw (e1, same1)
                            (rw to (
                              verify_node-Ensures h par a a k c l r (refl, is, hk, hp, hc, hl, hr)
                                (omega arith))),
                  ),
        )

-- With more levels than nodes, and fewer nodes than an `int` counts, `verifyRedBlack` changes nothing, and on a tree that memory holds it returns zero if
-- a node is neither red nor black or a red node has a child that is not black, and else the height in black nodes of the leftmost path,
-- whatever the heights of other paths.
pub verify_red_black-Ensures :
    (P : ℕ → Type 0) (depth : ℕ) (h : Plain) (par p : ℕ) (t : Tree)
    → Holds P h par p t
    → size t < depth
    → size t + 1 < 2 ^ 31
    → Ensures P
        (λ o g. (o ≡ some (if alternates t then left_height t else 0)) × (g ≡ h))
        (verify_red_black depth p)
        h
verify_red_black-Ensures P depth h par p t holds lt small =
    verify-Ensures P depth h par p t holds lt (omega arith)
