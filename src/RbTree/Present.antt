-- ===== src/RbTree/Present.antt =====
-- `insert` of a key that the tree has.
use dstm_p.Common.{
  ℕ, zero, suc, ◌+◌, ◌^◌, ◌≤◌, ◌<◌, ◌≡◌, refl, sym, ap, ◌∙◌, ◌≢◌, false, not, some, ◌==◌, ltb,
  arith, Bool-cases, inl, inr,
}
use dstm_p.Interface.Blocks.{Plain, Ensures, Ensures-weaken}
use dstm_p.IntSet.{key}
use dstm_p.RbTree.{l_at, r_at, widen}
use dstm_p.RbTree.Insertion.{cmp_long, insert_from, insert}
use dstm_p.RbTree.Shape.{
  Tree, leaf, node, AllKeys, AllKeys-weaken, Ordered, Holds, size, address_of,
}
use dstm_p.RbTree.Search.{address_here, address_left, address_right}

-- A word that is an `int`, as all keys that `insert` writes are.
abbrev pub IsInt : ℕ → Type 0
IsInt k = (k < 2 ^ 64) × (2 ^ 63 ≤ key k + 2 ^ 31) × (key k < 2 ^ 63 + 2 ^ 31)

compare_ints :
    (q k : ℕ)
    → q < 2 ^ 32
    → IsInt k
    → ((cmp_long q k == 0) ≡ (k == widen q))
      × (not (ltb (cmp_long q k) (2 ^ 63)) ≡ ltb (key (widen q)) (key k))
compare_ints q k small int = (ground arith, ground arith)

module _ (P : ℕ → Type 0) where
  -- A tree with the key is not NULL.
  present-full :
      (h : Plain) (par p w : ℕ) (t : Tree)
      → Holds P h par p t
      → address_of w t ≢ 0
      → (p == 0) ≡ false
  present-full h par p w leaf holds there = absurd (there refl)
  present-full h par p w (node l a k c r) holds there = ground (arith, holds.1, holds.0)

  module _ (q v n : ℕ) (small : q < 2 ^ 32) where
    insert_from-Present :
        (fuel s : ℕ) (h : Plain) (par p : ℕ) (t : Tree)
        → Holds P h par p t
        → Ordered t
        → AllKeys IsInt t
        → address_of (widen q) t ≢ 0
        → size t ≤ fuel
        → Ensures P
            (λ o g. (o ≡ some (address_of (widen q) t)) × (g ≡ h))
            (insert_from fuel s q v n p)
            h
    unfolding insert_from
    insert_from-Present fuel s h par p leaf holds ordered ints there le = absurd (there refl)
    insert_from-Present zero s h par p (node l a k c r) holds ordered ints there le =
        absurd (omega arith)
    insert_from-Present (suc fuel) s h par p (node l a k c r) (at, is, hk, hp, hc, hl, hr)
          (below, above, ol, or) (int, intl, intr) there le =
        let (eq, lt_eq) = compare_ints q k small int in
        rw at (
          is.0,
          rw (hk, eq)
              (elim (Bool-cases (k == widen q)) [
                | inl found ↦ rw found (ap some (address_here (widen q) l r a k c found), refl)
                | inr other ↦
                    rw (other, lt_eq)
                      (elim (Bool-cases (ltb (key (widen q)) (key k))) [
                        | inl less ↦
                            let same_left = address_left (widen q) l r a k c other (
                              AllKeys-weaken (λ j. key k < key j) (λ j. (j == widen q) ≡ false) r
                                (λ j gt. ground arith) above) in
                            let there_l : address_of (widen q) l ≢ 0 =
                              λ e. there (sym same_left ∙ e) in
                            rw less (
                              is.3,
                              rw (present-full h a (h (l_at a)) (widen q) l hl there_l) (
                                  Ensures-weaken P _ _ (insert_from fuel s q v n (h (l_at a))) h
                                    (insert_from-Present fuel s h a (h (l_at a)) l hl ol intl
                                      there_l (omega arith))
                                    λ o g (e, same). (e ∙ ap some same_left, same)),
                            )
                        | inr more ↦
                            let same_right = address_right (widen q) l r a k c other (
                              AllKeys-weaken (λ j. key j < key k) (λ j. (j == widen q) ≡ false) l
                                (λ j lt. ground arith) below) in
                            let there_r : address_of (widen q) r ≢ 0 =
                              λ e. there (sym same_right ∙ e) in
                            rw more (
                              is.4,
                              rw (present-full h a (h (r_at a)) (widen q) r hr there_r) (
                                  Ensures-weaken P _ _ (insert_from fuel s q v n (h (r_at a))) h
                                    (insert_from-Present fuel s h a (h (r_at a)) r hr or intr
                                      there_r (omega arith))
                                    λ o g (e, same). (e ∙ ap some same_right, same)),
                            )
                      ])
              ]),
        )

-- `insert` of a key that an ordered tree in memory has, whose keys are of type `int`, with as many rounds as nodes: it returns the
-- node with the key and changes nothing, however far apart the keys are.
pub insert-Present :
    (P : ℕ → Type 0) (fuel s q v n : ℕ) (h : Plain) (t : Tree)
    → q < 2 ^ 32
    → P s
    → Holds P h 0 (h s) t
    → Ordered t
    → AllKeys IsInt t
    → address_of (widen q) t ≢ 0
    → size t ≤ fuel
    → Ensures P (λ o g. (o ≡ some (address_of (widen q) t)) × (g ≡ h)) (insert fuel s q v n) h
unfolding insert
insert-Present P fuel s q v n h t small word holds ordered ints there le = (
  word,
  rw (present-full P h 0 (h s) (widen q) t holds there)
      (insert_from-Present P q v n small fuel s h 0 (h s) t holds ordered ints there le),
)
