-- ===== src/RbTree/Count.antt =====
-- What `rbtree_getsize` counts.
use dstm_p.Common.{
  ℕ, zero, suc, ◌+◌, ◌-◌, ◌%◌, ◌^◌, ◌≤◌, ◌<◌, ◌≡◌, refl, subst, ◌≢◌, Bool, true, false, Option,
  some, ◌==◌, if◌then◌else◌, arith,
}
use dstm_p.Interface.{Body}
use dstm_p.Interface.Blocks.{Plain, Ensures, Ensures-bind}
use dstm_p.RbTree.{p_at, l_at, r_at}
use dstm_p.RbTree.Walk.{leftmost, climb, successor, first_entry, count_nodes, get_size}
use dstm_p.RbTree.Shape.{Tree, leaf, node, AllNodes, Clear, Apart, IsNode, Holds, size}

-- The first node in the order of the tree, or `d` if there is none.
abbrev first_or : ℕ → Tree → ℕ
first_or d leaf = d
first_or d (node l a k c r) = first_or a l

module _ (P : ℕ → Type 0) (h : Plain) where
  -- The code gives the node and leaves memory alone.
  abbrev Gives : Body (Option ℕ) → ℕ → Type 0
  Gives body v = Ensures P (λ o g. (o ≡ some v) × (g ≡ h)) body h

  Ensures-else :
      {A : Type 0} (Q : A → Plain → Type 0) (b : Bool) (first other : Body A)
      → b ≡ false
      → Ensures P Q other h
      → Ensures P Q (if b then first else other) h
  Ensures-else Q b first other e holds = rw e holds

  leftmost-Gives :
      (fuel par p a k c : ℕ) (l r : Tree)
      → Holds P h par p (node l a k c r)
      → size l < fuel
      → Gives (leftmost fuel p) (first_or a l)
  unfolding leftmost
  leftmost-Gives zero par p a k c l r holds lt = absurd (omega arith)
  leftmost-Gives (suc fuel) par p a k c leaf r (at, is, hk, hp, hc, hl, hr) lt =
      rw at (is.3, rw hl (refl, refl))
  leftmost-Gives (suc fuel) par p a k c (node l a2 k2 c2 r2) r (at, is, hk, hp, hc, hl, hr) lt =
      let full : (h (l_at a) == 0) ≡ false = ground (arith, hl.1, hl.0) in
      rw at
        (is.3, rw full (is.3, leftmost-Gives fuel a (h (l_at a)) a2 k2 c2 l r2 hl (omega arith)))

  climb_stops :
      (fuel ch a : ℕ)
      → 1 ≤ fuel
      → IsNode P a
      → (ch == h (r_at a)) ≡ false
      → Gives (climb fuel ch a) a
  unfolding climb
  climb_stops zero ch a le is other = absurd (omega arith)
  climb_stops (suc fuel) ch a le is other =
      let full : (a == 0) ≡ false = ground (arith, is) in rw full (is.4, rw other (refl, refl))

  climb_on :
      (fuel bound ch a par v : ℕ)
      → suc bound ≤ fuel
      → IsNode P a
      → (ch == h (r_at a)) ≡ true
      → h (p_at a) ≡ par
      → ((k : ℕ) → bound ≤ k → Gives (climb k a par) v)
      → Gives (climb fuel ch a) v
  unfolding climb
  climb_on zero bound ch a par v le is same hp above = absurd (omega arith)
  climb_on (suc fuel) bound ch a par v le is same hp above =
      let full : (a == 0) ≡ false = ground (arith, is) in
      rw full (is.4, rw same (is.2, rw hp (above fuel (omega arith))))

  climb_ends : (fuel ch : ℕ) → 1 ≤ fuel → Gives (climb fuel ch 0) 0
  unfolding climb
  climb_ends zero ch le = absurd (omega arith)
  climb_ends (suc fuel) ch le = (refl, refl)

  roots_differ :
      (a p q : ℕ) (l r : Tree)
      → Holds P h a p l
      → Holds P h a q r
      → AllNodes (λ b. AllNodes (Clear b) r) l
      → p ≢ 0
      → (p == q) ≡ false
  roots_differ a p q leaf r hl hr clear some_p = absurd (some_p hl)
  roots_differ a p q (node l a1 k1 c1 r1) leaf hl hr clear some_p = ground arith
  roots_differ a p q (node l a1 k1 c1 r1) (node l2 a2 k2 c2 r2) hl hr clear some_p =
      ground (arith, hl.0, hr.0, clear.0.0)

  successor-Gives :
      (inner par p a k c next : ℕ) (l r : Tree)
      → Holds P h par p (node l a k c r)
      → Gives (climb inner a par) next
      → size r < inner
      → Gives (successor inner a) (first_or next r)
  unfolding successor
  successor-Gives inner par p a k c next l leaf (at, is, hk, hp, hc, hl, hr) above lt =
      let full : (a == 0) ≡ false = ground (arith, is) in rw full (is.4, rw hr (is.2, rw hp above))
  successor-Gives inner par p a k c next l (node l2 a2 k2 c2 r2) (at, is, hk, hp, hc, hl, hr) above
        lt =
      let full : (a == 0) ≡ false = ground (arith, is) in
      let some_r : (h (r_at a) == 0) ≡ false = ground (arith, hr.1, hr.0) in
      rw full (
        is.4,
        rw some_r (is.4, leftmost-Gives inner a (h (r_at a)) a2 k2 c2 l2 r2 hr (omega arith)),
      )

  module _ (inner : ℕ) (Q : Option ℕ → Plain → Type 0) where
    node_counted :
        (fuel a next n : ℕ)
        → IsNode P a
        → Gives (successor inner a) next
        → n + 1 < 2 ^ 32
        → Ensures P Q (count_nodes fuel inner next (n + 1)) h
        → Ensures P Q (count_nodes (suc fuel) inner a n) h
    unfolding count_nodes
    node_counted fuel a next n is gives small rest =
        let full : (a == 0) ≡ false = ground (arith, is) in
        let wrapped : (n + 1) % 2 ^ 32 ≡ n + 1 = omega arith in
        Ensures-else Q (a == 0) _ _ full (
          Ensures-bind P _ _ (successor inner a) _ h gives
            λ o g (e, same). rw (e, same, wrapped) rest)

    counted : (fuel n : ℕ) → 1 ≤ fuel → Q (some n) h → Ensures P Q (count_nodes fuel inner 0 n) h
    unfolding count_nodes
    counted zero n le q = absurd (omega arith)
    counted (suc fuel) n le q = q

    -- From the first node of a tree on, all its nodes are counted, before the node that comes behind it.
    tree_counted :
        (fuel f n bound par p next : ℕ) (t : Tree)
        → Holds P h par p t
        → Apart t
        → (p ≢ 0 → (k : ℕ) → bound ≤ k → Gives (climb k p par) next)
        → bound + size t ≤ inner
        → fuel ≡ size t + f
        → n + size t < 2 ^ 32
        → Ensures P Q (count_nodes f inner next (n + size t)) h
        → Ensures P Q (count_nodes fuel inner (first_or next t) n) h
    tree_counted fuel f n bound par p next leaf holds apart above le to small rest =
        let same : fuel ≡ f = omega arith in
        let sum : n + size leaf ≡ n = omega arith in
        rw same (subst (λ m. Ensures P Q (count_nodes f inner next m) h) sum rest)
    tree_counted fuel f n bound par p next (node l a k c r) (at, is, hk, hp, hc, hl, hr) apart above
          le to small rest =
        let (_, _, clear, al, ar) = apart in
        let some_p : p ≢ 0 = λ e. ground (arith, is) in
        let sum : n + size (node l a k c r) ≡ n + size l + 1 + size r = omega arith in
        tree_counted fuel (suc (size r + f)) n 1 a (h (l_at a)) a l hl al
          (λ some_l m le1.
            climb_stops m (h (l_at a)) a le1 is
              (roots_differ a (h (l_at a)) (h (r_at a)) l r hl hr clear some_l))
          (omega arith) (omega arith) (omega arith)
          (node_counted (size r + f) a (first_or next r) (n + size l) is
            (successor-Gives inner par p a k c next l r (at, is, hk, hp, hc, hl, hr)
              (subst (λ q. Gives (climb inner q par) next) at (above some_p inner (omega arith)))
              (omega arith))
            (omega arith)
            (tree_counted (size r + f) f (n + size l + 1) (suc bound) a (h (r_at a)) next r hr ar
              (λ some_r m le1.
                climb_on m bound (h (r_at a)) a par next le1 is (ground arith) hp
                  λ j le2. subst (λ q. Gives (climb j q par) next) at (above some_p j le2))
              (omega arith) refl (omega arith)
              (subst (λ m. Ensures P Q (count_nodes f inner next m) h) sum rest)))

    -- From the first node of the tree below the root pointer on.
    root_counted :
        (p : ℕ) (t : Tree)
        → Holds P h 0 p t
        → Apart t
        → size t < inner
        → size t < 2 ^ 32
        → Q (some (size t)) h
        → Ensures P Q (count_nodes inner inner (first_or 0 t) 0) h
    root_counted p t holds apart lt small q =
        tree_counted inner (inner - size t) 0 1 0 p 0 t holds apart
          (λ some_p k le. climb_ends k p le) (omega arith) (omega arith) (omega arith)
          (counted (inner - size t) (0 + size t) (omega arith)
            (subst (λ m. Q (some m) h) (omega arith) q))

  first_entry-Gives :
      (fuel s : ℕ) (t : Tree)
      → P s
      → Holds P h 0 (h s) t
      → size t < fuel
      → Gives (first_entry fuel s) (first_or 0 t)
  unfolding first_entry
  first_entry-Gives fuel s leaf word holds lt = (word, rw holds (refl, refl))
  first_entry-Gives fuel s (node l a k c r) word holds lt =
      let full : (h s == 0) ≡ false = ground (arith, holds.1, holds.0) in
      (word, rw full (leftmost-Gives fuel 0 (h s) a k c l r holds (omega arith)))

-- On a tree in memory without nodes that share words, with more rounds than nodes, and no more nodes than an `int` counts,
-- `rbtree_getsize` gives the number of nodes and changes nothing.
pub get_size-Ensures :
    (P : ℕ → Type 0) (fuel s : ℕ) (h : Plain) (t : Tree)
    → P s
    → Holds P h 0 (h s) t
    → Apart t
    → size t < fuel
    → size t < 2 ^ 31
    → Ensures P (λ o g. (o ≡ some (size t)) × (g ≡ h)) (get_size fuel s) h
unfolding get_size
get_size-Ensures P fuel s h t word holds apart lt small =
    Ensures-bind P _ _ (first_entry fuel s) _ h (first_entry-Gives P h fuel s t word holds lt)
      λ o g (e, same).
        rw (e, same)
          (root_counted P h fuel (λ v m. (v ≡ some (size t)) × (m ≡ h)) (h s) t holds apart lt
            (omega arith) (refl, refl))
