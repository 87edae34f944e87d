-- ===== src/RbTree/Rotation.antt =====
-- `rotateLeft`, on the tree that memory holds.
use dstm_p.Common.{
  ℕ, ◌≡◌, refl, sym, subst, ap, ◌∙◌, ◌≢◌, ◌⊎◌, true, false, ◌==◌, if◌then◌else◌, arith, Bool-cases,
  inl, inr,
}
use dstm_p.Interface.Blocks.{
  Plain, update, Ensures, Ensures-bind, Ensures-weaken, ◌>>=◌, ◌>>◌, load, store,
}
use dstm_p.RbTree.{p_at, l_at, r_at, relink, rotate_left}
use dstm_p.RbTree.Shape.{
  Tree, leaf, node, AllNodes, AllNodes-weaken, Outside, Clear, Apart, IsNode, Holds,
}
use dstm_p.RbTree.Turned.{left_turned, left_turned-Holds, turned_slot, turned_elsewhere}

-- The address of the pointer to the child `x` of `par`, or to the root.
abbrev pub slot_of : Plain → (s x par : ℕ) → ℕ
slot_of h s x par = if par == 0 then s else (if h (l_at par) == x then l_at par else r_at par)

-- The parent of the node `x`: NULL, or a node beside the tree.
abbrev pub IsParent : (ℕ → Type 0) → (par : ℕ) → Tree → Type 0
IsParent P par t = ((par == 0) ≡ true) ⊎ (IsNode P par × AllNodes (Clear par) t)

module _ (P : ℕ → Type 0) where
  slot-Outside :
      (h : Plain) (s x par : ℕ) (t : Tree)
      → AllNodes (Outside s) t
      → IsParent P par t
      → AllNodes (Outside (slot_of h s x par)) t
  slot-Outside h s x par t out (inl e) = rw e out
  slot-Outside h s x par t out (inr (is, clear)) =
      AllNodes-weaken (Clear par) (Outside (slot_of h s x par)) t
        (λ a c.
          let some_par : (par == 0) ≡ false = ground (arith, is) in rw some_par (ground arith))
        clear

  relink-Ensures :
      (h : Plain) (s x par y : ℕ)
      → P s
      → ((par == 0) ≡ true) ⊎ IsNode P par
      → Ensures P (λ _ g. g ≡ update h (slot_of h s x par) y) (relink l_at r_at s x par y) h
  unfolding relink
  relink-Ensures h s x par y ps (inl e) = rw e (ps, refl)
  relink-Ensures h s x par y ps (inr is) =
      let some_par : (par == 0) ≡ false = ground (arith, is) in
      rw some_par (
        is.3,
        elim (Bool-cases (h (l_at par) == x)) [
          | inl e ↦
              let at : l_at par ≡ (if h (l_at par) == x then l_at par else r_at par) = rw e refl in
              rw e (is.3, ap (λ (o : ℕ). update h o y) at)
          | inr e ↦
              let at : r_at par ≡ (if h (l_at par) == x then l_at par else r_at par) = rw e refl in
              rw e (is.4, ap (λ (o : ℕ). update h o y) at)
        ],
      )

  -- The rest of the rotation, with the parent of the middle tree set.
  hang_root :
      (h h2 : Plain) (s x y rl par : ℕ)
      → P s
      → IsNode P x
      → IsNode P y
      → h2 ≡ (if rl == 0 then update h (r_at x) rl else update (update h (r_at x) rl) (p_at rl) x)
      → h2 (p_at x) ≡ par
      → slot_of (update h2 (p_at y) par) s x par ≡ slot_of h s x par
      → ((par == 0) ≡ true) ⊎ IsNode P par
      → Ensures P
          (λ _ g. g ≡ left_turned h x y rl par (slot_of h s x par))
          (do
            xp ← load (p_at x)
            store (p_at y) xp
            relink l_at r_at s x xp y
            store (l_at y) x
            store (p_at x) y)
          h2
  hang_root h h2 s x y rl par ps isx isy before hp same parent = (
    isx.2,
    rw hp (
      isy.2,
      Ensures-bind P _ _ (relink l_at r_at s x par y) _ (update h2 (p_at y) par)
          (relink-Ensures (update h2 (p_at y) par) s x par y ps parent)
          λ _ g e. (
            isy.3,
            (
              isx.2,
              ap (λ (m : Plain). update (update m (l_at y) x) (p_at x) y)
                  (e
                    ∙ ap (λ (o : ℕ). update (update h2 (p_at y) par) o y) same
                    ∙ ap (λ (m : Plain). update (update m (p_at y) par) (slot_of h s x par) y)
                        before),
            ),
          ),
    ),
  )

  -- What the parent holds stays until its pointer is set.
  same_slot :
      (h h2 : Plain) (s x y par : ℕ)
      → ((par == 0) ≡ true) ⊎ (h2 (l_at par) ≡ h (l_at par)) × Clear par y
      → slot_of (update h2 (p_at y) par) s x par ≡ slot_of h s x par
  same_slot h h2 s x y par (inl e) = rw e refl
  same_slot h h2 s x y par (inr (e, c)) =
      let there : update h2 (p_at y) par (l_at par) ≡ h (l_at par) = ground arith in rw there refl

  -- The root of a tree that is there.
  root_is : (h : Plain) (y rl : ℕ) (t : Tree) → (rl == 0) ≡ false → Holds P h y rl t → IsNode P rl
  root_is h y rl leaf e holds = absurd (ground arith)
  root_is h y rl (node l a k c r) e holds = rw (holds.0) holds.1

  root_other :
      (h : Plain) (y rl : ℕ) (Q : ℕ → Type 0) (t : Tree)
      → (rl == 0) ≡ false
      → Holds P h y rl t
      → AllNodes Q t
      → Q rl
  root_other h y rl Q leaf e holds q = absurd (ground arith)
  root_other h y rl Q (node l a k c r) e holds q = rw (holds.0) q.0

  is_parent : (par : ℕ) (t : Tree) → IsParent P par t → ((par == 0) ≡ true) ⊎ IsNode P par
  is_parent par t (inl e) = inl e
  is_parent par t (inr (is, clear)) = inr is

  rotate_left-Turned :
      (h : Plain) (s x y par k c ky cy : ℕ) (tl trl trr : Tree)
      → P s
      → Holds P h par x (node tl x k c (node trl y ky cy trr))
      → Apart (node tl x k c (node trl y ky cy trr))
      → AllNodes (Outside s) (node tl x k c (node trl y ky cy trr))
      → IsParent P par (node tl x k c (node trl y ky cy trr))
      → Ensures P
          (λ _ g. g ≡ left_turned h x y (h (l_at y)) par (slot_of h s x par))
          (rotate_left s x)
          h
  unfolding rotate_left
  rotate_left-Turned h s x y par k c ky cy tl trl trr ps
        (_, isx, hk, hp, hc, hl, (at, isy, hky, hpy, hcy, hrl, hrr))
        (cx_l, (cxy, cx_rl, cx_rr), cl, al, (cy_rl, cy_rr, c_mid, a_rl, a_rr)) out parent =
      let rl = h (l_at y) in
      let h1 = update h (r_at x) rl in
      rw at (
        isx.4,
        (
          isy.3,
          (
            isx.4,
            elim (Bool-cases (rl == 0)) [
              | inl e ↦ rw e (
                  hang_root h h1 s x y rl par ps isx isy (rw e refl) (ground (arith, hp))
                    (same_slot h h1 s x y par (parent_words h1 parent λ clear. ground arith))
                    (is_parent par (node tl x k c (node trl y ky cy trr)) parent))
              | inr e ↦
                  let h2 = update h1 (p_at rl) x in
                  let is_rl = root_is h y rl trl e hrl in
                  let clear_x = root_other h y rl (Clear x) trl e hrl cx_rl in
                  rw e (
                    is_rl.2,
                    hang_root h h2 s x y rl par ps isx isy (rw e refl) (ground (arith, hp, clear_x))
                        (same_slot h h2 s x y par (
                          parent_words h2 parent λ clear.
                            ground
                              (arith, clear, root_other h y rl (Clear par) trl e hrl clear.2.1)))
                        (is_parent par (node tl x k c (node trl y ky cy trr)) parent),
                  )
            ],
          ),
        ),
      )
    where
      parent_words :
          (g : Plain)
          → IsParent P par (node tl x k c (node trl y ky cy trr))
          → (AllNodes (Clear par) (node tl x k c (node trl y ky cy trr))
              → g (l_at par) ≡ h (l_at par))
          → ((par == 0) ≡ true) ⊎ (g (l_at par) ≡ h (l_at par)) × Clear par y
      parent_words g (inl e) f = inl e
      parent_words g (inr (is, clear)) f = inr (f clear, clear.2.0)

-- `rotateLeft` of a node with a right child, in a tree that memory holds without nodes that share words, below a
-- parent beside it or below the root pointer, which is no word of a node: then memory holds the tree turned to the
-- left, the pointer that led to it leads to its new root, and no word changes but that pointer and words of
-- the tree.
pub rotate_left-Ensures :
    (P : ℕ → Type 0) (h : Plain) (s x y par k c ky cy : ℕ) (tl trl trr : Tree)
    → P s
    → Holds P h par x (node tl x k c (node trl y ky cy trr))
    → Apart (node tl x k c (node trl y ky cy trr))
    → AllNodes (Outside s) (node tl x k c (node trl y ky cy trr))
    → IsParent P par (node tl x k c (node trl y ky cy trr))
    → Ensures P
        (λ _ g.
          Holds P g par y (node (node tl x k c trl) y ky cy trr)
          × (g (slot_of h s x par) ≡ y)
          × ((z : ℕ)
              → AllNodes (Outside z) (node tl x k c (node trl y ky cy trr))
              → z ≢ slot_of h s x par
              → g z ≡ h z))
        (rotate_left s x)
        h
rotate_left-Ensures P h s x y par k c ky cy tl trl trr ps holds apart out parent =
    let slot_out = slot-Outside P h s x par (node tl x k c (node trl y ky cy trr)) out parent in
    Ensures-weaken P _ _ (rotate_left s x) h
      (rotate_left-Turned P h s x y par k c ky cy tl trl trr ps holds apart out parent)
      λ _ g e. (
        subst (λ (m : Plain). Holds P m par y (node (node tl x k c trl) y ky cy trr)) (sym e)
            (left_turned-Holds P h x y (h (l_at y)) par (slot_of h s x par) k c ky cy tl trl trr
              holds apart slot_out refl),
        ap (λ (m : Plain). m (slot_of h s x par)) e
            ∙ turned_slot h x y (h (l_at y)) par (slot_of h s x par) slot_out.0 slot_out.2.0,
        λ z off other.
            ap (λ (m : Plain). m z) e
            ∙ turned_elsewhere P h x y par (slot_of h s x par) z k c ky cy tl trl trr holds.6.5 off
                other,
      )
