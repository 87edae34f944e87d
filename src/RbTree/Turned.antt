-- ===== src/RbTree/Turned.antt =====
-- Memory after a rotation to the left, and the tree it holds.
use dstm_p.Common.{
  ℕ, ◌+◌, ◌≤◌, ◌<◌, ◌≡◌, refl, sym, subst, ◌∙◌, ◌≢◌, ◌⊎◌, Bool, true, false, ◌==◌, if◌then◌else◌,
  arith, inl, inr,
}
use dstm_p.Interface.Blocks.{Plain, update}
use dstm_p.RbTree.{k_at, p_at, l_at, r_at, c_at}
use dstm_p.RbTree.Shape.{Tree, leaf, node, AllNodes, AllNodes-weaken, Outside, Clear, Apart, Holds}
use dstm_p.RbTree.Frame.{SameNode, Holds-frame, Holds-Moved}

-- Memory after the rotation of `x` and its right child `y`, where `rl` is the left child of `y`, `par` the parent
-- and `slot` the address of the pointer to `x`.
abbrev pub left_turned : Plain → (x y rl par slot : ℕ) → Plain
left_turned h x y rl par slot =
    let h1 = update h (r_at x) rl in
    let h2 = if rl == 0 then h1 else update h1 (p_at rl) x in
    update (update (update (update h2 (p_at y) par) slot y) (l_at y) x) (p_at x) y

module _ (h : Plain) (x y rl par slot : ℕ) (apart : Clear x y) (off_x : Outside slot x)
    (off_y : Outside slot y) where
  spared :
      (b : ℕ)
      → Clear x b
      → Clear y b
      → Outside slot b
      → ((rl == 0) ≡ true) ⊎ Clear rl b
      → SameNode h (left_turned h x y rl par slot) b
  spared b cx cy out crl z low high = ground arith

  moved_root :
      (rl == 0) ≡ false
      → Clear x rl
      → Clear y rl
      → Outside slot rl
      → ((z : ℕ) → rl ≤ z → z < rl + 48 → z ≢ p_at rl → left_turned h x y rl par slot z ≡ h z)
        × (left_turned h x y rl par slot (p_at rl) ≡ x)
  moved_root some_rl cx cy out = (λ z low high other. ground arith, ground arith)

  turned_x :
      ((rl == 0) ≡ true) ⊎ Clear x rl
      → (left_turned h x y rl par slot (k_at x) ≡ h (k_at x))
        × (left_turned h x y rl par slot (c_at x) ≡ h (c_at x))
        × (left_turned h x y rl par slot (p_at x) ≡ y)
        × (left_turned h x y rl par slot (l_at x) ≡ h (l_at x))
        × (left_turned h x y rl par slot (r_at x) ≡ rl)
  turned_x crl = (ground arith, ground arith, ground arith, ground arith, ground arith)

  turned_y :
      ((rl == 0) ≡ true) ⊎ Clear y rl
      → (left_turned h x y rl par slot (k_at y) ≡ h (k_at y))
        × (left_turned h x y rl par slot (c_at y) ≡ h (c_at y))
        × (left_turned h x y rl par slot (p_at y) ≡ par)
        × (left_turned h x y rl par slot (l_at y) ≡ x)
        × (left_turned h x y rl par slot (r_at y) ≡ h (r_at y))
  turned_y crl = (ground arith, ground arith, ground arith, ground arith, ground arith)

AllNodes-inr :
    (b : Bool) (Q : ℕ → Type 0) (t : Tree) → AllNodes Q t → AllNodes (λ a. (b ≡ true) ⊎ Q a) t
AllNodes-inr b Q t all = AllNodes-weaken Q (λ a. (b ≡ true) ⊎ Q a) t (λ a q. inr q) all

module _ (P : ℕ → Type 0) (h : Plain) (x y par slot : ℕ) where
  -- A tree beside `x` and `y` that does not hold `rl`.
  beside :
      (rl : ℕ) (t : Tree)
      → Clear x y
      → Outside slot x
      → Outside slot y
      → AllNodes (Clear x) t
      → AllNodes (Clear y) t
      → AllNodes (Outside slot) t
      → AllNodes (λ b. ((rl == 0) ≡ true) ⊎ Clear rl b) t
      → AllNodes (SameNode h (left_turned h x y rl par slot)) t
  beside rl leaf cxy ox oy cx cy out crl = tt
  beside rl (node l a k c r) cxy ox oy cx cy out crl = (
    spared h x y rl par slot cxy ox oy a cx.0 cy.0 out.0 crl.0,
    beside rl l cxy ox oy cx.1 cy.1 out.1 crl.1,
    beside rl r cxy ox oy cx.2 cy.2 out.2 crl.2,
  )

  -- The middle tree goes from `y` to `x`.
  middle :
      (rl : ℕ) (t : Tree)
      → Clear x y
      → Outside slot x
      → Outside slot y
      → AllNodes (Clear x) t
      → AllNodes (Clear y) t
      → AllNodes (Outside slot) t
      → Apart t
      → Holds P h y rl t
      → Holds P (left_turned h x y rl par slot) x rl t
  middle rl leaf cxy ox oy cx cy out apart holds = holds
  middle rl (node l a k c r) cxy ox oy cx cy out apart (at, is, hk, hp, hc, hl, hr) =
      let some_rl : (a == 0) ≡ false = ground (arith, is) in
      let (root, parent) = moved_root h x y a par slot cxy ox oy some_rl cx.0 cy.0 out.0 in
      subst (λ q. Holds P (left_turned h x y q par slot) x q (node l a k c r)) (sym at)
        (Holds-Moved P h (left_turned h x y a par slot) y x a (node l a k c r)
          (
            root,
            parent,
            beside a l cxy ox oy cx.1 cy.1 out.1 (AllNodes-inr (a == 0) (Clear a) l apart.0),
            beside a r cxy ox oy cx.2 cy.2 out.2 (AllNodes-inr (a == 0) (Clear a) r apart.1),
          )
          (refl, is, hk, hp, hc, hl, hr))

  -- What the root of the middle tree is clear of.
  root_clear :
      (Q : ℕ → Type 0) (rl : ℕ) (t : Tree)
      → Holds P h y rl t
      → AllNodes Q t
      → ((rl == 0) ≡ true) ⊎ Q rl
  root_clear Q rl leaf holds q = inl (rw holds refl)
  root_clear Q rl (node l a k c r) holds q = inr (rw (holds.0) q.0)

-- The two addresses in the other order.
Clear-sym : (a b : ℕ) → Clear a b → Clear b a
Clear-sym a b c = ground arith

or_sym : (b : Bool) (x y : ℕ) → (b ≡ true) ⊎ Clear x y → (b ≡ true) ⊎ Clear y x
or_sym b x y (inl e) = inl e
or_sym b x y (inr c) = inr (Clear-sym x y c)

spread :
    (b : Bool) (Q : ℕ → Type 0) (t : Tree)
    → (b ≡ true) ⊎ AllNodes Q t
    → AllNodes (λ a. (b ≡ true) ⊎ Q a) t
spread b Q leaf e = tt
spread b Q (node l a k c r) (inl e) = (inl e, spread b Q l (inl e), spread b Q r (inl e))
spread b Q (node l a k c r) (inr q) = AllNodes-inr b Q (node l a k c r) q

module _ (P : ℕ → Type 0) where
  -- The tree after the rotation.
  pub left_turned-Holds :
      (h : Plain) (x y rl par slot k c ky cy : ℕ) (tl trl trr : Tree)
      → Holds P h par x (node tl x k c (node trl y ky cy trr))
      → Apart (node tl x k c (node trl y ky cy trr))
      → AllNodes (Outside slot) (node tl x k c (node trl y ky cy trr))
      → rl ≡ h (l_at y)
      → Holds P (left_turned h x y rl par slot) par y (node (node tl x k c trl) y ky cy trr)
  left_turned-Holds h x y rl par slot k c ky cy tl trl trr
        (_, isx, hk, hp, hc, hl, (at, isy, hky, hpy, hcy, hrl, hrr))
        (cx_l, (cxy, cx_rl, cx_rr), cl, al, (cy_rl, cy_rr, c_mid, a_rl, a_rr))
        (ox, o_l, (oy, o_rl, o_rr)) to =
      let hrl' = subst (λ q. Holds P h y q trl) (sym to) hrl in
      let crx = root_clear P h x y par slot (Clear x) rl trl hrl' cx_rl in
      let cry = root_clear P h x y par slot (Clear y) rl trl hrl' cy_rl in
      let clear_l =
        AllNodes-weaken (λ b. AllNodes (Clear b) (node trl y ky cy trr))
          (λ b. ((rl == 0) ≡ true) ⊎ Clear rl b) tl
          (λ b q. or_sym (rl == 0) b rl (root_clear P h x y par slot (Clear b) rl trl hrl' q.1))
          cl in
      let clear_y =
        AllNodes-weaken (λ b. AllNodes (Clear b) (node trl y ky cy trr)) (Clear y) tl
          (λ b q. Clear-sym b y q.0) cl in
      let clear_r =
        spread (rl == 0) (Clear rl) trr
          (root_clear P h x y par slot (λ q. AllNodes (Clear q) trr) rl trl hrl' c_mid) in
      let (kx, colx, px, lx, rx) = turned_x h x y rl par slot cxy ox oy crx in
      let (ky', coly, py, ly, ry) = turned_y h x y rl par slot cxy ox oy cry in
      (
        refl,
        isy,
        ky' ∙ hky,
        py,
        coly ∙ hcy,
        (
          ly,
          isx,
          kx ∙ hk,
          px,
          colx ∙ hc,
          rw lx (
              Holds-frame P h (left_turned h x y rl par slot) x (h (l_at x)) tl
                (beside P h x y par slot rl tl cxy ox oy cx_l clear_y o_l clear_l) hl),
          rw rx (middle P h x y par slot rl trl cxy ox oy cx_rl cy_rl o_rl a_rl hrl'),
        ),
        rw ry (
            Holds-frame P h (left_turned h x y rl par slot) y (h (r_at y)) trr
              (beside P h x y par slot rl trr cxy ox oy cx_rr cy_rr o_rr clear_r) hrr),
      )

pub turned_slot :
    (h : Plain) (x y rl par slot : ℕ)
    → Outside slot x
    → Outside slot y
    → left_turned h x y rl par slot slot ≡ y
turned_slot h x y rl par slot ox oy = ground arith

-- An address off the nodes, and not that of the pointer to the tree, keeps its word; that pointer leads to `y`.
pub turned_elsewhere :
    (P : ℕ → Type 0) (h : Plain) (x y par slot z k c ky cy : ℕ) (tl trl trr : Tree)
    → Holds P h y (h (l_at y)) trl
    → AllNodes (Outside z) (node tl x k c (node trl y ky cy trr))
    → z ≢ slot
    → left_turned h x y (h (l_at y)) par slot z ≡ h z
turned_elsewhere P h x y par slot z k c ky cy tl trl trr hrl (ox, o_l, (oy, o_rl, o_rr)) other =
    ground (arith, root_clear P h x y par slot (Outside z) (h (l_at y)) trl hrl o_rl)
