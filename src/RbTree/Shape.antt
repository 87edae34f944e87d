-- ===== src/RbTree/Shape.antt =====
-- The tree that memory holds.
use dstm_p.Common.{
  ℕ, suc, ◌+◌, ◌≤◌, ◌<◌, ◌≡◌, refl, ◌∙◌, ◌≢◌, ◌⊎◌, false, ◌==◌, if◌then◌else◌, arith,
}
use dstm_p.Interface.Blocks.{Plain, update}
use dstm_p.IntSet.{key}
use dstm_p.RbTree.{k_at, v_at, p_at, l_at, r_at, c_at}

-- Each node with its address, its key and its colour; NULL is a leaf.
pub data Tree : Type 0 where
  leaf : Tree
  node : Tree → (a k c : ℕ) → Tree → Tree

-- All addresses, and all keys, have `Q`.
abbrev pub AllNodes : (ℕ → Type 0) → Tree → Type 0
AllNodes Q leaf = Unit
AllNodes Q (node l a k c r) = Q a × AllNodes Q l × AllNodes Q r

abbrev pub AllKeys : (ℕ → Type 0) → Tree → Type 0
AllKeys Q leaf = Unit
AllKeys Q (node l a k c r) = Q k × AllKeys Q l × AllKeys Q r

-- The words of the node at `a` do not include `x`, and those of the node at `b`.
abbrev pub Outside : (x a : ℕ) → Type 0
Outside x a = (x < a) ⊎ (a + 48 ≤ x)

abbrev pub Clear : (a b : ℕ) → Type 0
Clear a b = (a + 48 ≤ b) ⊎ (b + 48 ≤ a)

-- No two nodes share a word.
abbrev pub Apart : Tree → Type 0
Apart leaf = Unit
Apart (node l a k c r) =
    AllNodes (Clear a) l
    × AllNodes (Clear a) r
    × AllNodes (λ b. AllNodes (Clear b) r) l
    × Apart l
    × Apart r

-- The keys rise, in the order of signed words.
abbrev pub Ordered : Tree → Type 0
Ordered leaf = Unit
Ordered (node l a k c r) =
    AllKeys (λ j. key j < key k) l × AllKeys (λ j. key k < key j) r × Ordered l × Ordered r

module _ (P : ℕ → Type 0) where
  -- A node: its words may be accessed, and its address is not NULL.
  abbrev pub IsNode : ℕ → Type 0
  IsNode a = P (k_at a) × P (v_at a) × P (p_at a) × P (l_at a) × P (r_at a) × P (c_at a) × (a ≢ 0)

  -- At `p` memory holds the tree, below the node `par`.
  abbrev pub Holds : Plain → (par p : ℕ) → Tree → Type 0
  Holds h par p leaf = p ≡ 0
  Holds h par p (node l a k c r) =
      (p ≡ a)
      × IsNode a
      × (h (k_at a) ≡ k)
      × (h (p_at a) ≡ par)
      × (h (c_at a) ≡ c)
      × Holds h a (h (l_at a)) l
      × Holds h a (h (r_at a)) r

  Outside-eq : (h : Plain) (x v a y : ℕ) → Outside x a → a ≤ y → y < a + 48 → update h x v y ≡ h y
  Outside-eq h x v a y out low high = ground arith

  -- A write outside of the nodes changes no tree.
  pub Holds-update :
      (h : Plain) (x v par p : ℕ) (t : Tree)
      → AllNodes (Outside x) t
      → Holds h par p t
      → Holds (update h x v) par p t
  Holds-update h x v par p leaf out t = t
  Holds-update h x v par p (node l a k c r) (here, outl, outr) (at, is, hk, hp, hc, hl, hr) = (
    at,
    is,
    Outside-eq h x v a (k_at a) here (omega arith) (omega arith) ∙ hk,
    Outside-eq h x v a (p_at a) here (omega arith) (omega arith) ∙ hp,
    Outside-eq h x v a (c_at a) here (omega arith) (omega arith) ∙ hc,
    rw (Outside-eq h x v a (l_at a) here (omega arith) (omega arith))
        (Holds-update h x v a (h (l_at a)) l outl hl),
    rw (Outside-eq h x v a (r_at a) here (omega arith) (omega arith))
        (Holds-update h x v a (h (r_at a)) r outr hr),
  )

pub AllNodes-weaken :
    (Q R : ℕ → Type 0) (t : Tree) → ((a : ℕ) → Q a → R a) → AllNodes Q t → AllNodes R t
AllNodes-weaken Q R leaf f all = tt
AllNodes-weaken Q R (node l a k c r) f all =
    (f a all.0, AllNodes-weaken Q R l f all.1, AllNodes-weaken Q R r f all.2)

pub AllKeys-weaken :
    (Q R : ℕ → Type 0) (t : Tree) → ((k : ℕ) → Q k → R k) → AllKeys Q t → AllKeys R t
AllKeys-weaken Q R leaf f all = tt
AllKeys-weaken Q R (node l a k c r) f all =
    (f k all.0, AllKeys-weaken Q R l f all.1, AllKeys-weaken Q R r f all.2)

-- The number of nodes.
abbrev pub size : Tree → ℕ
size leaf = 0
size (node l a k c r) = suc (size l + size r)

-- The address of a node with this key, if there is one, and else NULL: all nodes are looked at.
abbrev pub address_of : ℕ → Tree → ℕ
address_of w leaf = 0
address_of w (node l a k c r) =
    let below = address_of w l in
    let above = address_of w r in if k == w then a else (if below == 0 then above else below)

-- There is none where all keys are others.
pub address_of-absent : (w : ℕ) (t : Tree) → AllKeys (λ k. (k == w) ≡ false) t → address_of w t ≡ 0
address_of-absent w leaf all = refl
address_of-absent w (node l a k c r) (here, outl, outr) =
    rw (here, address_of-absent w l outl, address_of-absent w r outr) refl
