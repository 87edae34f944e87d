-- ===== src/RbTree/Frame.antt =====
-- Trees whose nodes a change of memory leaves alone, or moves below another parent.
use dstm_p.Common.{ℕ, ◌+◌, ◌≤◌, ◌<◌, ◌≡◌, ◌∙◌, ◌≢◌, arith}
use dstm_p.Interface.Blocks.{Plain}
use dstm_p.RbTree.{k_at, p_at, l_at, r_at, c_at}
use dstm_p.RbTree.Shape.{Tree, leaf, node, AllNodes, Holds}

-- The words of the node are the same.
abbrev pub SameNode : Plain → Plain → ℕ → Type 0
SameNode h g a = (z : ℕ) → a ≤ z → z < a + 48 → g z ≡ h z

module _ (P : ℕ → Type 0) where
  -- A tree whose nodes are the same.
  pub Holds-frame :
      (h g : Plain) (par p : ℕ) (t : Tree)
      → AllNodes (SameNode h g) t
      → Holds P h par p t
      → Holds P g par p t
  Holds-frame h g par p leaf same t = t
  Holds-frame h g par p (node l a k c r) (here, samel, samer) (at, is, hk, hp, hc, hl, hr) = (
    at,
    is,
    here (k_at a) (omega arith) (omega arith) ∙ hk,
    here (p_at a) (omega arith) (omega arith) ∙ hp,
    here (c_at a) (omega arith) (omega arith) ∙ hc,
    rw (here (l_at a) (omega arith) (omega arith)) (Holds-frame h g a (h (l_at a)) l samel hl),
    rw (here (r_at a) (omega arith) (omega arith)) (Holds-frame h g a (h (r_at a)) r samer hr),
  )

  -- A tree under another parent, whose address is written to its root alone.
  abbrev pub Moved : Plain → Plain → ℕ → Tree → Type 0
  Moved h g par leaf = Unit
  Moved h g par (node l a k c r) =
      ((z : ℕ) → a ≤ z → z < a + 48 → z ≢ p_at a → g z ≡ h z)
      × (g (p_at a) ≡ par)
      × AllNodes (SameNode h g) l
      × AllNodes (SameNode h g) r

  pub Holds-Moved :
      (h g : Plain) (par par' p : ℕ) (t : Tree)
      → Moved h g par' t
      → Holds P h par p t
      → Holds P g par' p t
  Holds-Moved h g par par' p leaf moved t = t
  Holds-Moved h g par par' p (node l a k c r) (here, parent, samel, samer)
        (at, is, hk, hp, hc, hl, hr) =
      (
        at,
        is,
        here (k_at a) (omega arith) (omega arith) (omega arith) ∙ hk,
        parent,
        here (c_at a) (omega arith) (omega arith) (omega arith) ∙ hc,
        rw (here (l_at a) (omega arith) (omega arith) (omega arith))
            (Holds-frame h g a (h (l_at a)) l samel hl),
        rw (here (r_at a) (omega arith) (omega arith) (omega arith))
            (Holds-frame h g a (h (r_at a)) r samer hr),
      )
