-- ===== src/IntSet/Chain.antt =====
-- The list that a set in memory stands for.
use dstm_p.Common.{
  ℕ, ◌+◌, ◌^◌, ◌≤◌, ◌<◌, ◌≡◌, refl, ◌∙◌, ◌≢◌, ◌||◌, ◌&&◌, not, Bool, true, false, List, [], ◌∷◌,
  ◌==◌, if◌then◌else◌, arith, length,
}
use dstm_p.Interface.Blocks.{Plain, update, update-ne}
use dstm_p.IntSet.{int_min, int_max, key, slt, next_at}

-- Address and value of each node between the two ends.
abbrev pub Cells : Type 0
Cells = List (ℕ × ℕ)

-- Whether a value is among them, and the sorted list with a value in or out.
abbrev pub has : ℕ → Cells → Bool
has v [] = false
has v ((a, w) ∷ cs) = (v == w) || has v cs

unfoldable pub insert_cell : (val n : ℕ) → Cells → Cells
insert_cell val n [] = (n, val) ∷ []
insert_cell val n ((a, w) ∷ cs) =
    let rest = insert_cell val n cs in
    if slt w val then (a, w) ∷ rest else (if w == val then (a, w) ∷ cs else (n, val) ∷ (a, w) ∷ cs)

unfoldable pub erase_cell : ℕ → Cells → Cells
erase_cell val [] = []
erase_cell val ((a, w) ∷ cs) =
    let rest = erase_cell val cs in if w == val then cs else (a, w) ∷ rest

-- The address is none of a node's two words; of no node's words.
abbrev pub Off : ℕ → Cells → Type 0
Off x [] = Unit
Off x ((a, w) ∷ cs) = ((x ≢ a) × (x ≢ next_at a)) × Off x cs

-- Neither word of the node is a word of another.
abbrev pub Away : ℕ → Cells → Type 0
Away a cs = Off a cs × Off (next_at a) cs

abbrev pub Apart : Cells → Type 0
Apart [] = Unit
Apart ((a, w) ∷ cs) = Away a cs × Apart cs

-- Values between INT_MIN and INT_MAX, above `lo` and rising.
abbrev pub Between : ℕ → Type 0
Between w = (w < 2 ^ 64) × (key int_min < key w) × (key w < key int_max)

abbrev pub Rising : ℕ → Cells → Type 0
Rising lo [] = Unit
Rising lo ((a, w) ∷ cs) = (Between w × (key lo < key w)) × Rising w cs

-- All nodes of the list.
abbrev pub whole : ℕ → ℕ → Cells → Cells
whole mn mx cs = (mn, int_min) ∷ (mx, int_max) ∷ cs

-- No value at or below the bound is among rising ones.
pub has-Rising : (v lo : ℕ) (cs : Cells) → key v ≤ key lo → Rising lo cs → has v cs ≡ false
has-Rising v lo [] le r = refl
has-Rising v lo ((a, w) ∷ cs) le r = ground (arith, has-Rising v w cs)

module _ (P : ℕ → Type 0) where
  -- A node: its words may be accessed, and its address is not NULL.
  abbrev pub Node : ℕ → Type 0
  Node a = P a × P (next_at a) × (a ≢ 0)

  -- From `p` the `next` pointers lead through the cells to the last node, `mx`.
  abbrev pub Chain : Plain → ℕ → ℕ → Cells → Type 0
  Chain h mx p [] = (p ≡ mx) × Node mx × (h mx ≡ int_max) × (h (next_at mx) ≡ 0)
  Chain h mx p ((a, w) ∷ cs) = (p ≡ a) × Node a × (h a ≡ w) × Chain h mx (h (next_at a)) cs

  -- The set at `set`, between the nodes `mn` and `mx`, holds the values of the cells.
  pub record IsIntSet (h : Plain) (set mn mx : ℕ) (cs : Cells) : Type 0 where
    pub set_word : P set
    pub first : Node mn
    pub head : h set ≡ mn
    pub first_value : h mn ≡ int_min
    pub chain : Chain h mx (h (next_at mn)) cs
    pub apart : Apart (whole mn mx cs)
    pub off : Off set (whole mn mx cs)
    pub rising : Rising int_min cs

  -- A chain survives a write elsewhere.
  pub Chain-update :
      (h : Plain) (x v mx p : ℕ) (cs : Cells)
      → Off x ((mx, int_max) ∷ cs)
      → Chain h mx p cs
      → Chain (update h x v) mx p cs
  Chain-update h x v mx p [] o c =
      (c.0, c.1, update-ne h x v mx o.0.0 ∙ c.2, update-ne h x v (next_at mx) o.0.1 ∙ c.3)
  Chain-update h x v mx p ((a, w) ∷ cs) o c = (
    c.0,
    c.1,
    update-ne h x v a o.1.0.0 ∙ c.2,
    rw (update-ne h x v (next_at a) o.1.0.1)
        (Chain-update h x v mx (h (next_at a)) cs (o.0, o.1.1) c.3),
  )

module _ (x : ℕ) where
  pub Off-insert_cell :
      (val n : ℕ) (cs : Cells) → x ≢ n → x ≢ next_at n → Off x cs → Off x (insert_cell val n cs)
  unfolding insert_cell
  Off-insert_cell val n [] p q o = ((p, q), tt)
  Off-insert_cell val n ((a, w) ∷ cs) p q o = ground (arith, Off-insert_cell val n cs p q)

  pub Off-erase_cell : (val : ℕ) (cs : Cells) → Off x cs → Off x (erase_cell val cs)
  unfolding erase_cell
  Off-erase_cell val [] o = tt
  Off-erase_cell val ((a, w) ∷ cs) o = ground (arith, Off-erase_cell val cs)

pub Apart-insert_cell :
    (val n : ℕ) (cs : Cells) → Away n cs → Apart cs → Apart (insert_cell val n cs)
unfolding insert_cell
Apart-insert_cell val n [] away d = ((tt, tt), tt)
Apart-insert_cell val n ((a, w) ∷ cs) away d = ground (
  arith,
  Apart-insert_cell val n cs,
  Off-insert_cell a val n cs,
  Off-insert_cell (next_at a) val n cs,
)

pub Apart-erase_cell : (val : ℕ) (cs : Cells) → Apart cs → Apart (erase_cell val cs)
unfolding erase_cell
Apart-erase_cell val [] d = tt
Apart-erase_cell val ((a, w) ∷ cs) d =
    ground
      (arith, Apart-erase_cell val cs, Off-erase_cell a val cs, Off-erase_cell (next_at a) val cs)

pub Rising-insert_cell :
    (lo val n : ℕ) (cs : Cells)
    → Between val
    → key lo < key val
    → Rising lo cs
    → Rising lo (insert_cell val n cs)
unfolding insert_cell
Rising-insert_cell lo val n [] between lt r = ((between, lt), tt)
Rising-insert_cell lo val n ((a, w) ∷ cs) between lt r =
    ground (arith, Rising-insert_cell w val n cs between)

Rising-weaken : (lo mid : ℕ) (cs : Cells) → key lo < key mid → Rising mid cs → Rising lo cs
Rising-weaken lo mid [] lt r = tt
Rising-weaken lo mid ((a, w) ∷ cs) lt r = ((r.0.0, omega arith), r.1)

pub Rising-erase_cell : (lo val : ℕ) (cs : Cells) → Rising lo cs → Rising lo (erase_cell val cs)
unfolding erase_cell
Rising-erase_cell lo val [] r = tt
Rising-erase_cell lo val ((a, w) ∷ cs) r =
    ground (arith, Rising-erase_cell w val cs, Rising-weaken lo w cs)

-- What is in the list with the value in, and in the one with it out.
pub has-insert_cell :
    (x val n : ℕ) (cs : Cells) → has x (insert_cell val n cs) ≡ ((x == val) || has x cs)
unfolding insert_cell
has-insert_cell x val n [] = refl
has-insert_cell x val n ((a, w) ∷ cs) = ground (arith, has-insert_cell x val n cs)

pub has-erase_cell :
    (lo x val : ℕ) (cs : Cells)
    → Rising lo cs
    → has x (erase_cell val cs) ≡ (not (x == val) && has x cs)
unfolding erase_cell
has-erase_cell lo x val [] r = ground arith
has-erase_cell lo x val ((a, w) ∷ cs) r =
    ground (arith, has-erase_cell w x val cs, has-Rising x w cs)

pub insert_present :
    (lo val n : ℕ) (cs : Cells) → Rising lo cs → has val cs ≡ true → insert_cell val n cs ≡ cs
unfolding insert_cell
insert_present lo val n [] r e = cc
insert_present lo val n ((a, w) ∷ cs) r e =
    ground (arith, insert_present w val n cs, has-Rising val w cs)

pub erase_absent : (val : ℕ) (cs : Cells) → has val cs ≡ false → erase_cell val cs ≡ cs
unfolding erase_cell
erase_absent val [] e = refl
erase_absent val ((a, w) ∷ cs) e = ground (arith, erase_absent val cs)

pub length-erase_cell :
    (val : ℕ) (cs : Cells) → length cs ≡ length (erase_cell val cs) + (if has val cs then 1 else 0)
unfolding erase_cell
length-erase_cell val [] = refl
length-erase_cell val ((a, w) ∷ cs) = ground (arith, length-erase_cell val cs)

pub length-insert_cell :
    (lo val n : ℕ) (cs : Cells)
    → Rising lo cs
    → length (insert_cell val n cs) ≡ length cs + (if has val cs then 0 else 1)
unfolding insert_cell
length-insert_cell lo val n [] r = refl
length-insert_cell lo val n ((a, w) ∷ cs) r =
    ground (arith, length-insert_cell w val n cs, has-Rising val w cs)

-- One node further.
pub Off-step :
    (prev mx a w : ℕ) (cs : Cells) (x : ℕ)
    → Off x ((prev, 0) ∷ (mx, int_max) ∷ (a, w) ∷ cs)
    → Off x ((a, 0) ∷ (mx, int_max) ∷ cs)
Off-step prev mx a w cs x o = (o.1.1.0, (o.1.0, o.1.1.1))

pub Apart-step :
    (prev mx a w : ℕ) (cs : Cells)
    → Apart ((prev, 0) ∷ (mx, int_max) ∷ (a, w) ∷ cs)
    → Apart ((a, 0) ∷ (mx, int_max) ∷ cs)
Apart-step prev mx a w cs d = ground arith
