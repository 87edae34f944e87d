-- ===== src/RbTree/Walk.antt =====
-- `successor`, `firstEntry`, `rbtree_getsize` and `verifyRedBlack` of tests/rbtree/rbtree_my.c; printing is left out.
use dstm_p.Common.{
  ℕ, zero, suc, ◌+◌, ◌%◌, ◌^◌, Bool, false, not, ◌||◌, Option, none, some, ◌==◌, if◌then◌else◌,
}
use dstm_p.Interface.{Body, result}
use dstm_p.Interface.Blocks.{◌>>=◌, load}
use dstm_p.RbTree.{p_at, l_at, r_at, c_at, red, black}

-- `while (p->l != NULL) p = p->l`
unfoldable pub leftmost : ℕ → ℕ → Body (Option ℕ)
leftmost zero p = result none
leftmost (suc fuel) p = do
  l ← load (l_at p)
  let down = (do q ← load (l_at p); leftmost fuel q)
  if l == 0 then result (some p) else down

-- `while (p != NULL && ch == p->r) { ch = p; p = p->p; }`
unfoldable pub climb : ℕ → (ch p : ℕ) → Body (Option ℕ)
climb zero ch p = result none
climb (suc fuel) ch p =
    let further = (do
      r ← load (r_at p)
      let up = (do pp ← load (p_at p); climb fuel p pp)
      if ch == r then up else result (some p)) in
    if p == 0 then result (some 0) else further

-- `successor`
unfoldable pub successor : ℕ → ℕ → Body (Option ℕ)
unfolding leftmost climb
successor fuel t = if t == 0 then result (some 0) else (do
  r ← load (r_at t)
  let down = (do p ← load (r_at t); leftmost fuel p)
  let up = (do p ← load (p_at t); climb fuel t p)
  if not (r == 0) then down else up)

-- `firstEntry`
unfoldable pub first_entry : ℕ → ℕ → Body (Option ℕ)
unfolding leftmost
first_entry fuel s = do p ← load s; if not (p == 0) then leftmost fuel p else result (some 0)

-- The loop of `rbtree_getsize`; the rounds of the inner loops are `inner`.
unfoldable pub count_nodes : ℕ → (inner n size : ℕ) → Body (Option ℕ)
unfolding successor
count_nodes zero inner n size = result none
count_nodes (suc fuel) inner n size =
    let further = (do
      next ← successor inner n
      elim next as (λ _. Body (Option ℕ)) [
        | none ↦ result none
        | some m ↦ count_nodes fuel inner m ((size + 1) % 2 ^ 32)
      ]) in
    if n == 0 then result (some size) else further

-- `rbtree_getsize`
unfoldable pub get_size : ℕ → ℕ → Body (Option ℕ)
unfolding first_entry count_nodes
get_size fuel s = do
  n ← first_entry fuel s
  elim n as (λ _. Body (Option ℕ)) [ none ↦ result none | some m ↦ count_nodes fuel fuel m 0 ]

-- Whether the child at the address is there and not black.
unfoldable pub red_child : ℕ → Body Bool
red_child at = do
  q ← load at
  let there = (do q1 ← load at; c ← load (c_at q1); result (not (c == black)))
  if q == 0 then result false else there

-- The checks of a node between the checks of its children and its result.
unfoldable pub verify_node : (root left right : ℕ) → Body (Option ℕ)
unfolding red_child
verify_node root left right = if left == 0 || right == 0 then result (some 0) else (do
  c ← load (c_at root)
  if c == red
      then (do
        lred ← red_child (l_at root)
        if lred
            then result (some 0)
            else (do rred ← red_child (r_at root); result (some (if rred then 0 else left))))
      else (do
        c1 ← load (c_at root)
        result (some (if c1 == black then (left + 1) % 2 ^ 32 else 0))))

-- `verifyRedBlack`, to this depth.
unfoldable pub verify_red_black : ℕ → ℕ → Body (Option ℕ)
unfolding verify_node
verify_red_black zero root = result none
verify_red_black (suc depth) root =
    let further = (do
      l ← load (l_at root)
      left ← verify_red_black depth l
      r ← load (r_at root)
      right ← verify_red_black depth r
      elim left as (λ _. Body (Option ℕ)) [
        | none ↦ result none
        | some hl ↦ elim right as (λ _. Body (Option ℕ)) [
          | none ↦ result none
          | some hr ↦ verify_node root hl hr
        ]
      ]) in
    if root == 0 then result (some 1) else further
