-- ===== src/RbTree/Insertion.antt =====
-- `fixAfterInsertion` and `insert` of tests/rbtree/rbtree_my.c.
use dstm_p.Common.{
  ℕ, zero, suc, ◌+◌, ◌-◌, ◌%◌, ◌^◌, not, Option, none, some, ltb, ◌==◌, if◌then◌else◌,
}
use dstm_p.Interface.{Body, result}
use dstm_p.Interface.Blocks.{◌>>=◌, ◌>>◌, load, store}
use dstm_p.RbTree.{
  k_at, v_at, p_at, l_at, r_at, c_at, red, black, when, rotate_left, rotate_right, parent_of,
  left_of, right_of, color_of, set_color, widen,
}

-- PARENT_OF(PARENT_OF(x))
unfoldable pub grand_of : ℕ → Body ℕ
unfolding parent_of
grand_of x = do xp ← parent_of x; parent_of xp

-- A round of the loop when the parent is a child of the given side: `far` is RIGHT_OF, `turn` ROTATE_LEFT and
-- `back` ROTATE_RIGHT, or the other way round. The result is `x` for the next round.
unfoldable pub insertion_round :
    (far : ℕ → Body ℕ) (turn back : ℕ → ℕ → Body (Unit {0})) (s x : ℕ) → Body ℕ
unfolding grand_of parent_of color_of set_color
insertion_round far turn back s x = do
  xpp ← grand_of x
  y ← far xpp
  cy ← color_of y
  if cy == red
      then (do
        xp ← parent_of x
        set_color xp black
        set_color y black
        g ← grand_of x
        set_color g red
        grand_of x)
      else (do
        xp ← parent_of x
        inner ← far xp
        x1 ← (if x == inner then (do x1 ← parent_of x; turn s x1; result x1) else result x)
        xp1 ← parent_of x1
        set_color xp1 black
        g ← grand_of x1
        set_color g red
        g1 ← grand_of x1
        when (not (g1 == 0)) (do g2 ← grand_of x1; back s g2)
        result x1)

-- The loop of `fixAfterInsertion`.
unfoldable pub insertion_loop : ℕ → (s x : ℕ) → Body (Option (Unit {0}))
unfolding insertion_round left_of right_of rotate_left rotate_right parent_of grand_of
insertion_loop zero s x = result none
insertion_loop (suc fuel) s x =
    let further = (do
      xp ← load (p_at x)
      c ← load (c_at xp)
      let again = (do
        xp1 ← parent_of x
        g ← grand_of x
        near ← left_of g
        x1 ←
            (if xp1 == near
              then insertion_round right_of rotate_left rotate_right s x
              else insertion_round left_of rotate_right rotate_left s x)
        insertion_loop fuel s x1)
      if not (c == red) then result (some tt) else again) in
    let test = (do root ← load s; if x == root then result (some tt) else further) in
    if x == 0 then result (some tt) else test

-- `fixAfterInsertion`; `none` if the rounds run out.
unfoldable pub fix_after_insertion : ℕ → (s x : ℕ) → Body (Option (Unit {0}))
unfolding insertion_loop
fix_after_insertion fuel s x = do
  store (c_at x) red
  done ← insertion_loop fuel s x
  ro ← load s
  c ← load (c_at ro)
  when (not (c == black)) (store (c_at ro) black)
  result done

-- `intptr_t cmp = k - LDF(t, k)`
abbrev pub cmp_long : ℕ → ℕ → ℕ
cmp_long k tk = (widen k + 2 ^ 64 - tk) % 2 ^ 64

-- The new leaf, in front of FIX_AFTER_INSERTION.
unfoldable pub hang : (slot t k v n : ℕ) → Body (Unit {0})
hang slot t k v n = do
  store (l_at n) 0
  store (r_at n) 0
  store (k_at n) (widen k)
  store (v_at n) (widen v)
  store (p_at n) t
  store slot n

-- The value, unless the rounds have run out.
abbrev pub none_or : ℕ → Option (Unit {0}) → Option ℕ
none_or v none = none
none_or v (some u) = some v

-- The loop of `insert` at the node `t`: the node that is there, or NULL.
unfoldable pub insert_from : ℕ → (s k v n t : ℕ) → Body (Option ℕ)
unfolding hang fix_after_insertion
insert_from zero s k v n t = result none
insert_from (suc fuel) s k v n t = do
  tk ← load (k_at t)
  let grow = λ (slot : ℕ). (do
    hang slot t k v n
    done ← fix_after_insertion fuel s n
    result (none_or 0 done))
  let left = (do
    tl ← load (l_at t)
    let down = insert_from fuel s k v n tl
    if tl == 0 then grow (l_at t) else down)
  let right = (do
    tr ← load (r_at t)
    let down = insert_from fuel s k v n tr
    if tr == 0 then grow (r_at t) else down)
  if cmp_long k tk == 0
      then result (some t)
      else (if not (ltb (cmp_long k tk) (2 ^ 63)) then left else right)

-- `insert`
unfoldable pub insert : ℕ → (s k v n : ℕ) → Body (Option ℕ)
unfolding insert_from
insert fuel s k v n = do
  t ← load s
  let plant = (do
    store (l_at n) 0
    store (r_at n) 0
    store (p_at n) 0
    store (k_at n) (widen k)
    store (v_at n) (widen v)
    store (c_at n) black
    store s n
    result (some 0))
  if t == 0 then (if n == 0 then result (some 0) else plant) else insert_from fuel s k v n t
