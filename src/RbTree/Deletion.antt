-- ===== src/RbTree/Deletion.antt =====
-- `fixAfterDeletion` and `delete` of tests/rbtree/rbtree_my.c.
use dstm_p.Common.{ℕ, zero, suc, false, not, Option, none, some, ◌==◌, if◌then◌else◌}
use dstm_p.Interface.{Body, result}
use dstm_p.Interface.Blocks.{◌>>=◌, ◌>>◌, load, store}
use dstm_p.RbTree.{
  k_at, v_at, p_at, l_at, r_at, c_at, red, black, when, rotate_left, rotate_right, parent_of,
  left_of, right_of, color_of, set_color,
}
use dstm_p.RbTree.Walk.{successor}

-- A round of the loop when `x` is the child of the given side: `near` is LEFT_OF, `far` RIGHT_OF, `turn` ROTATE_LEFT
-- and `back` ROTATE_RIGHT, or the other way round. The result is `x` for the next round.
unfoldable pub deletion_round :
    (near far : ℕ → Body ℕ) (turn back : ℕ → ℕ → Body (Unit {0})) (s x : ℕ) → Body ℕ
unfolding parent_of color_of set_color
deletion_round near far turn back s x = do
  xp ← parent_of x
  sib0 ← far xp
  c0 ← color_of sib0
  sib ←
      (if c0 == red
        then (do
          set_color sib0 black
          xp1 ← parent_of x
          set_color xp1 red
          xp2 ← parent_of x
          turn s xp2
          xp3 ← parent_of x
          far xp3)
        else result sib0)
  sn ← near sib
  cn ← color_of sn
  both ←
      (if cn == black
        then (do sf ← far sib; cf ← color_of sf; result (cf == black))
        else result false)
  if both then (do set_color sib red; parent_of x) else (do
    sf ← far sib
    cf ← color_of sf
    sib1 ←
        (if cf == black
          then (do
            sn1 ← near sib
            set_color sn1 black
            set_color sib red
            back s sib
            xp4 ← parent_of x
            far xp4)
          else result sib)
    xp5 ← parent_of x
    c5 ← color_of xp5
    set_color sib1 c5
    xp6 ← parent_of x
    set_color xp6 black
    sf1 ← far sib1
    set_color sf1 black
    xp7 ← parent_of x
    turn s xp7
    load s)

-- The loop of `fixAfterDeletion`: the node at its end.
unfoldable pub deletion_loop : ℕ → (s x : ℕ) → Body (Option ℕ)
unfolding deletion_round left_of right_of rotate_left rotate_right parent_of color_of
deletion_loop zero s x = result none
deletion_loop (suc fuel) s x = do
  root ← load s
  let further = (do
    c ← color_of x
    let again = (do
      xp ← parent_of x
      l ← left_of xp
      x1 ←
          (if x == l
            then deletion_round left_of right_of rotate_left rotate_right s x
            else deletion_round right_of left_of rotate_right rotate_left s x)
      deletion_loop fuel s x1)
    if c == black then again else result (some x))
  if x == root then result (some x) else further

-- `fixAfterDeletion`; `none` if the rounds run out.
unfoldable pub fix_after_deletion : ℕ → (s x : ℕ) → Body (Option (Unit {0}))
unfolding deletion_loop
fix_after_deletion fuel s x = do
  end ← deletion_loop fuel s x
  elim end as (λ _. Body (Option (Unit {0}))) [
    | none ↦ result none
    | some y ↦ if y == 0 then result (some tt) else (do
      c ← load (c_at y)
      when (not (c == black)) (store (c_at y) black)
      result (some tt))
  ]

-- `delete`, the copy of the successor into a node with two children: the node to unlink.
unfoldable pub pick : ℕ → ℕ → Body (Option ℕ)
unfolding successor
pick fuel p = do
  l ← load (l_at p)
  let inner = (do
    n ← successor fuel p
    elim n as (λ _. Body (Option ℕ)) [
      | none ↦ result none
      | some m ↦ do
        k ← load (k_at m)
        store (k_at p) k
        v ← load (v_at m)
        store (v_at p) v
        result (some m)
    ])
  if l == 0
      then result (some p)
      else (do r ← load (r_at p); if r == 0 then result (some p) else inner)

-- The branch of `delete` with a replacement.
unfoldable pub splice : ℕ → (s p replacement : ℕ) → Body (Option (Unit {0}))
unfolding fix_after_deletion
splice fuel s p replacement = do
  pp0 ← load (p_at p)
  store (p_at replacement) pp0
  pp ← load (p_at p)
  if pp == 0 then store s replacement else (do
    l ← load (l_at pp)
    if p == l then store (l_at pp) replacement else store (r_at pp) replacement)
  store (l_at p) 0
  store (r_at p) 0
  store (p_at p) 0
  c ← load (c_at p)
  if c == black then fix_after_deletion fuel s replacement else result (some tt)

-- The end of the branch with no children: `p` is taken from its parent.
unfoldable pub cut : ℕ → Body (Unit {0})
cut p = do
  pp ← load (p_at p)
  when (not (pp == 0)) (do
    l ← load (l_at pp)
    if p == l then store (l_at pp) 0 else (do r ← load (r_at pp); when (p == r) (store (r_at pp) 0))
    store (p_at p) 0)

-- The branch of `delete` with no children.
unfoldable pub prune : ℕ → (s p : ℕ) → Body (Option (Unit {0}))
unfolding fix_after_deletion cut
prune fuel s p = do
  c ← load (c_at p)
  done ← (if c == black then fix_after_deletion fuel s p else result (some tt))
  cut p
  result done

-- What follows the choice of the node `p`.
unfoldable pub unlink : ℕ → (s p : ℕ) → Body (Option (Unit {0}))
unfolding splice prune
unlink fuel s p = do
  l0 ← load (l_at p)
  replacement ← (if not (l0 == 0) then load (l_at p) else load (r_at p))
  if not (replacement == 0) then splice fuel s p replacement else (do
    pp ← load (p_at p)
    if pp == 0 then (do store s 0; result (some tt)) else prune fuel s p)

-- `delete`: the node that is no longer in the tree.
unfoldable pub delete : ℕ → (s p : ℕ) → Body (Option ℕ)
unfolding pick unlink
delete fuel s p = do
  q ← pick fuel p
  elim q as (λ _. Body (Option ℕ)) [
    | none ↦ result none
    | some m ↦ do
      done ← unlink fuel s m
      result (elim done as (λ _. Option ℕ) [ none ↦ none | some u ↦ some m ])
  ]
