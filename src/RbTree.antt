-- ===== src/RbTree.antt =====
-- tests/rbtree/rbtree_my.c: a red-black tree with parent pointers in shared memory, without a sentinel. Here the
-- fields, `lookup`, the rotations and the accessors that take NULL. The functions are given as their accesses to
-- memory. An `int` is its bit pattern, below 2 ^ 32, an `intptr_t` below 2 ^ 64; a loop takes a number of rounds,
-- and `none` means that there were too few.
pub mod Insertion
pub mod Deletion
pub mod Walk
pub mod Shape
pub mod Frame
pub mod Turned
pub mod Rotation
pub mod Search
pub mod Verify
pub mod Present
pub mod Count
mod Tests
use dstm_p.Common.{
  ℕ, zero, suc, ◌+◌, ◌-◌, ◌%◌, ◌^◌, Bool, true, false, not, ◌||◌, Option, none, some, ltb, ◌==◌,
  if◌then◌else◌,
}
use dstm_p.Interface.{Body, result}
use dstm_p.Interface.Blocks.{◌>>=◌, ◌>>◌, load, store}

-- `&n->k`, `&n->v`, `&n->p`, `&n->l`, `&n->r` and `&n->c`; `&s->root` is `s`.
abbrev pub k_at : ℕ → ℕ
k_at n = n

abbrev pub v_at : ℕ → ℕ
v_at n = n + 8

abbrev pub p_at : ℕ → ℕ
p_at n = n + 16

abbrev pub l_at : ℕ → ℕ
l_at n = n + 24

abbrev pub r_at : ℕ → ℕ
r_at n = n + 32

abbrev pub c_at : ℕ → ℕ
c_at n = n + 40

-- RED and BLACK
abbrev pub red : ℕ
red = 0

abbrev pub black : ℕ
black = 1

-- An `int` as an `intptr_t`.
abbrev pub widen : ℕ → ℕ
widen w = if ltb w (2 ^ 31) then w else w + 2 ^ 64 - 2 ^ 32

-- `key - k` as an `int`, and whether an `int` is below zero.
abbrev pub cmp_int : ℕ → ℕ → ℕ
cmp_int key k = (key + 2 ^ 32 - k % 2 ^ 32) % 2 ^ 32

abbrev pub negative : ℕ → Bool
negative cmp = not (ltb cmp (2 ^ 31))

-- The loop of `lookup` from the node `p`.
unfoldable pub lookup_from : ℕ → (p key : ℕ) → Body (Option ℕ)
lookup_from zero p key = result none
lookup_from (suc fuel) p key =
    let further = (do
      k ← load (k_at p)
      let left = (do q ← load (l_at p); lookup_from fuel q key)
      let right = (do q ← load (r_at p); lookup_from fuel q key)
      if cmp_int key k == 0
          then result (some p)
          else (if negative (cmp_int key k) then left else right)) in
    if p == 0 then result (some 0) else further

-- `lookup`
unfoldable pub lookup : ℕ → (s key : ℕ) → Body (Option ℕ)
unfolding lookup_from
lookup fuel s key = do p ← load s; lookup_from fuel p key

-- `rbtree_get` and `rbtree_contains`
unfoldable pub rbtree_get : ℕ → (r key : ℕ) → Body (Option ℕ)
unfolding lookup
rbtree_get fuel r key = do
  n ← lookup fuel r key
  elim n as (λ _. Body (Option ℕ)) [
    | none ↦ result none
    | some p ↦
        if p == 0 then result (some 0) else (do v ← load (v_at p); result (some (v % 2 ^ 32)))
  ]

unfoldable pub rbtree_contains : ℕ → (r key : ℕ) → Body (Option Bool)
unfolding lookup
rbtree_contains fuel r key = do
  n ← lookup fuel r key
  result (elim n as (λ _. Option Bool) [ none ↦ none | some p ↦ some (not (p == 0)) ])

-- `if (c) m`
abbrev pub when : Bool → Body (Unit {0}) → Body (Unit {0})
when c m = if c then m else result tt

-- The pointer to the child `x` of `xp`, or to the root, is set to `y`: `first` is the child that is looked at.
unfoldable pub relink : (first other : ℕ → ℕ) (s x xp y : ℕ) → Body (Unit {0})
relink first other s x xp y =
    if xp == 0
    then store s y
    else (do c ← load (first xp); if c == x then store (first xp) y else store (other xp) y)

-- `rotateLeft`
unfoldable pub rotate_left : (s x : ℕ) → Body (Unit {0})
unfolding relink
rotate_left s x = do
  r ← load (r_at x)
  rl ← load (l_at r)
  store (r_at x) rl
  when (not (rl == 0)) (store (p_at rl) x)
  xp ← load (p_at x)
  store (p_at r) xp
  relink l_at r_at s x xp r
  store (l_at r) x
  store (p_at x) r

-- `rotateRight`
unfoldable pub rotate_right : (s x : ℕ) → Body (Unit {0})
unfolding relink
rotate_right s x = do
  l ← load (l_at x)
  lr ← load (r_at l)
  store (l_at x) lr
  when (not (lr == 0)) (store (p_at lr) x)
  xp ← load (p_at x)
  store (p_at l) xp
  relink r_at l_at s x xp l
  store (r_at l) x
  store (p_at x) l

-- `parentOf`, `leftOf`, `rightOf` and `colorOf`
unfoldable pub parent_of : ℕ → Body ℕ
parent_of n = if n == 0 then result 0 else load (p_at n)

unfoldable pub left_of : ℕ → Body ℕ
left_of n = if n == 0 then result 0 else load (l_at n)

unfoldable pub right_of : ℕ → Body ℕ
right_of n = if n == 0 then result 0 else load (r_at n)

unfoldable pub color_of : ℕ → Body ℕ
color_of n = if n == 0 then result black else (do c ← load (c_at n); result (c % 2 ^ 32))

-- `setColor`
unfoldable pub set_color : (n c : ℕ) → Body (Unit {0})
set_color n c = when (not (n == 0)) (store (c_at n) (widen c))
