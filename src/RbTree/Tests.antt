-- ===== src/RbTree/Tests.antt =====
-- Trees built and taken apart in memory.
use dstm_p.Common.{ℕ, ◌+◌, ◌<◌, ◌≡◌, refl, ◌≢◌, inl, Option, none, some, List, [], ◌∷◌, arith}
use dstm_p.Interface.{Body, result}
use dstm_p.Interface.Blocks.{Plain, Ensures, ◌>>=◌, ◌>>◌}
use dstm_p.Interface.Serial.{exec}
use dstm_p.RbTree.Shape.{Tree, leaf, node, AllNodes, Outside, Apart, Holds, address_of}
use dstm_p.RbTree.Search.{lookup-Ensures, lookup_misses}
use dstm_p.RbTree.Count.{get_size-Ensures}
use dstm_p.RbTree.Present.{insert-Present}
use dstm_p.RbTree.Verify.{verify_red_black-Ensures}
use dstm_p.RbTree.Rotation.{rotate_left-Ensures}
use dstm_p.RbTree.{widen, lookup, set_color, rotate_left}
use dstm_p.RbTree.Insertion.{insert}
use dstm_p.RbTree.Walk.{get_size, verify_red_black}
use dstm_p.RbTree.Deletion.{delete}

-- The tree at 0x1000, and nodes of 64 bytes behind it.
insert_all : ℕ → List ℕ → Body (Unit {0})
insert_all n [] = result tt
insert_all n (k ∷ ks) = do r ← insert 20 0x1000 k k n; insert_all (n + 64) ks

delete_all : List ℕ → Body (Unit {0})
delete_all [] = result tt
delete_all (k ∷ ks) = do
  p ← lookup 20 0x1000 k
  elim p as (λ _. Body (Unit {0})) [
    | none ↦ result tt
    | some q ↦ do r ← delete 20 0x1000 q; delete_all ks
  ]

-- The number of nodes and the height in black nodes.
measures : Body (Option ℕ × Option ℕ)
measures = do
  n ← get_size 20 0x1000
  root ← dstm_p.Interface.Blocks.load 0x1000
  h ← verify_red_black 20 root
  result (n, h)

seven :
    (exec (insert_all 0x1040 (1 ∷ 2 ∷ 3 ∷ 4 ∷ 5 ∷ 6 ∷ 7 ∷ []) >> measures) λ n x. 0).0
    ≡ (some 7, some 3)
unfolding insert_all measures insert get_size verify_red_black
seven = refl

three_left :
    (exec
      (insert_all 0x1040 (4 ∷ 2 ∷ 6 ∷ 1 ∷ 3 ∷ 5 ∷ 7 ∷ 8 ∷ [])
        >> delete_all (4 ∷ 1 ∷ 2 ∷ 8 ∷ 5 ∷ [])
        >> measures)
      λ n x. 0).0
    ≡ (some 3, some 3)
unfolding insert_all delete_all measures insert get_size verify_red_black lookup delete
three_left = refl

abbrev Words : ℕ → Type 0
Words x = x < 0x2000

-- Memory after the inserts of 2, 1, 4 and 3, and its tree.
abbrev four : Plain
unfolding insert_all insert
four = (exec (insert_all 0x1040 (2 ∷ 1 ∷ 4 ∷ 3 ∷ [])) λ n x. 0).1 0

abbrev below_four : Tree
below_four = node leaf 0x1100 3 0 leaf

abbrev four_tree : Tree
four_tree = node (node leaf 0x1080 1 1 leaf) 0x1040 2 1 (node below_four 0x10c0 4 1 leaf)

is_node :
    (a : ℕ)
    → 0 < a
    → a + 48 < 0x2000
    → (a < 0x2000)
      × (a + 8 < 0x2000)
      × (a + 16 < 0x2000)
      × (a + 24 < 0x2000)
      × (a + 32 < 0x2000)
      × (a + 40 < 0x2000)
      × (a ≢ 0)
is_node a some_a lt =
    (omega arith, omega arith, omega arith, omega arith, omega arith, omega arith, omega arith)

four-Holds : Holds Words four 0 (four 0x1000) four_tree
unfolding insert_all insert
four-Holds = (
  refl,
  is_node 0x1040 (omega arith) (omega arith),
  refl,
  refl,
  refl,
  (refl, is_node 0x1080 (omega arith) (omega arith), refl, refl, refl, refl, refl),
  (
    refl,
    is_node 0x10c0 (omega arith) (omega arith),
    refl,
    refl,
    refl,
    (refl, is_node 0x1100 (omega arith) (omega arith), refl, refl, refl, refl, refl),
    refl,
  ),
)

four-Apart : Apart four_tree
four-Apart = (
  (omega arith, tt, tt),
  (omega arith, (omega arith, tt, tt), tt),
  ((omega arith, (omega arith, tt, tt), tt), tt, tt),
  (tt, tt, tt, tt, tt),
  ((omega arith, tt, tt), tt, (tt, tt, tt), (tt, tt, tt, tt, tt), tt),
)

four-Outside : AllNodes (Outside 0x1000) four_tree
four-Outside = (omega arith, (omega arith, tt, tt), (omega arith, (omega arith, tt, tt), tt))

rotate_left-Ensures_example :
    Ensures Words
      (λ _ g.
        Holds Words g 0 0x10c0
          (node (node (node leaf 0x1080 1 1 leaf) 0x1040 2 1 below_four) 0x10c0 4 1 leaf)
        × (g 0x1000 ≡ 0x10c0)
        × ((z : ℕ) → AllNodes (Outside z) four_tree → z ≢ 0x1000 → g z ≡ four z))
      (rotate_left 0x1000 0x1040)
      four
unfolding four insert_all insert
rotate_left-Ensures_example =
    rotate_left-Ensures Words four 0x1000 0x1040 0x10c0 0 2 1 4 1 (node leaf 0x1080 1 1 leaf)
      below_four leaf (omega arith) four-Holds four-Apart four-Outside (inl refl)

lookup-Ensures_example :
    Ensures Words (λ o g. (o ≡ some 0x1100) × (g ≡ four)) (lookup 5 0x1000 3) four
lookup-Ensures_example =
    lookup-Ensures Words 5 0x1000 3 four four_tree (omega arith) (omega arith) four-Holds
      (
        (omega arith, tt, tt),
        (omega arith, (omega arith, tt, tt), tt),
        (tt, tt, tt, tt),
        ((omega arith, tt, tt), tt, (tt, tt, tt, tt), tt),
      )
      (
        (omega arith, omega arith, omega arith),
        ((omega arith, omega arith, omega arith), tt, tt),
        (
          (omega arith, omega arith, omega arith),
          ((omega arith, omega arith, omega arith), tt, tt),
          tt,
        ),
      )
      (omega arith)

-- Memory after the inserts of 1 and of the least `int`.
abbrev two : Plain
unfolding insert_all insert
two = (exec (insert_all 0x1040 (1 ∷ 0x80000000 ∷ [])) λ n x. 0).1 0

abbrev two_left : Tree
two_left = node leaf 0x1080 0xffffffff80000000 0 leaf

two-Holds : Holds Words two 0 (two 0x1000) (node two_left 0x1040 1 1 leaf)
unfolding insert_all insert
two-Holds = (
  refl,
  is_node 0x1040 (omega arith) (omega arith),
  refl,
  refl,
  refl,
  (refl, is_node 0x1080 (omega arith) (omega arith), refl, refl, refl, refl, refl),
  refl,
)

lookup_misses_example :
    Ensures Words (λ o g. (o ≡ some 0) × (g ≡ two)) (lookup 2 0x1000 0x80000000) two
    × (address_of (widen 0x80000000) (node two_left 0x1040 1 1 leaf) ≢ 0)
lookup_misses_example =
    lookup_misses Words 0 0x1000 0x80000000 0x1040 1 1 two two_left (omega arith) (omega arith)
      (omega arith) two-Holds (omega arith) (omega arith) (omega arith)

verify_red_black-Ensures_example :
    Ensures Words (λ o g. (o ≡ some 3) × (g ≡ four)) (verify_red_black 5 (four 0x1000)) four
verify_red_black-Ensures_example =
    verify_red_black-Ensures Words 5 four 0 (four 0x1000) four_tree four-Holds (omega arith)
      (omega arith)

-- The left child of the root has a black node more than the missing right one.
unbalanced :
    (exec
      (insert_all 0x1040 (2 ∷ 1 ∷ []) >> set_color 0x1080 1 >> verify_red_black 5 0x1040)
      λ n x. 0).0
    ≡ some 3
unfolding insert_all insert set_color verify_red_black
unbalanced = refl

-- The key that `lookup` misses.
insert-Present_example :
    Ensures Words (λ o g. (o ≡ some 0x1080) × (g ≡ two)) (insert 2 0x1000 0x80000000 9 0x10c0) two
insert-Present_example =
    insert-Present Words 2 0x1000 0x80000000 9 0x10c0 two (node two_left 0x1040 1 1 leaf)
      (omega arith) (omega arith) two-Holds ((omega arith, tt, tt), tt, (tt, tt, tt, tt), tt)
      (
        (omega arith, omega arith, omega arith),
        ((omega arith, omega arith, omega arith), tt, tt),
        tt,
      )
      (λ e. ground arith) (omega arith)

get_size-Ensures_example : Ensures Words (λ o g. (o ≡ some 4) × (g ≡ four)) (get_size 5 0x1000) four
get_size-Ensures_example =
    get_size-Ensures Words 5 0x1000 four four_tree (omega arith) four-Holds four-Apart (omega arith)
      (omega arith)
