-- ===== src/IntSet/History.antt =====
-- A history of calls on one set, in the order in which their blocks commit, against a set of values.
use dstm_p.Common.{
  ℕ, ◌+◌, ◌≤◌, ◌<◌, ◌≡◌, refl, fun_ext, ◌∙◌, ap, ◌&&◌, ◌||◌, not, Bool, true, false, Option, none,
  some, List, [], ◌∷◌, ◌==◌, arith, Bool-cases, inl, inr, length,
}
use dstm_p.Interface.{Body, result}
use dstm_p.Interface.Blocks.{◌>>=◌, ◌>>◌, store, Plain, Ensures, Ensures-bind, Ensures-weaken}
use dstm_p.IntSet.{int_min, next_at, init_node, add, remove, contains}
use dstm_p.IntSet.Chain.{
  Cells, has, insert_cell, erase_cell, Off, Between, IsIntSet, Rising, insert_present,
  has-insert_cell, has-erase_cell, length-insert_cell, length-erase_cell, Off-insert_cell,
  Off-erase_cell,
}
use dstm_p.IntSet.Link.{IsNew, add-Ensures}
use dstm_p.IntSet.Unlink.{remove-Ensures}
use dstm_p.IntSet.Ops.{contains-Ensures, update-IsIntSet, init_node-Ensures}

-- A call, with the value; that of `set_add` has its new node and what the variable `next` held.
pub data Op : Type 0 where
  adding : (val n next : ℕ) → Op
  removing : ℕ → Op
  asking : ℕ → Op

-- What a call does to memory, and its result.
unfoldable pub free_unless : ℕ → Option Bool → Body (Option Bool)
free_unless n (some false) = store n 0 >> result (some false)
free_unless n r = result r

unfoldable pub free_removed : Option (Bool × ℕ) → Body (Option Bool)
free_removed none = result none
free_removed (some (true, n)) = store n 0 >> result (some true)
free_removed (some (false, n)) = result (some false)

unfoldable pub perform : (fuel set : ℕ) → Op → Body (Option Bool)
unfolding free_unless free_removed
perform fuel set (adding val n next) = do
  init_node n val next
  r ← add fuel set val n
  free_unless n r
perform fuel set (removing val) = do r ← remove fuel set val; free_removed r
perform fuel set (asking val) = contains fuel set val

pub perform_all : (fuel set : ℕ) → List Op → Body (List (Option Bool))
unfolding perform
perform_all fuel set [] = result []
perform_all fuel set (op ∷ ops) = do
  r ← perform fuel set op
  rs ← perform_all fuel set ops
  result (r ∷ rs)

-- The same on a set of values.
abbrev pub Values : Type 0
Values = ℕ → Bool

abbrev pub answer : Op → Values → Bool
answer (adding val n next) s = not (s val)
answer (removing val) s = s val
answer (asking val) s = s val

abbrev pub after : Op → Values → Values
after (adding val n next) s = λ x. (x == val) || s x
after (removing val) s = λ x. not (x == val) && s x
after (asking val) s = s

abbrev pub answers : List Op → Values → List (Option Bool)
answers [] s = []
answers (op ∷ ops) s = some (answer op s) ∷ answers ops (after op s)

abbrev pub after_all : List Op → Values → Values
after_all [] s = s
after_all (op ∷ ops) s = after_all ops (after op s)

-- The values are between INT_MIN and INT_MAX, and no node is used by the set or by two calls.
abbrev pub Usable : (ℕ → Type 0) → (set mn mx : ℕ) → Cells → List Op → Type 0
Usable P set mn mx cs [] = Unit
Usable P set mn mx cs (adding val n next ∷ ops) =
    Between val × IsNew P n set mn mx cs × Usable P set mn mx ((n, val) ∷ cs) ops
Usable P set mn mx cs (removing val ∷ ops) = Between val × Usable P set mn mx cs ops
Usable P set mn mx cs (asking val ∷ ops) = Between val × Usable P set mn mx cs ops

-- The cells of the set after a call, and the nodes that later ones do not use.
abbrev pub next_cells : Op → Cells → Cells
next_cells (adding val n next) cs = insert_cell val n cs
next_cells (removing val) cs = erase_cell val cs
next_cells (asking val) cs = cs

module _ (P : ℕ → Type 0) (set mn mx : ℕ) where
  pub Usable-covers :
      (cs ds : Cells) (ops : List Op)
      → ((x : ℕ) → Off x cs → Off x ds)
      → Usable P set mn mx cs ops
      → Usable P set mn mx ds ops
  Usable-covers cs ds [] covers u = tt
  Usable-covers cs ds (adding val n next ∷ ops) covers (between, new, rest) = (
    between,
    record {
      node = new.node;
      away = (
        (new.away.0.0, (new.away.0.1.0, covers n new.away.0.1.1)),
        (new.away.1.0, (new.away.1.1.0, covers (next_at n) new.away.1.1.1)),
      );
      off_set = new.off_set;
    },
    Usable-covers ((n, val) ∷ cs) ((n, val) ∷ ds) ops (λ x o. (o.0, covers x o.1)) rest,
  )
  Usable-covers cs ds (removing val ∷ ops) covers u = (u.0, Usable-covers cs ds ops covers u.1)
  Usable-covers cs ds (asking val ∷ ops) covers u = (u.0, Usable-covers cs ds ops covers u.1)

  pub Usable-step :
      (op : Op) (ops : List Op) (cs : Cells)
      → Usable P set mn mx cs (op ∷ ops)
      → Usable P set mn mx (next_cells op cs) ops
  Usable-step (adding val n next) ops cs (between, new, rest) =
      Usable-covers ((n, val) ∷ cs) (insert_cell val n cs) ops
        (λ x o. Off-insert_cell x val n cs o.0.0 o.0.1 o.1) rest
  Usable-step (removing val) ops cs u =
      Usable-covers cs (erase_cell val cs) ops (λ x o. Off-erase_cell x val cs o) u.1
  Usable-step (asking val) ops cs u = u.1

  after-next_cells :
      (op : Op) (cs : Cells)
      → Rising int_min cs
      → (λ x. has x (next_cells op cs)) ≡ after op (λ x. has x cs)
  after-next_cells (adding val n next) cs r = fun_ext λ x. has-insert_cell x val n cs
  after-next_cells (removing val) cs r = fun_ext λ x. has-erase_cell int_min x val cs r
  after-next_cells (asking val) cs r = refl

  pub length-next_cells :
      (op : Op) (cs : Cells) → Rising int_min cs → length (next_cells op cs) ≤ length cs + 1
  length-next_cells (adding val n next) cs r = ground (arith, length-insert_cell int_min val n cs r)
  length-next_cells (removing val) cs r = ground (arith, length-erase_cell val cs)
  length-next_cells (asking val) cs r = omega arith

  pub perform-Ensures :
      (fuel : ℕ) (op : Op) (ops : List Op) (h : Plain) (cs : Cells)
      → IsIntSet P h set mn mx cs
      → Usable P set mn mx cs (op ∷ ops)
      → length cs < fuel
      → Ensures P
          (λ r g.
            (r ≡ some (answer op (λ x. has x cs))) × IsIntSet P g set mn mx (next_cells op cs))
          (perform fuel set op)
          h
  unfolding perform free_unless free_removed
  perform-Ensures fuel (adding val n next) ops h cs is (between, new, rest) lt =
      Ensures-bind P _ _ (init_node n val next) _ h
        (init_node-Ensures P h set mn mx n val next cs is new)
        λ _ h1 is1.
          Ensures-bind P _ _ (add fuel set val n) (free_unless n) h1
            (add-Ensures P val between fuel h1 set mn mx n cs is1 new lt)
            λ r g (e, is2). elim (Bool-cases (has val cs)) [
              | inl there ↦
                  let same = insert_present int_min val n cs is.rising there in
                  rw (e, there)
                    (
                      new.node.0,
                      (
                        refl,
                        rw same (
                            update-IsIntSet P g set mn mx n 0 cs (rw same at is2)
                              (new.off_set.0, new.away.0)),
                      ),
                    )
              | inr absent ↦ rw (e, absent) (refl, is2)
            ]
  perform-Ensures fuel (removing val) ops h cs is u lt =
      Ensures-bind P _ _ (remove fuel set val) free_removed h
        (remove-Ensures P val u.0 fuel h set mn mx cs is lt)
        λ r g (n, e, is1, removed). elim (Bool-cases (has val cs)) [
          | inl there ↦
              rw (e, there)
                (
                  (removed there).0,
                  (
                    refl,
                    update-IsIntSet P g set mn mx n 0 (erase_cell val cs) is1 (removed there).1,
                  ),
                )
          | inr absent ↦ rw (e, absent) (refl, is1)
        ]
  perform-Ensures fuel (asking val) ops h cs is u lt =
      Ensures-weaken P _ _ (contains fuel set val) h
        (contains-Ensures P val u.0 fuel h set mn mx cs is lt) λ r g (e, same). (e, rw same is)

-- A history of calls gives the answers that a set of values gives, and leaves the set of those values, from
-- a set in memory with the values of the cells. The values are between INT_MIN and INT_MAX, the nodes of the
-- calls of `set_add` are used by nothing else, and there are more rounds than elements and calls.
pub perform_all-Ensures :
    (P : ℕ → Type 0) (fuel set mn mx : ℕ) (ops : List Op) (h : Plain) (cs : Cells)
    → IsIntSet P h set mn mx cs
    → Usable P set mn mx cs ops
    → length cs + length ops < fuel
    → Ensures P
        (λ rs g.
          (rs ≡ answers ops (λ x. has x cs))
          × (ds : Cells) × IsIntSet P g set mn mx ds
          × ((λ x. has x ds) ≡ after_all ops (λ x. has x cs)))
        (perform_all fuel set ops)
        h
unfolding perform_all
perform_all-Ensures P fuel set mn mx [] h cs is u lt = (refl, cs, is, refl)
perform_all-Ensures P fuel set mn mx (op ∷ ops) h cs is u lt =
    let same = after-next_cells P set mn mx op cs is.rising in
    Ensures-bind P _ _ (perform fuel set op) _ h
      (perform-Ensures P set mn mx fuel op ops h cs is u (omega arith))
      λ r g (e, is1).
        Ensures-bind P _ _ (perform_all fuel set ops) _ g
          (perform_all-Ensures P fuel set mn mx ops g (next_cells op cs) is1
            (Usable-step P set mn mx op ops cs u)
            (omega (arith, length-next_cells P set mn mx op cs is.rising)))
          λ rs g1 (es, ds, is2, left).
            (rw (e, es, same) refl, ds, is2, left ∙ ap (after_all ops) same)
