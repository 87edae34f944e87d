-- ===== src/IntSet/Stress.antt =====
-- The stress test of tests/intset/intset_my.c: the loop of `test`, with the draws of `rand_r` as arguments, and
-- the size that `main` expects. A round is its call of `set_add`, `set_remove` or `set_contains` on shared memory,
-- and calls take turns, in the order in which their blocks commit. An `int` is its bit pattern, below 2 ^ 32.
use dstm_p.Common.{
  ℕ, zero, suc, ◌+◌, ◌-◌, ◌%◌, ◌^◌, ◌<◌, ◌≤◌, ◌≡◌, refl, ◌∙◌, ap, Bool, true, Option, none, some,
  List, [], ◌∷◌, ltb, if◌then◌else◌, arith, Bool-cases, inl, inr, length, All, subst, sym,
}
use dstm_p.Interface.{Body, result}
use dstm_p.Interface.Blocks.{◌>>=◌, Plain, Ensures, Ensures-bind, Ensures-weaken}
use dstm_p.IntSet.{int_min, set_size}
use dstm_p.IntSet.Chain.{
  Cells, has, erase_cell, Between, Rising, IsIntSet, length-insert_cell, length-erase_cell,
  Off-erase_cell,
}
use dstm_p.IntSet.Ops.{set_size-Ensures}
use dstm_p.IntSet.History.{
  Op, adding, removing, asking, perform, answer, next_cells, Usable, Usable-covers, Usable-step,
  perform-Ensures, length-next_cells,
}

-- The counters of `thread_data_t`, and `last`, where `none` is -1.
pub record Worker : Type 0 where
  pub last : Option ℕ
  pub nb_add : ℕ
  pub nb_remove : ℕ
  pub nb_contains : ℕ
  pub nb_found : ℕ
  pub diff : ℕ

abbrev pub inc : ℕ → ℕ
inc x = (x + 1) % 2 ^ 32

abbrev pub dec : ℕ → ℕ
dec x = (x + 2 ^ 32 - 1) % 2 ^ 32

-- What a round that adds, one that removes `last`, and one that asks count, given what the call returned.
unfoldable pub add_round : (val : ℕ) → Option Bool → Worker → Worker
add_round val (some true) w = record w { nb_add = inc w.nb_add; diff = inc w.diff; last = some val }
add_round val r w = record w { nb_add = inc w.nb_add }

unfoldable pub remove_round : Option Bool → Worker → Worker
remove_round (some true) w = record w {
  nb_remove = inc w.nb_remove;
  diff = dec w.diff;
  last = none;
}
remove_round r w = record w { nb_remove = inc w.nb_remove; last = none }

unfoldable pub contains_round : Option Bool → Worker → Worker
contains_round (some true) w = record w {
  nb_contains = inc w.nb_contains;
  nb_found = inc w.nb_found;
}
contains_round r w = record w { nb_contains = inc w.nb_contains }

-- The two draws of a round, the node that `dstm_malloc` gives if it adds, and what `next` holds there.
pub record Draw : Type 0 where
  pub kind : ℕ
  pub value : ℕ
  pub node : ℕ
  pub next : ℕ

-- `(rand_r(&seed) % range) + 1`
abbrev pub drawn : (range : ℕ) → Draw → ℕ
drawn range d = d.value % range + 1

-- The call of a round.
unfoldable pub call_of : (update range : ℕ) → Draw → Worker → Op
call_of update range d w =
    let change = (elim w.last as (λ _. Op) [
      | none ↦ adding (drawn range d) d.node d.next
      | some last ↦ removing last
    ]) in
    if ltb (d.kind % 100) update then change else asking (drawn range d)

-- What the round counts after its call.
unfoldable pub counted : Op → Option Bool → Worker → Worker
unfolding add_round remove_round contains_round
counted (adding val n next) r w = add_round val r w
counted (removing val) r w = remove_round r w
counted (asking val) r w = contains_round r w

-- One round of the loop.
unfoldable pub round : (update range fuel set : ℕ) → Draw → Worker → Body Worker
unfolding call_of counted
round update range fuel set d w = do
  r ← perform fuel set (call_of update range d w)
  result (counted (call_of update range d w) r w)

-- A round of the worker with this index.
unfoldable pub round_of : (update range fuel set : ℕ) → ℕ → Draw → List Worker → Body (List Worker)
unfolding round
round_of update range fuel set i d [] = result []
round_of update range fuel set zero d (w ∷ ws) = do
  w1 ← round update range fuel set d w
  result (w1 ∷ ws)
round_of update range fuel set (suc i) d (w ∷ ws) = do
  ws1 ← round_of update range fuel set i d ws
  result (w ∷ ws1)

-- Rounds of the workers in any order.
unfoldable pub rounds :
    (update range fuel set : ℕ) → List (ℕ × Draw) → List Worker → Body (List Worker)
unfolding round_of
rounds update range fuel set [] ws = result ws
rounds update range fuel set ((i, d) ∷ ds) ws = do
  ws1 ← round_of update range fuel set i d ws
  rounds update range fuel set ds ws1

-- `size += data[i].diff`
unfoldable pub expected : ℕ → List Worker → ℕ
expected size [] = size
expected size (w ∷ ws) = expected ((size + w.diff) % 2 ^ 32) ws

-- What `set_size` gives for a set with these cells.
abbrev pub size_of : Cells → ℕ
size_of cs = (length cs + 1) % 2 ^ 32

expected-shift :
    (size k : ℕ) (ws : List Worker)
    → size < 2 ^ 32
    → expected ((size + k) % 2 ^ 32) ws ≡ (expected size ws + k) % 2 ^ 32
unfolding expected
expected-shift size k [] lt = refl
expected-shift size k (w ∷ ws) lt =
    let swap : ((size + k) % 2 ^ 32 + w.diff) % 2 ^ 32 ≡ ((size + w.diff) % 2 ^ 32 + k) % 2 ^ 32 =
      omega arith in
    ap (λ s. expected s ws) swap ∙ expected-shift ((size + w.diff) % 2 ^ 32) k ws (omega arith)

some-ℕ : (a b : ℕ) → some a ≡ some b → a ≡ b
some-ℕ a b e = cc

expected-fresh :
    (size : ℕ) (ws : List Worker)
    → size < 2 ^ 32
    → All (λ w. Worker.diff w ≡ 0) ws
    → expected size ws ≡ size
unfolding expected
expected-fresh size [] lt all = refl
expected-fresh size (w ∷ ws) lt all =
    let same : (size + w.diff) % 2 ^ 32 ≡ size = omega (arith, all.0) in
    ap (λ s. expected s ws) same ∙ expected-fresh size ws lt all.1

-- The last value that a worker added is a value of the set's range.
abbrev LastBetween : Worker → Type 0
LastBetween w = (val : ℕ) → w.last ≡ some val → Between val

-- What a round adds to the size, it adds to the count of the worker.
abbrev Counted : Worker → Cells → Worker → Cells → Type 0
Counted w cs w' cs' =
    LastBetween w'
    × (k : ℕ) × (w'.diff % 2 ^ 32 ≡ (w.diff + k) % 2 ^ 32)
    × ((length cs' + 1) % 2 ^ 32 ≡ (length cs + 1 + k) % 2 ^ 32)

-- What the draws of the rounds bring: each its own node, that nothing uses.
abbrev pub fresh_nodes : ℕ → List (ℕ × Draw) → List Op
fresh_nodes range [] = []
fresh_nodes range ((i, d) ∷ ds) = adding (drawn range d) d.node d.next ∷ fresh_nodes range ds

op-Counted :
    (op : Op) (w : Worker) (cs : Cells)
    → LastBetween w
    → ((val n next : ℕ) → op ≡ adding val n next → Between val)
    → (r : Rising int_min cs)
    → Counted w cs (counted op (some (answer op (λ x. has x cs))) w) (next_cells op cs)
unfolding counted add_round remove_round contains_round
op-Counted (adding val n next) w cs last between r =
    let len = length-insert_cell int_min val n cs r in
    elim (Bool-cases (has val cs)) [
      | inl e ↦ rw e (last, 0, omega arith, ground (arith, len))
      | inr e ↦ rw e (
        λ v k. subst Between (some-ℕ val v k) (between val n next refl),
        1,
        omega arith,
        ground (arith, len),
      )
    ]
op-Counted (removing val) w cs last between r =
    let len = length-erase_cell val cs in
    elim (Bool-cases (has val cs)) [
      | inl e ↦ rw e (λ v k. cc, 2 ^ 32 - 1, omega arith, ground (arith, len))
      | inr e ↦ rw e (λ v k. cc, 0, omega arith, ground (arith, len))
    ]
op-Counted (asking val) w cs last between r = elim (Bool-cases (has val cs)) [
  | inl e ↦ rw e (last, 0, omega arith, omega arith)
  | inr e ↦ rw e (last, 0, omega arith, omega arith)
]

same_value : (a n x b m y : ℕ) → adding a n x ≡ adding b m y → a ≡ b
same_value a n x b m y e = cc

module _ (P : ℕ → Type 0) (set mn mx update range : ℕ) (positive : 0 < range)
    (small : range < 2 ^ 31 - 1) where
  -- A call may be made, and those with the other nodes after it.
  abbrev Ready : Op → Cells → List Op → Type 0
  Ready op cs ops =
      Usable P set mn mx cs (op ∷ [])
      × Usable P set mn mx (next_cells op cs) ops
      × ((val n next : ℕ) → op ≡ adding val n next → Between val)

  call-Ready :
      (d : Draw) (w : Worker) (cs : Cells) (ops : List Op)
      → LastBetween w
      → Usable P set mn mx cs (adding (drawn range d) d.node d.next ∷ ops)
      → Ready (call_of update range d w) cs ops
  unfolding call_of
  call-Ready d w cs ops last (between, new, rest) = elim (Bool-cases (ltb (d.kind % 100) update)) [
    | inl change ↦ rw change (by_last w.last last)
    | inr ask ↦ rw ask (
      (between, tt),
      Usable-covers P set mn mx ((d.node, drawn range d) ∷ cs) cs ops (λ x o. o.1) rest,
      λ v n k e. cc,
    )
  ]
    where
      by_last :
          (o : Option ℕ)
          → ((val : ℕ) → o ≡ some val → Between val)
          → Ready
              (elim o as (λ _. Op) [
                | none ↦ adding (drawn range d) d.node d.next
                | some val ↦ removing val
              ])
              cs
              ops
      by_last none f = (
        (between, new, tt),
        Usable-step P set mn mx (adding (drawn range d) d.node d.next) ops cs (between, new, rest),
        λ v n k e. subst Between (same_value _ _ _ v n k e) between,
      )
      by_last (some val) f = (
        (f val refl, tt),
        Usable-covers P set mn mx ((d.node, drawn range d) ∷ cs) (erase_cell val cs) ops
            (λ x o. Off-erase_cell x val cs o.1) rest,
        λ v n k e. cc,
      )

  -- The set after a round, and the nodes that later rounds may use.
  abbrev Onward : Plain → Cells → Cells → List Op → Type 0
  Onward g cs cs' ops =
      IsIntSet P g set mn mx cs' × Usable P set mn mx cs' ops × (length cs' ≤ length cs + 1)

  round-Ensures :
      (fuel : ℕ) (d : Draw) (w : Worker) (ops : List Op) (h : Plain) (cs : Cells)
      → IsIntSet P h set mn mx cs
      → LastBetween w
      → Usable P set mn mx cs (adding (drawn range d) d.node d.next ∷ ops)
      → length cs < fuel
      → Ensures P
          (λ w' g. (cs' : Cells) × Onward g cs cs' ops × Counted w cs w' cs')
          (round update range fuel set d w)
          h
  unfolding round
  round-Ensures fuel d w ops h cs is last usable lt =
      let op = call_of update range d w in
      let (now, later, between) = call-Ready d w cs ops last usable in
      Ensures-bind P _ _ (perform fuel set op) _ h
        (perform-Ensures P set mn mx fuel op [] h cs is now lt)
        λ r g (e, is1). (
          next_cells op cs,
          (is1, later, length-next_cells P set mn mx op cs is.rising),
          rw e (op-Counted op w cs last between is.rising),
        )

  round_of-Ensures :
      (fuel i : ℕ) (d : Draw) (ws : List Worker) (ops : List Op) (h : Plain) (cs : Cells) (size : ℕ)
      → size < 2 ^ 32
      → IsIntSet P h set mn mx cs
      → All LastBetween ws
      → Usable P set mn mx cs (adding (drawn range d) d.node d.next ∷ ops)
      → length cs < fuel
      → Ensures P
          (λ ws' g.
            (cs' : Cells) × Onward g cs cs' ops
            × All LastBetween ws'
            × ((k : ℕ) × (expected size ws' ≡ (expected size ws + k) % 2 ^ 32)
                × ((length cs' + 1) % 2 ^ 32 ≡ (length cs + 1 + k) % 2 ^ 32)))
          (round_of update range fuel set i d ws)
          h
  unfolding round_of expected
  round_of-Ensures fuel i d [] ops h cs size small_size is last usable lt = (
    cs,
    (
      is,
      Usable-covers P set mn mx ((d.node, drawn range d) ∷ cs) cs ops (λ x o. o.1) usable.2,
      omega arith,
    ),
    tt,
    (0, omega arith, omega arith),
  )
  round_of-Ensures fuel zero d (w ∷ ws) ops h cs size small_size is (last, lasts) usable lt =
      Ensures-bind P _ _ (round update range fuel set d w) _ h
        (round-Ensures fuel d w ops h cs is last usable lt)
        λ w1 g (cs1, onward, (last1, k, count, len)).
          let moved : (size + w1.diff) % 2 ^ 32 ≡ ((size + w.diff) % 2 ^ 32 + k) % 2 ^ 32 =
            omega arith in
          (
            cs1,
            onward,
            (last1, lasts),
            (
              k,
              ap (λ s. expected s ws) moved
                  ∙ expected-shift ((size + w.diff) % 2 ^ 32) k ws (omega arith),
              len,
            ),
          )
  round_of-Ensures fuel (suc i) d (w ∷ ws) ops h cs size small_size is (last, lasts) usable lt =
      Ensures-bind P _ _ (round_of update range fuel set i d ws) _ h
        (round_of-Ensures fuel i d ws ops h cs ((size + w.diff) % 2 ^ 32) (omega arith) is lasts
          usable lt)
        λ ws1 g (cs1, onward, lasts1, moved). (cs1, onward, (last, lasts1), moved)

  rounds-Ensures :
      (fuel : ℕ) (ds : List (ℕ × Draw)) (ws : List Worker) (h : Plain) (cs : Cells) (size : ℕ)
      → size < 2 ^ 32
      → IsIntSet P h set mn mx cs
      → All LastBetween ws
      → Usable P set mn mx cs (fresh_nodes range ds)
      → length cs + length ds < fuel
      → expected size ws ≡ size_of cs
      → Ensures P
          (λ ws' g.
            (cs' : Cells) × IsIntSet P g set mn mx cs'
            × (length cs' ≤ length cs + length ds)
            × (expected size ws' ≡ size_of cs'))
          (rounds update range fuel set ds ws)
          h
  unfolding rounds
  rounds-Ensures fuel [] ws h cs size small_size is lasts usable lt e = (cs, is, omega arith, e)
  rounds-Ensures fuel ((i, d) ∷ ds) ws h cs size small_size is lasts usable lt e =
      Ensures-bind P _ _ (round_of update range fuel set i d ws) _ h
        (round_of-Ensures fuel i d ws (fresh_nodes range ds) h cs size small_size is lasts usable
          (omega arith))
        λ ws1 g (cs1, (is1, usable1, len1), lasts1, (k, count, len)).
          Ensures-weaken P _ _ (rounds update range fuel set ds ws1) g
            (rounds-Ensures fuel ds ws1 g cs1 size small_size is1 lasts1 usable1 (omega arith)
              (omega (arith, e, count, len)))
            λ ws2 g2 (cs2, is2, len2, e2). (cs2, is2, omega arith, e2)

-- No value to remove, and no change counted.
abbrev pub IsFresh : Worker → Type 0
IsFresh w = (w.last ≡ none) × (w.diff ≡ 0)

none_last : (ws : List Worker) → All IsFresh ws → All LastBetween ws
none_last [] all = tt
none_last (w ∷ ws) (new, rest) = (λ v e. cc, none_last ws rest)

no_diff : (ws : List Worker) → All IsFresh ws → All (λ w. Worker.diff w ≡ 0) ws
no_diff [] all = tt
no_diff (w ∷ ws) (new, rest) = (new.1, no_diff ws rest)

-- The rounds, and then the call of `set_size` by `main`.
unfoldable pub check_size :
    (update range fuel set : ℕ) → List (ℕ × Draw) → List Worker → Body (List Worker × Option ℕ)
unfolding rounds set_size
check_size update range fuel set ds ws = do
  ws1 ← rounds update range fuel set ds ws
  n ← set_size fuel set
  result (ws1, n)

-- The check of the stress test: on a set in memory, by workers that have nothing to remove and have counted no change, after
-- any rounds in any order, each a call on that memory, with values of a range below 2 ^ 31 - 1, a node of its
-- own for each draw, and more rounds of the loops than elements and draws, the size that `main` expects is the one
-- that `set_size` gives.
pub rounds_expected :
    (P : ℕ → Type 0) (update range fuel set mn mx : ℕ) (ds : List (ℕ × Draw)) (ws : List Worker)
    (h : Plain) (cs : Cells)
    → 0 < range
    → range < 2 ^ 31 - 1
    → IsIntSet P h set mn mx cs
    → Usable P set mn mx cs (fresh_nodes range ds)
    → length cs + length ds + 1 < fuel
    → All IsFresh ws
    → Ensures P
        (λ r g. r.1 ≡ some (expected (size_of cs) r.0))
        (check_size update range fuel set ds ws)
        h
unfolding check_size
rounds_expected P update range fuel set mn mx ds ws h cs positive small is usable lt fresh =
    Ensures-bind P _ _ (rounds update range fuel set ds ws) _ h
      (rounds-Ensures P set mn mx update range positive small fuel ds ws h cs (size_of cs)
        (omega arith) is (none_last ws fresh) usable (omega arith)
        (expected-fresh (size_of cs) ws (omega arith) (no_diff ws fresh)))
      λ ws1 g (cs1, is1, len, e).
        Ensures-bind P _ _ (set_size fuel set) _ g
          (set_size-Ensures P fuel g set mn mx cs1 is1 (omega arith))
          λ n g1 (size, same). size ∙ ap some (sym e)
