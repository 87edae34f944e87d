-- ===== src/IntSet/Shared.antt =====
-- The operations as calls of a thread, through its transactions.
use dstm_p.Common.{
  ℕ, suc, ◌^◌, ◌<◌, ◌≡◌, refl, ◌&&◌, ◌||◌, not, Bool, true, false, Option, none, some, List, ◌==◌,
  arith, Bool-cases, inl, inr, length,
}
use dstm_p.Timestamp.{node_from_address, addr_from_address}
use dstm_p.Network.{Segments, store}
use dstm_p.MemMgr
use dstm_p.Malloc.Remote.{dstm_free_anywhere}
use dstm_p.Tx.State.{Config}
use dstm_p.Tx.Sim.{IsWord}
use dstm_p.Interface.{Thread}
use dstm_p.Timestamp.{is_locked}
use dstm_p.Tx.Placed.{IsObject}
use dstm_p.Tx.Alone.{lock_of, IsAlone, Older}
use dstm_p.Interface.Alone.{Comes, comes, Comes-bind, Comes-weaken}
use dstm_p.Interface.Runs.{Ran, ran, Ran-bind}
use dstm_p.Interface.Blocks.{Plain, update, Agrees}
use dstm_p.Interface.Contract.{Ran-weaken, block_serial, block_alone}
use dstm_p.IntSet.{int_min, init_node, add, remove, contains}
use dstm_p.IntSet.Calls.{free_node, keep_node, set_add, drop_node, set_remove, set_contains}
use dstm_p.IntSet.Chain.{
  Cells, has, has-insert_cell, has-erase_cell, insert_cell, erase_cell, insert_present, Rising,
  Between, IsIntSet,
}
use dstm_p.IntSet.Link.{IsNew, add-Ensures}
use dstm_p.IntSet.Unlink.{Removed, remove-Ensures}
use dstm_p.IntSet.Ops.{contains-Ensures, update-IsIntSet, init_node-Ensures}

-- In the memory of the nodes, the set at `set` holds the values of the cells.
abbrev pub Holds : List ℕ → (set mn mx : ℕ) → Cells → Thread → Type 0
Holds segs set mn mx cs t =
    ((h : Plain) × IsIntSet (IsWord segs) h set mn mx cs × Agrees segs t.world.seg h)
    × (t.key ≡ none)

store-Agrees :
    (segs : List ℕ) (m : Segments) (h : Plain) (a v : ℕ)
    → IsWord segs a
    → Agrees segs m h
    → Agrees segs (store m (node_from_address a) (addr_from_address a) v) (update h a v)
store-Agrees segs m h a v ia same b ib =
    let la : a < 2 ^ 63 = omega (arith, ia.object.unlocked) in
    let lb : b < 2 ^ 63 = omega (arith, ib.object.unlocked) in
    ground (arith, same b ib, la, lb, ia.aligned, ib.aligned)

module _ (cfg : Config) (segs : List ℕ) (set mn mx : ℕ) where
  -- To free a node that the set does not use.
  free_node-Holds :
      (n : ℕ) (cs : Cells) (t : Thread)
      → IsWord segs n
      → Removed set mn mx cs n
      → Holds segs set mn mx cs t
      → Holds segs set mn mx cs (free_node cfg n t)
  unfolding free_node
  free_node-Holds n cs t is_word removed ((h, is, same), outer) =
      rw (dstm_free_anywhere cfg.gasnet.mynode n t.world.seg, free_node)
        (
          (
            update h n 0,
            update-IsIntSet (IsWord segs) h set mn mx n 0 cs is removed,
            store-Agrees segs t.world.seg h n 0 is_word same,
          ),
          outer,
        )

  module _ (me : ℕ) (m1 : Segments) (tries fuel val : ℕ) (cs : Cells) (t : Thread)
      (between : Between val) (quiet : (u : ℕ) (m : Segments) → cfg.env u m ≡ m)
      (built : cfg.mgr ≡ (MemMgr.init segs me m1).0) (enough : length cs < fuel)
      (holds : Holds segs set mn mx cs t) where
    keep_node-Holds :
        (n : ℕ) (t1 : Thread)
        → IsNew (IsWord segs) n set mn mx cs
        → Holds segs set mn mx (insert_cell val n cs) t1
        → (lo : ℕ) × (Rising lo cs)
        → Holds segs set mn mx (insert_cell val n cs) (keep_node cfg n (some (not (has val cs))) t1)
    unfolding keep_node
    keep_node-Holds n t1 new after (lo, rising) = elim (Bool-cases (has val cs)) [
      | inl e ↦
          let same = insert_present lo val n cs rising e in
          rw (e, same)
            (free_node-Holds n cs t1 new.node.0 (new.off_set.0, new.away.0) (rw same at after))
      | inr e ↦ rw e after
    ]

    -- `set_add`
    set_add-Ran :
        (n next : ℕ)
        → IsNew (IsWord segs) n set mn mx cs
        → Ran
            (λ r t1. (r ≡ some (not (has val cs))) × Holds segs set mn mx (insert_cell val n cs) t1)
            (λ _. ⊥)
            (set_add cfg tries fuel set val n next t)
    unfolding set_add
    set_add-Ran n next new =
        let ((h, is, same), outer) = holds in
        Ran-bind
          (block_serial (λ _ g. IsIntSet (IsWord segs) g set mn mx cs) cfg segs me m1
            (init_node n val next) h t tries quiet built outer same
            (init_node-Ensures (IsWord segs) h set mn mx n val next cs is new))
          λ _ t1 ((h1, is1, same1), outer1, _).
            Ran-bind
              (block_serial
                (λ r g.
                  (r ≡ some (not (has val cs)))
                  × IsIntSet (IsWord segs) g set mn mx (insert_cell val n cs))
                cfg segs me m1 (add fuel set val n) h1 t1 tries quiet built outer1 same1
                (add-Ensures (IsWord segs) val between fuel h1 set mn mx n cs is1 new enough))
              λ r t2 ((h2, (answer, is2), same2), outer2, _). rw answer (
                ran
                  (refl, keep_node-Holds n t2 new ((h2, is2, same2), outer2) (int_min, is1.rising)))

    -- What the block of `set_remove` leaves, and the call.
    abbrev Taken : Option (Bool × ℕ) → Plain → Type 0
    Taken r g =
        (n : ℕ) × (r ≡ some (has val cs, n))
        × IsIntSet (IsWord segs) g set mn mx (erase_cell val cs)
        × (has val cs ≡ true → IsWord segs n × Removed set mn mx (erase_cell val cs) n)

    -- `set_remove`
    set_remove-Ran :
        Ran
          (λ r t1. (r ≡ some (has val cs)) × Holds segs set mn mx (erase_cell val cs) t1)
          (λ _. ⊥)
          (set_remove cfg tries fuel set val t)
    unfolding set_remove drop_node
    set_remove-Ran =
        let ((h, is, same), outer) = holds in
        Ran-bind
          (block_serial Taken cfg segs me m1 (remove fuel set val) h t tries quiet built outer same
            (remove-Ensures (IsWord segs) val between fuel h set mn mx cs is enough))
          λ r t1 ((h1, (n, answer, is1, removed), same1), outer1, _).
            elim (Bool-cases (has val cs)) [
              | inl e ↦
                  rw (answer, e)
                    (ran (
                      refl,
                      free_node-Holds n (erase_cell val cs) t1 (removed e).0 (removed e).1
                          ((h1, is1, same1), outer1),
                    ))
              | inr e ↦ rw (answer, e) (ran (refl, ((h1, is1, same1), outer1)))
            ]

    -- `set_contains`
    set_contains-Ran :
        Ran
          (λ r t1. (r ≡ some (has val cs)) × Holds segs set mn mx cs t1)
          (λ _. ⊥)
          (set_contains cfg tries fuel set val t)
    unfolding set_contains
    set_contains-Ran =
        let ((h, is, same), outer) = holds in
        Ran-weaken
          (λ r t1 ((h1, (answer, sm), same1), outer1, _). (answer, ((h1, rw sm is, same1), outer1)))
          (block_serial (λ r g. (r ≡ some (has val cs)) × (g ≡ h)) cfg segs me m1
            (contains fuel set val) h t tries quiet built outer same
            (contains-Ensures (IsWord segs) val between fuel h set mn mx cs is enough))

    -- `set_remove` by a thread that nobody disturbs.
    set_remove-Comes :
        IsAlone cfg
        → ((b : ℕ) → IsObject segs b → is_locked (lock_of cfg.mgr t.world.seg b) ≡ false)
        → Older cfg segs t.world.seg t.world.versions
        → Comes
            (λ r t1. (r ≡ some (has val cs)) × Holds segs set mn mx (erase_cell val cs) t1)
            (set_remove cfg (suc tries) fuel set val t)
    unfolding set_remove drop_node
    set_remove-Comes alone free older =
        let ((h, is, same), outer) = holds in
        Comes-bind
          (block_alone Taken cfg segs me m1 (remove fuel set val) h t tries alone built free older
            outer same (remove-Ensures (IsWord segs) val between fuel h set mn mx cs is enough))
          λ r t1 ((h1, (n, answer, is1, removed), same1), outer1, _).
            elim (Bool-cases (has val cs)) [
              | inl e ↦
                  rw (answer, e)
                    (comes (
                      refl,
                      free_node-Holds n (erase_cell val cs) t1 (removed e).0 (removed e).1
                          ((h1, is1, same1), outer1),
                    ))
              | inr e ↦ rw (answer, e) (comes (refl, ((h1, is1, same1), outer1)))
            ]

-- The set in memory has these values.
abbrev pub HasValues : List ℕ → (set mn mx : ℕ) → (ℕ → Bool) → Thread → Type 0
HasValues segs set mn mx values t =
    (ds : Cells) × Holds segs set mn mx ds t × ((x : ℕ) → has x ds ≡ values x)

-- `set_add`, called outside of a transaction, in quiet memory laid out by `init`, for a value between INT_MIN and
-- INT_MAX, with a new node that the set does not use and more rounds than elements: it does not jump past
-- a checkpoint, and when it returns after any number of aborted attempts, it answers whether the value was
-- not there, and the set has its old values and this one.
pub set_add_serial :
    (cfg : Config) (segs : List ℕ) (me : ℕ) (m1 : Segments) (set mn mx tries fuel val n next : ℕ)
    (cs : Cells) (t : Thread)
    → ((u : ℕ) (m : Segments) → cfg.env u m ≡ m)
    → cfg.mgr ≡ (MemMgr.init segs me m1).0
    → Between val
    → IsNew (IsWord segs) n set mn mx cs
    → length cs < fuel
    → Holds segs set mn mx cs t
    → Ran
        (λ r t1.
          (r ≡ some (not (has val cs))) × HasValues segs set mn mx (λ x. (x == val) || has x cs) t1)
        (λ _. ⊥)
        (set_add cfg tries fuel set val n next t)
set_add_serial cfg segs me m1 set mn mx tries fuel val n next cs t quiet built between new enough
      holds =
    Ran-weaken
      (λ r t1 (answer, after).
        (answer, (insert_cell val n cs, after, λ x. has-insert_cell x val n cs)))
      (set_add-Ran cfg segs set mn mx me m1 tries fuel val cs t between quiet built enough holds n
        next new)

-- `set_remove`, called outside of a transaction by a thread alone in the system, in memory laid out by `init` where
-- no object is locked, and no cached version is locked or newer than its object, for a value between INT_MIN and
-- INT_MAX, with more rounds than elements: it returns from its first attempt and answers whether the value
-- was there, and the set has its old values without this one.
pub set_remove_alone :
    (cfg : Config) (segs : List ℕ) (me : ℕ) (m1 : Segments) (set mn mx tries fuel val : ℕ)
    (cs : Cells) (t : Thread)
    → IsAlone cfg
    → cfg.mgr ≡ (MemMgr.init segs me m1).0
    → ((b : ℕ) → IsObject segs b → is_locked (lock_of cfg.mgr t.world.seg b) ≡ false)
    → Older cfg segs t.world.seg t.world.versions
    → Between val
    → length cs < fuel
    → Holds segs set mn mx cs t
    → Comes
        (λ r t1.
          (r ≡ some (has val cs)) × HasValues segs set mn mx (λ x. not (x == val) && has x cs) t1)
        (set_remove cfg (suc tries) fuel set val t)
set_remove_alone cfg segs me m1 set mn mx tries fuel val cs t alone built free older between enough
      holds =
    let ((h, is, same), outer) = holds in
    Comes-weaken
      (λ r t1 (answer, after).
        (answer, (erase_cell val cs, after, λ x. has-erase_cell int_min x val cs is.rising)))
      (set_remove-Comes cfg segs set mn mx me m1 tries fuel val cs t between alone.quiet built
        enough holds alone free older)
