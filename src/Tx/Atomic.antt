-- ===== src/Tx/Atomic.antt =====
-- A commit writes all of its write set or nothing.
use dstm_p.Common.{
  ℕ, zero, suc, ◌+◌, ◌-◌, ◌^◌, ◌<◌, ◌≡◌, refl, ◌∙◌, ap, Bool, true, Option, none, some, List, [],
  ◌∷◌, find, take, contains, length, get_or, arith, ltb, Bool-cases, inl, inr,
}
use dstm_p.Timestamp.{node_from_address, addr_from_address}
use dstm_p.Network.{Segments}
use dstm_p.MemMgr
use dstm_p.MemMgr.{cdu_size, object_lock_addr}
use dstm_p.Locks.{request_locks_handler, process_locks_request}
use dstm_p.Tx.State.{Entry, Entries, Config, State, Cmd, pure, abort, add_version}
use dstm_p.Tx.Commit.{
  Requests, collect, request, request_all, wait_replies, restore, restore_all, release_locks,
  cache_changed, give_up, lock_rounds, get_locks, is_empty, publish, reject, finish, commit,
}
use dstm_p.Tx.Frame.{
  Ends, returns, stops, Ends-bind, Ends-if, Stable, abort-Ends, add_version-Ends, validate_all-Ends,
}
use dstm_p.Tx.Hidden.{met-quiet}
use dstm_p.Tx.Placed.{IsObject, Distinct, word_of, put_cells_lem, put_locks_cell}
use dstm_p.Tx.Publish.{Ends-weaken, publish-Ends}
use dstm_p.Tx.Same.{SameObjects, put_lock-Same, grant_all-Same}
use dstm_p.Tx.Requests.{AllObjects, AllTargets, Targets, collect-AllTargets}

All-take : (segs : List ℕ) (n : ℕ) (es : Entries) → AllObjects segs es → AllObjects segs (take n es)
All-take segs zero es h = tt
All-take segs (suc n) [] h = tt
All-take segs (suc n) (e ∷ es) h = (h.0, All-take segs n es h.1)

-- All objects are as in `m`, and the write set is `ws`.
abbrev pub Kept : List ℕ → Segments → Entries → State → Type 0
Kept segs m ws s = SameObjects segs m s.world.seg × (s.tx.write_set ≡ ws)

-- All objects are as in `m`, and both sets are empty.
abbrev pub Restored : List ℕ → Segments → State → Type 0
Restored segs m s = SameObjects segs m s.world.seg × (s.tx.read_set ≡ []) × (s.tx.write_set ≡ [])

-- Each object has the contents of its entry, or else those of `m`.
abbrev pub Overlaid : List ℕ → Segments → Entries → State → Type 0
Overlaid segs m ws s =
    (b o : ℕ)
    → IsObject segs b
    → o < 2 ^ cdu_size
    → s.world.seg (node_from_address b) (addr_from_address b + o)
      ≡ word_of (find b ws) o (m (node_from_address b) (addr_from_address b + o))

wait_replies-Ends :
    {P Q : State → Type 0} (cfg : Config) (n : ℕ) (s : State)
    → P s
    → Ends P Q (wait_replies cfg n s)
unfolding wait_replies
wait_replies-Ends cfg n s h = elim (Bool-cases (ltb s.tx.rl_nodes n)) [
  | inl e ↦ rw e stops
  | inr e ↦ rw e (returns h)
]

module _ (cfg : Config) (segs : List ℕ) (me : ℕ) (m0 : Segments)
    (quiet : (t : ℕ) (m : Segments) → cfg.env t m ≡ m)
    (built : cfg.mgr ≡ (MemMgr.init segs me m0).0) (m : Segments) (ws : Entries)
    (objects : AllObjects segs ws) where
  Kept-Stable : Stable cfg (Kept segs m ws)
  Kept-Stable = record {
    moved = λ s k n h. (rw (met-quiet cfg s.world k quiet) h.0, h.1);
    cached = λ s vs h. h;
    clocked = λ s c n h. h;
    validated = λ s f h. h;
  }

  module _ {Q : State → Type 0} where
    request-Kept :
        (node : ℕ) (array : List ℕ) (s : State)
        → Targets segs (node, array)
        → Kept segs m ws s
        → Ends (Kept segs m ws) Q (request cfg node array s)
    unfolding request request_locks_handler process_locks_request
    request-Kept node array s targets h = returns (
      grant_all-Same segs cfg.mgr me m0 built m cfg.gasnet cfg.env quiet node array _
          (get_or array 1 0) 0 _ (λ i le lt. targets i (omega arith)) h.0,
      h.1,
    )

    request_all-Kept :
        (rs : Requests) (s : State)
        → AllTargets segs rs
        → Kept segs m ws s
        → Ends (Kept segs m ws) Q (request_all cfg rs s)
    unfolding request_all
    request_all-Kept [] s targets h = returns h
    request_all-Kept ((node, array) ∷ rs) s targets h =
        Ends-bind (request-Kept node array s targets.0 h)
          λ _ s1 h1. request_all-Kept rs s1 targets.1 h1

    restore-Kept :
        (b ts : ℕ) (changed : List ℕ) (s : State)
        → IsObject segs b
        → Kept segs m ws s
        → Ends (Kept segs m ws) Q (restore cfg b ts changed s)
    unfolding restore
    restore-Kept b ts changed s ib h = Ends-if (contains b changed) (pure tt) _ s (returns h) (
        returns (
          rw
              (
                cfg.gasnet.put_law (cfg.env s.world.now s.world.seg) (node_from_address b)
                    (addr_from_address (object_lock_addr cfg.mgr b)) (λ _. ts) 8,
                quiet s.world.now s.world.seg,
              )
              (put_lock-Same segs cfg.mgr me m0 built m b ts s.world.seg ib h.0),
          h.1,
        ))

    restore_all-Kept :
        (es : Entries) (s : State)
        → AllObjects segs es
        → Kept segs m ws s
        → Ends (Kept segs m ws) Q (restore_all cfg es s)
    unfolding restore_all
    restore_all-Kept [] s all h = returns h
    restore_all-Kept ((b, e) ∷ es) s all h =
        Ends-bind (restore-Kept b e.ts s.tx.rl_changed_objects s all.0 h)
          λ _ s1 h1. restore_all-Kept es s1 all.1 h1

    release_locks-Kept :
        (es : Entries) (s : State)
        → AllObjects segs es
        → Kept segs m ws s
        → Ends (Kept segs m ws) Q (release_locks cfg es s)
    unfolding release_locks
    release_locks-Kept es s all h = Ends-bind (restore_all-Kept es s all h) λ _ s1 h1. returns h1

    cache_changed-Kept :
        (bs : List ℕ) (s : State)
        → Kept segs m ws s
        → Ends (Kept segs m ws) Q (cache_changed cfg bs s)
    unfolding cache_changed
    cache_changed-Kept [] s h = returns h
    cache_changed-Kept (b ∷ bs) s h =
        Ends-bind (cached (find b s.tx.write_set)) λ _ s1 h1. cache_changed-Kept bs s1 h1
      where
        cached :
            (o : Option Entry)
            → Ends (Kept segs m ws) Q (
                (elim o as (λ _. Cmd (Unit {0})) [
                  | some e ↦ add_version cfg b e.ts
                  | none ↦ pure tt
                ])
                  s)
        cached none = returns h
        cached (some e) = add_version-Ends cfg Kept-Stable b e.ts s h

    give_up-Kept :
        (left : Entries) (s : State)
        → Kept segs m ws s
        → Ends (Kept segs m ws) Q (give_up cfg left s)
    unfolding give_up
    give_up-Kept left s h =
        Ends-bind
          (release_locks-Kept (take (length s.tx.write_set - length left) s.tx.write_set) s
            (All-take segs _ s.tx.write_set (rw h.1 objects)) h)
          λ _ s1 h1.
            Ends-bind (cache_changed-Kept s1.tx.rl_changed_objects s1 h1) λ _ s2 h2. returns h2

    lock_rounds-Kept :
        (fuel : ℕ) (es : Entries) (s : State)
        → AllObjects segs es
        → Kept segs m ws s
        → Ends (Kept segs m ws) Q (lock_rounds cfg fuel es s)
    unfolding lock_rounds
    lock_rounds-Kept zero es s all h = stops
    lock_rounds-Kept (suc fuel) [] s all h = returns h
    lock_rounds-Kept (suc fuel) (e ∷ es) s all h =
        let asked = collect-AllTargets cfg segs (e ∷ es) [] all tt in
        Ends-bind
          (request_all-Kept (collect cfg (e ∷ es) []).0
            (record s { tx = record (s.tx) { rl_nodes = 0 } }) asked.0 h)
          λ _ s0 h0.
            Ends-bind (wait_replies-Ends cfg (length (collect cfg (e ∷ es) []).0) s0 h0) λ _ s1 h1.
              next (λ s2 h2. lock_rounds-Kept fuel (collect cfg (e ∷ es) []).1 s2 asked.1 h2)
                s1.tx.rl_changed_objects s1 h1
      where
        next :
            ((s2 : State)
              → Kept segs m ws s2
              → Ends (Kept segs m ws) Q (lock_rounds cfg fuel (collect cfg (e ∷ es) []).1 s2))
            → (bs : List ℕ) (s1 : State) → Kept segs m ws s1
            → Ends (Kept segs m ws) Q (
                (elim bs as (λ _. Cmd Bool) [
                  | [] ↦ lock_rounds cfg fuel (collect cfg (e ∷ es) []).1
                  | b ∷ bs ↦ give_up cfg (collect cfg (e ∷ es) []).1
                ])
                  s1)
        next more [] s1 h1 = more s1 h1
        next more (b ∷ bs) s1 h1 = give_up-Kept (collect cfg (e ∷ es) []).1 s1 h1

    get_locks-Kept : (s : State) → Kept segs m ws s → Ends (Kept segs m ws) Q (get_locks cfg s)
    unfolding get_locks
    get_locks-Kept s h = lock_rounds-Kept _ s.tx.write_set s (rw h.1 objects) h

  finish-Overlaid :
      (s : State)
      → Distinct ws
      → Kept segs m ws s
      → Ends (Overlaid segs m ws) (Restored segs m) (finish cfg s)
  unfolding finish reject
  finish-Overlaid s distinct h = Ends-bind (validate_all-Ends cfg Kept-Stable s h) λ good s1 h1.
      Ends-if good (publish cfg) (reject cfg) s1
        (Ends-weaken
          (λ s2 after b o ib lt. rw after (
            put_locks_cell segs cfg.mgr me m0 built ws b o _ _ objects ib
            ∙ put_cells_lem segs ws b o s1.world.seg objects distinct ib lt
            ∙ ap (word_of (find b ws) o) (h1.0 b o ib lt)))
          (publish-Ends cfg quiet s1.world.seg ws s1 (refl, h1.1)))
        (Ends-bind
          (Ends-if (is_empty cfg s1.tx.write_set) (pure tt) (release_locks cfg s1.tx.write_set) s1
            (returns h1) (release_locks-Kept s1.tx.write_set s1 (rw h1.1 objects) h1))
          λ _ s2 h2. abort-Ends {P = Kept segs m ws} (λ s c k. (k.0, refl, refl)) _ s2 h2)

  pub commit-Overlaid :
      (s : State)
      → Distinct ws
      → Kept segs m ws s
      → Ends (Overlaid segs m ws) (Restored segs m) (commit cfg s)
  unfolding commit
  commit-Overlaid s distinct h =
      Ends-bind
        (Ends-if (is_empty cfg s.tx.write_set) (pure true) (get_locks cfg) s (returns h)
          (get_locks-Kept s h))
        λ locked s1 h1.
          Ends-if locked (finish cfg) (abort _) s1 (finish-Overlaid s1 distinct h1)
            (abort-Ends {P = Kept segs m ws} (λ s c k. (k.0, refl, refl)) _ s1 h1)

-- All or nothing, in a memory that `init` laid out and that other threads and nodes leave alone: a commit of a write set of
-- objects without repetition that returns leaves every object of the system with the contents of
-- its entry in the write set, or its old contents where it has none; and one that aborts leaves
-- every object with its old contents, and both sets empty.
pub commit_atomic :
    (cfg : Config) (segs : List ℕ) (me : ℕ) (m0 : Segments) (s : State)
    → ((t : ℕ) (m : Segments) → cfg.env t m ≡ m)
    → cfg.mgr ≡ (MemMgr.init segs me m0).0
    → AllObjects segs s.tx.write_set
    → Distinct s.tx.write_set
    → Ends (Overlaid segs s.world.seg s.tx.write_set) (Restored segs s.world.seg) (commit cfg s)
commit_atomic cfg segs me m0 s quiet built objects distinct =
    commit-Overlaid cfg segs me m0 quiet built s.world.seg s.tx.write_set objects s distinct
      ((λ b o ib lt. refl), refl)
