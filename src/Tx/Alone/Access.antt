-- ===== src/Tx/Alone/Access.antt =====
-- Reads and writes of a transaction that nobody disturbs return.
use dstm_p.Common.{
  ℕ, ◌≡◌, refl, ◌∙◌, ap, true, false, Option, none, some, List, ◌==◌, arith, Bool-cases,
  Option-cases, inl, inr, All, All-insert, All-find, All-erase, find, insert, erase, find-insert,
  find-insert_self, find-erase, insert-insert, is_some,
}
use dstm_p.Timestamp.{is_locked}
use dstm_p.Network.{Segments}
use dstm_p.MemMgr
use dstm_p.MemMgr.{MemMgr, cdu_size, object_lock_addr, object_lock_addr_at, objects_base}
use dstm_p.Cache.{CellRead}
use dstm_p.Tx.State.{Entry, Entries, Tx, Config, State, abort}
use dstm_p.Tx.Access.{
  block_lb, filled, read_new, read_from, read_valid, read, enter, write_new, store_word, write_to,
  write_valid, write, set_word,
}
use dstm_p.Tx.Placed.{IsObject}
use dstm_p.Tx.Sim.{IsWord}
use dstm_p.Tx.Alone.{
  Succeeds, succeeds, Succeeds-bind, Succeeds-else, Succeeds-weaken, lock_of, IsAlone, IsCurrent,
  Apart, Current,
}
use dstm_p.Tx.Alone.Looks.{read_cell-Current}
use dstm_p.Tx.Alone.Accept.{accept-Current}

-- An entry of an object that the other set has not, is added; the sets stay apart.
Apart-read :
    (b : ℕ) (e : Entry) (rs ws : Entries)
    → Apart rs ws
    → find b ws ≡ none
    → Apart (insert b e rs) ws
Apart-read b e rs ws apart absent k = elim (Bool-cases (b == k)) [
  | inl q ↦ let same : b ≡ k = ground arith in inr (rw (← same) absent)
  | inr q ↦ rw (find-insert b k e rs, q) (apart k)
]

Apart-write :
    (b : ℕ) (e : Entry) (rs ws : Entries)
    → Apart rs ws
    → find b rs ≡ none
    → Apart rs (insert b e ws)
Apart-write b e rs ws apart absent k = elim (Bool-cases (b == k)) [
  | inl q ↦ let same : b ≡ k = ground arith in inl (rw (← same) absent)
  | inr q ↦ rw (find-insert b k e ws, q) (apart k)
]

Apart-erase : (b : ℕ) (rs ws : Entries) → Apart rs ws → Apart (erase b rs) ws
Apart-erase b rs ws apart k = elim (Bool-cases (b == k)) [
  | inl q ↦ inl (rw (find-erase b k rs, q) refl)
  | inr q ↦ rw (find-erase b k rs, q) (apart k)
]

module _ (cfg : Config) (segs : List ℕ) (me : ℕ) (m0 : Segments)
    (built : cfg.mgr ≡ (MemMgr.init segs me m0).0) (alone : IsAlone cfg) (m : Segments)
    (free : (b : ℕ) → IsObject segs b → is_locked (lock_of cfg.mgr m b) ≡ false) where
  filled-version : (r : CellRead) → is_some r.copied ≡ true → (filled cfg r).ts ≡ r.version
  filled-version r h = elim (Option-cases r.copied) [
    | inl e ↦ absurd (ground arith)
    | inr (cell, e) ↦ rw (filled, e) refl
  ]

  read_new-Current :
      (a : ℕ) (s : State)
      → IsWord segs a
      → find (block_lb a) s.tx.write_set ≡ none
      → Current cfg segs m s
      → Succeeds (λ _ t. Current cfg segs m t) (read_new cfg a s)
  unfolding read_new
  read_new-Current a s ia absent c =
      let b = block_lb a in
      let s0 = record s { tx = record (s.tx) { read_set = insert b cfg.fresh s.tx.read_set } } in
      Succeeds-bind (read_cell-Current cfg segs me m0 built alone m free a s0 ia c.memory)
        λ r s1 (version, copied, (memory, versions, tx)).
          let entered : All (IsCurrent cfg segs m) (insert b (filled cfg r) s1.tx.read_set) =
            rw (tx, insert-insert b cfg.fresh (filled cfg r) s.tx.read_set)
              (All-insert (IsCurrent cfg segs m) b (filled cfg r) s.tx.read_set c.reads
                (ia.object, filled-version r copied ∙ version)) in
          Succeeds-bind
            (accept-Current cfg segs me m0 built alone m free b r.version _ ia.object version
              (record {
                memory = memory;
                cached = rw versions (c.cached);
                reads = entered;
                writes = rw tx (c.writes);
                apart =
                    rw (tx, insert-insert b cfg.fresh (filled cfg r) s.tx.read_set)
                      (Apart-read b (filled cfg r) s.tx.read_set s.tx.write_set c.apart absent);
                changed = ap (λ (t : Tx). t.rl_changed_objects) tx ∙ c.changed;
              }))
            λ _ s3 (c3, sets). succeeds c3

  -- What a first write leaves: the entry of the object is in the write set.
  Entered : ℕ → State → Type 0
  Entered a t = Current cfg segs m t × ((e : Entry) × (find (block_lb a) t.tx.write_set ≡ some e))

  enter-Current :
      (a : ℕ) (s : State) (q : Option Entry)
      → IsWord segs a
      → find (block_lb a) s.tx.read_set ≡ q
      → Current cfg segs m s
      → Succeeds
          (λ _ t. Entered a t)
          (enter cfg a q (record s {
            tx = record (s.tx) { write_set = insert (block_lb a) cfg.fresh s.tx.write_set };
          }))
  unfolding enter Entered
  enter-Current a s none ia absent c =
      let b = block_lb a in
      let s0 = record s { tx = record (s.tx) { write_set = insert b cfg.fresh s.tx.write_set } } in
      Succeeds-bind (read_cell-Current cfg segs me m0 built alone m free a s0 ia c.memory)
        λ r s1 (version, copied, (memory, versions, tx)).
          let entered : All (IsCurrent cfg segs m) (insert b (filled cfg r) s1.tx.write_set) =
            rw (tx, insert-insert b cfg.fresh (filled cfg r) s.tx.write_set)
              (All-insert (IsCurrent cfg segs m) b (filled cfg r) s.tx.write_set c.writes
                (ia.object, filled-version r copied ∙ version)) in
          Succeeds-weaken
            (λ _ s3 (c3, (r3, w3)). (c3, (filled cfg r, rw w3 (find-insert_self _ _ _))))
            (accept-Current cfg segs me m0 built alone m free b r.version _ ia.object version
              (record {
                memory = memory;
                cached = rw versions (c.cached);
                reads = rw tx (c.reads);
                writes = entered;
                apart =
                    rw (tx, insert-insert b cfg.fresh (filled cfg r) s.tx.write_set)
                      (Apart-write b (filled cfg r) s.tx.read_set s.tx.write_set c.apart absent);
                changed = ap (λ (t : Tx). t.rl_changed_objects) tx ∙ c.changed;
              }))
  enter-Current a s (some e) ia found c =
      let b = block_lb a in
      let entered : All (IsCurrent cfg segs m) (insert b e (insert b cfg.fresh s.tx.write_set)) =
        rw (insert-insert b cfg.fresh e s.tx.write_set) (
          All-insert (IsCurrent cfg segs m) b e s.tx.write_set c.writes
            (All-find (IsCurrent cfg segs m) b s.tx.read_set c.reads found)) in
      succeeds (
        record {
          memory = c.memory;
          cached = c.cached;
          reads = All-erase (IsCurrent cfg segs m) b s.tx.read_set c.reads;
          writes = entered;
          apart = rw (insert-insert b cfg.fresh e s.tx.write_set) (
              Apart-write b e (erase b s.tx.read_set) s.tx.write_set
                (Apart-erase b s.tx.read_set s.tx.write_set c.apart)
                (ground (arith, find-erase b b s.tx.read_set)));
          changed = c.changed;
        },
        (e, find-insert_self _ _ _),
      )

  store_word-Current :
      (a v : ℕ) (e : Entry) (s : State)
      → find (block_lb a) s.tx.write_set ≡ some e
      → Current cfg segs m s
      → Succeeds (λ _ t. Current cfg segs m t) (store_word a v s)
  unfolding store_word
  store_word-Current a v e s found c =
      let kept = All-find (IsCurrent cfg segs m) (block_lb a) s.tx.write_set c.writes found in
      rw (store_word, found)
        (succeeds (record {
          memory = c.memory;
          cached = c.cached;
          reads = c.reads;
          writes =
              All-insert (IsCurrent cfg segs m) (block_lb a) (set_word a v e) s.tx.write_set
                c.writes kept;
          apart =
              Apart-write (block_lb a) (set_word a v e) s.tx.read_set s.tx.write_set c.apart
                (elim (c.apart (block_lb a)) [ inl h ↦ h | inr h ↦ absurd (ground arith) ]);
          changed = c.changed;
        }))

  write_to-Current :
      (a v : ℕ) (s : State) (p : Option Entry)
      → IsWord segs a
      → find (block_lb a) s.tx.write_set ≡ p
      → Current cfg segs m s
      → Succeeds (λ _ t. Current cfg segs m t) (write_to cfg a v p s)
  unfolding write_to write_new Entered
  write_to-Current a v s (some e) ia found c = store_word-Current a v e s found c
  write_to-Current a v s none ia absent c =
      Succeeds-bind (enter-Current a s (find (block_lb a) s.tx.read_set) ia refl c)
        λ _ t (c1, (e, found)). store_word-Current a v e t found c1

  read_from-Current :
      (a : ℕ) (s : State) (p q : Option Entry)
      → IsWord segs a
      → find (block_lb a) s.tx.write_set ≡ p
      → Current cfg segs m s
      → Succeeds (λ _ t. Current cfg segs m t) (read_from cfg a p q s)
  unfolding read_from
  read_from-Current a s (some e) q ia found c = succeeds c
  read_from-Current a s none (some e) ia absent c = succeeds c
  read_from-Current a s none none ia absent c = read_new-Current a s ia absent c

  pub read-Current :
      (a : ℕ) (s : State)
      → IsWord segs a
      → Current cfg segs m s
      → Succeeds (λ _ t. Current cfg segs m t) (read cfg a s)
  unfolding read read_valid objects_base
  read-Current a s ia c =
      Succeeds-else (a == 0) (abort _) (read_valid cfg a) s (ground (arith, ia.object.above))
        (read_from-Current a s _ _ ia refl c)

  pub write-Current :
      (a v : ℕ) (s : State)
      → IsWord segs a
      → Current cfg segs m s
      → Succeeds (λ _ t. Current cfg segs m t) (write cfg a v s)
  unfolding write write_valid objects_base
  write-Current a v s ia c =
      Succeeds-else (a == 0) (abort _) (write_valid cfg a v) s (ground (arith, ia.object.above))
        (write_to-Current a v s _ ia refl c)
