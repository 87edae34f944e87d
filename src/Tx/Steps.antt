-- ===== src/Tx/Steps.antt =====
-- Reads and writes of a transaction beside a memory that its writes go to at once, while others leave
-- memory alone.
use dstm_p.Common.{
  ℕ, suc, ◌+◌, ◌-◌, ◌^◌, ◌<◌, ◌≡◌, refl, sym, ◌∙◌, ap, false, Option, none, some, List, [], ◌==◌,
  arith, Bool-cases, inl, inr, find, insert, find-insert_self,
}
use dstm_p.Timestamp.{node_from_address, is_locked}
use dstm_p.Network.{Segments}
use dstm_p.MemMgr.{cdu_size, object_lock_addr}
use dstm_p.Cache.{CellRead, low_bound}
use dstm_p.Cache.Snapshot.{idle, History, stay}
use dstm_p.Cache.ReadCell.{view, read_cell-IsState}
use dstm_p.Tx.State.{Entry, Entries, Config, State, met, read_cell, abort}
use dstm_p.Tx.Access.{
  block_lb, word_at, filled, accept, read_new, read_from, read_valid, read, enter, write_new,
  store_word, write_to, write_valid, write,
}
use dstm_p.Tx.Frame.{Stable, read_cell-Ends}
use dstm_p.Tx.Hidden.{met-quiet, accept-Ends}
use dstm_p.Tx.Again.{read_cell-some, accept-free, filled-word}
use dstm_p.Tx.Gives.{Gives, gives, quits, Gives-bind, Gives-Ends, Gives-weaken}
use dstm_p.Tx.Sim.{
  IsWord, word, set_memory, Sim, word-block, written-word, read-word, Sim-read, Sim-enter,
  Sim-erase, Sim-store,
}

-- Memory is `m`, and the sets are `rs` and `ws`.
abbrev pub Holds : Segments → Entries → Entries → State → Type 0
Holds m rs ws s = (s.world.seg ≡ m) × (s.tx.read_set ≡ rs) × (s.tx.write_set ≡ ws)

-- Memory is `m`, and the sets are empty.
abbrev pub Left : Segments → State → Type 0
Left m = Holds m [] []

-- The transaction views the memory `m'`.
pub record Views (segs : List ℕ) (m m' : Segments) (s : State) : Type 0 where
  pub memory : s.world.seg ≡ m
  pub sim : Sim segs m m' s.tx.read_set s.tx.write_set

-- What `readCell` copies of an unlocked object is the object.
abbrev Copies : Config → Segments → ℕ → CellRead → Type 0
Copies cfg m a r =
    is_locked r.version ≡ false
    → ((o : ℕ)
        → o < 2 ^ cdu_size
        → (filled cfg r).cell o ≡ m (node_from_address a) (low_bound a + o))
      × (word_at a (filled cfg r).cell ≡ r.value)

module _ (cfg : Config) (quiet : (t : ℕ) (m : Segments) → cfg.env t m ≡ m) where
  Holds-Stable : (m : Segments) (rs ws : Entries) → Stable cfg (Holds m rs ws)
  Holds-Stable m rs ws = record {
    moved = λ s k n h. (met-quiet cfg s.world k quiet ∙ h.0, h.1, h.2);
    cached = λ s vs h. h;
    clocked = λ s c n h. h;
    validated = λ s f h. h;
  }

  still :
      (a lock : ℕ) (s : State)
      → History (λ t. view a lock (met cfg s.world (t - s.world.now))) (λ _. idle)
  still a lock s = record {
    start = λ _. refl;
    step = λ t.
        let same =
          met-quiet cfg s.world (suc t - s.world.now) quiet
          ∙ sym (met-quiet cfg s.world (t - s.world.now) quiet) in
        stay (ap (λ (m : Segments). (view a lock m).lock) same)
          (ap (λ (m : Segments). (view a lock m).cell) same) refl;
  }

  read_cell-Copies :
      (a lock : ℕ) (m : Segments) (rs ws : Entries) (s : State)
      → Holds m rs ws s
      → Gives (λ r t. Holds m rs ws t × Copies cfg m a r) (Left m) (read_cell cfg a lock s)
  read_cell-Copies a lock m rs ws s h =
      Gives-Ends (read_cell-Ends cfg (Holds-Stable m rs ws) a lock s h) λ r t e k. (
        k,
        λ free.
            let is =
              read_cell-IsState cfg.gasnet (λ t. met cfg s.world (t - s.world.now)) a lock
                (still a lock s) cfg.rounds s.world.now r (read_cell-some cfg a lock s t r e)
                free in
            (
              λ o lt. rw is.copied (
                  is.contents o lt
                  ∙ rw (met-quiet cfg s.world (is.moment - s.world.now) quiet, h.0) (ground arith)),
              filled-word cfg a lock s t r e free,
            ),
      )

  accept-Holds :
      (b v : ℕ) (m : Segments) (rs ws : Entries) (s : State)
      → Holds m rs ws s
      → Gives (λ _ t. Holds m rs ws t × (is_locked v ≡ false)) (Left m) (accept cfg b v s)
  accept-Holds b v m rs ws s h =
      Gives-Ends (accept-Ends cfg (Holds-Stable m rs ws) (λ s c k. (k.0, refl, refl)) b v s h)
        λ x t e k. (k, accept-free cfg b v s t e)

  module _ (segs : List ℕ) (m m' : Segments) where
    read_new-Views :
        (a : ℕ) (s : State)
        → IsWord segs a
        → find (block_lb a) s.tx.write_set ≡ none
        → Views segs m m' s
        → Gives (λ v t. (v ≡ word m' a) × Views segs m m' t) (Left m) (read_new cfg a s)
    unfolding read_new
    read_new-Views a s ia absent h =
        let rs0 = insert (block_lb a) cfg.fresh s.tx.read_set in
        let s0 = record s { tx = record (s.tx) { read_set = rs0 } } in
        let (lt, node, addr, low, _) = word-block segs a ia in
        Gives-bind
          (read_cell-Copies a (object_lock_addr cfg.mgr a) m rs0 s.tx.write_set s0
            (h.memory, refl, refl))
          λ r s1 (h1, copies).
            let rs2 = insert (block_lb a) (filled cfg r) s1.tx.read_set in
            let s2 = record s1 { tx = record (s1.tx) { read_set = rs2 } } in
            Gives-bind
              (accept-Holds (block_lb a) r.version m rs2 s.tx.write_set s2 (h1.0, refl, h1.2))
              λ _ s3 (h3, free).
                let (copy, value) = copies free in
                let after =
                  Sim-read segs m m' s.tx.read_set s.tx.write_set h.sim (block_lb a) (filled cfg r)
                    cfg.fresh (λ o o_lt. copy o o_lt ∙ rw (node, low) refl) in
                let known : Sim segs m m' s3.tx.read_set s3.tx.write_set =
                  rw (h3.1, h3.2, h1.1) after in
                gives (
                  sym value
                      ∙ read-word segs m m' _ _ after a (filled cfg r) ia absent
                          (find-insert_self _ _ _),
                  record { memory = h3.0; sim = known },
                )

    read_from-Views :
        (a : ℕ) (s : State) (p q : Option Entry)
        → IsWord segs a
        → find (block_lb a) s.tx.write_set ≡ p
        → find (block_lb a) s.tx.read_set ≡ q
        → Views segs m m' s
        → Gives (λ v t. (v ≡ word m' a) × Views segs m m' t) (Left m) (read_from cfg a p q s)
    unfolding read_from
    read_from-Views a s (some e) q ia found _ h =
        gives (written-word segs m m' s.tx.read_set s.tx.write_set h.sim a e ia found, h)
    read_from-Views a s none (some e) ia absent found h =
        gives (read-word segs m m' s.tx.read_set s.tx.write_set h.sim a e ia absent found, h)
    read_from-Views a s none none ia absent new h = read_new-Views a s ia absent h

    -- A read gives the word of the view and leaves the view.
    pub read-Views :
        (a : ℕ) (s : State)
        → IsWord segs a
        → Views segs m m' s
        → Gives (λ v t. (v ≡ word m' a) × Views segs m m' t) (Left m) (read cfg a s)
    unfolding read read_valid abort
    read-Views a s ia h = elim (Bool-cases (a == 0)) [
      | inl null ↦ rw null (quits (h.memory, refl, refl))
      | inr good ↦ rw good (read_from-Views a s _ _ ia refl refl h)
    ]

    store_word-Views :
        (a v : ℕ) (e : Entry) (s : State)
        → IsWord segs a
        → find (block_lb a) s.tx.write_set ≡ some e
        → Views segs m m' s
        → Gives (λ _ t. Views segs m (set_memory m' a v) t) (Left m) (store_word a v s)
    unfolding store_word
    store_word-Views a v e s ia found h = gives (record {
      memory = h.memory;
      sim = Sim-store segs m m' s.tx.read_set s.tx.write_set h.sim a v e ia found;
    })

    Entered : ℕ → State → Type 0
    Entered a t = Views segs m m' t × ((e : Entry) × (find (block_lb a) t.tx.write_set ≡ some e))

    enter-Views :
        (a : ℕ) (s : State) (q : Option Entry)
        → IsWord segs a
        → find (block_lb a) s.tx.write_set ≡ none
        → find (block_lb a) s.tx.read_set ≡ q
        → Views segs m m' s
        → Gives
            (λ _ t. Entered a t)
            (Left m)
            (enter cfg a q (record s {
              tx = record (s.tx) { write_set = insert (block_lb a) cfg.fresh s.tx.write_set };
            }))
    unfolding enter Entered
    enter-Views a s none ia absent _ h =
        let ws0 = insert (block_lb a) cfg.fresh s.tx.write_set in
        let s0 = record s { tx = record (s.tx) { write_set = ws0 } } in
        let (lt, node, addr, low, _) = word-block segs a ia in
        Gives-bind
          (read_cell-Copies a (object_lock_addr cfg.mgr a) m s.tx.read_set ws0 s0
            (h.memory, refl, refl))
          λ r s1 (h1, copies).
            let ws2 = insert (block_lb a) (filled cfg r) s1.tx.write_set in
            let s2 = record s1 { tx = record (s1.tx) { write_set = ws2 } } in
            Gives-weaken
              (λ _ s3 (h3, free).
                let (copy, value) = copies free in
                let after =
                  Sim-enter segs m m' s.tx.read_set s.tx.write_set h.sim (block_lb a) (filled cfg r)
                    cfg.fresh ia.object absent (λ o o_lt. copy o o_lt ∙ rw (node, low) refl) in
                let known : Sim segs m m' s3.tx.read_set s3.tx.write_set =
                  rw (h3.1, h3.2, h1.2) after in
                (
                  record { memory = h3.0; sim = known },
                  (filled cfg r, rw (h3.2) (find-insert_self _ _ _)),
                ))
              (accept-Holds (block_lb a) r.version m s.tx.read_set ws2 s2 (h1.0, h1.1, refl))
    enter-Views a s (some e) ia absent found h =
        let b = block_lb a in
        let (lt, node, addr, low, _) = word-block segs a ia in
        let after =
          Sim-erase segs m m' s.tx.read_set _
            (Sim-enter segs m m' s.tx.read_set s.tx.write_set h.sim b e cfg.fresh ia.object absent
              (λ o o_lt. h.sim.reads b o e found o_lt))
            b in
        gives (record { memory = h.memory; sim = after }, (e, find-insert_self _ _ _))

    write_to-Views :
        (a v : ℕ) (s : State) (p : Option Entry)
        → IsWord segs a
        → find (block_lb a) s.tx.write_set ≡ p
        → Views segs m m' s
        → Gives (λ _ t. Views segs m (set_memory m' a v) t) (Left m) (write_to cfg a v p s)
    unfolding write_to write_new Entered
    write_to-Views a v s (some e) ia found h = store_word-Views a v e s ia found h
    write_to-Views a v s none ia absent h =
        Gives-bind (enter-Views a s (find (block_lb a) s.tx.read_set) ia absent refl h)
          λ _ t (views, (e, found)). store_word-Views a v e t ia found views

    -- A write leaves the view with the word written.
    pub write-Views :
        (a v : ℕ) (s : State)
        → IsWord segs a
        → Views segs m m' s
        → Gives (λ _ t. Views segs m (set_memory m' a v) t) (Left m) (write cfg a v s)
    unfolding write write_valid abort
    write-Views a v s ia h = elim (Bool-cases (a == 0)) [
      | inl null ↦ rw null (quits (h.memory, refl, refl))
      | inr good ↦ rw good (write_to-Views a v s _ ia refl h)
    ]
