-- ===== src/Tx/Own.antt =====
-- What a transaction sees of its own reads and writes.
use dstm_p.Common.{
  ℕ, ◌≡◌, refl, inl, inr, Option, none, some, ◌==◌, arith, Bool-cases, find, insert,
  find-insert_self,
}
use dstm_p.Tx.State.{Entry, Entries, Config, State, ok, abort}
use dstm_p.Tx.Access.{
  block_lb, word_at, set_word, filled, read_from, read_valid, read, enter, write_new, store_word,
  stored, write_to, write_valid, write,
}
use dstm_p.Tx.Frame.{Ends, returns, Ends-bind, Ends-ok, Stable, read_cell-Ends}
use dstm_p.Tx.Hidden.{accept-Ends}

-- The write set has an entry of the object.
abbrev HasEntry : ℕ → State → Type 0
HasEntry addr s = (e : Entry) × (find (block_lb addr) s.tx.write_set ≡ some e)

HasEntry-Stable : (cfg : Config) (addr : ℕ) → Stable cfg (HasEntry addr)
HasEntry-Stable cfg addr = record {
  moved = λ s k n h. h;
  cached = λ s vs h. h;
  clocked = λ s c n h. h;
  validated = λ s f h. h;
}

-- The write set has an entry of the object, with value `v` at the address.
abbrev Written : ℕ → ℕ → State → Type 0
Written addr v s =
    (e : Entry) × (find (block_lb addr) s.tx.write_set ≡ some e) × (word_at addr e.cell ≡ v)

stored-Written :
    (addr v : ℕ) (ws : Entries) (e : Entry) (o : Option Entry)
    → o ≡ some e
    → (e' : Entry) × (find (block_lb addr) (stored addr v o ws) ≡ some e')
      × (word_at addr e'.cell ≡ v)
stored-Written addr v ws e o found =
    rw found
      (set_word addr v e, find-insert_self (block_lb addr) (set_word addr v e) ws, ground arith)

module _ (cfg : Config) where
  enter-HasEntry :
      (addr : ℕ) (o : Option Entry) (s : State)
      → HasEntry addr s
      → Ends (HasEntry addr) (λ _. Unit {0}) (enter cfg addr o s)
  unfolding enter
  enter-HasEntry addr (some e) s h = returns (e, find-insert_self (block_lb addr) e s.tx.write_set)
  enter-HasEntry addr none s h =
      Ends-bind (read_cell-Ends cfg (HasEntry-Stable cfg addr) addr _ s h) λ r s1 h1.
        accept-Ends cfg (HasEntry-Stable cfg addr) (λ s c h. tt) (block_lb addr) r.version
          (record s1 {
            tx = record (s1.tx) {
              write_set = insert (block_lb addr) (filled cfg r) (s1.tx).write_set;
            };
          })
          (filled cfg r, find-insert_self (block_lb addr) (filled cfg r) s1.tx.write_set)

  store_word-Written :
      (addr v : ℕ) (s : State)
      → HasEntry addr s
      → Ends (Written addr v) (λ _. Unit {0}) (store_word addr v s)
  unfolding store_word
  store_word-Written addr v s (e, found) =
      returns (stored-Written addr v s.tx.write_set e (find (block_lb addr) s.tx.write_set) found)

  write_to-Written :
      (addr v : ℕ) (o : Option Entry) (s : State)
      → find (block_lb addr) s.tx.write_set ≡ o
      → Ends (Written addr v) (λ _. Unit {0}) (write_to cfg addr v o s)
  unfolding write_to write_new
  write_to-Written addr v (some e) s here = store_word-Written addr v s (e, here)
  write_to-Written addr v none s here =
      Ends-bind {k = λ _. store_word addr v}
        (enter-HasEntry addr (find (block_lb addr) s.tx.read_set)
          (record s {
            tx = record (s.tx) { write_set = insert (block_lb addr) cfg.fresh (s.tx).write_set };
          })
          (cfg.fresh, find-insert_self (block_lb addr) cfg.fresh s.tx.write_set))
        λ _ s1 h1. store_word-Written addr v s1 h1

  -- A read after a write that returned gives the value written, and changes nothing, whatever other
  -- nodes did during the write.
  pub read-write :
      (addr v : ℕ) (s s' : State) → write cfg addr v s ≡ ok tt s' → read cfg addr s' ≡ ok v s'
  unfolding read read_valid read_from write write_valid abort
  read-write addr v s s' h = elim (Bool-cases (addr == 0)) [
    | inl null ↦ cc (rw null at h)
    | inr good ↦
        let (e, found, val) =
          Ends-ok (write_to-Written addr v (find (block_lb addr) s.tx.write_set) s refl)
            (rw good at h) in
        rw (good, found, val)
  ]
