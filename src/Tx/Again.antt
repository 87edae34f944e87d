-- ===== src/Tx/Again.antt =====
-- Reads are repeatable.
use dstm_p.Common.{
  ℕ, ◌-◌, ◌≡◌, refl, sym, ◌∙◌, ap, subst, inl, inr, true, false, none, some, ◌==◌, arith,
  Bool-cases, Option-cases, find, insert, find-insert_self,
}
use dstm_p.Timestamp.{is_locked, addr_from_address}
use dstm_p.Cache
use dstm_p.Cache.{CellRead, low_bound}
use dstm_p.Cache.ReadCell.{read_cell_copied}
use dstm_p.MemMgr.{object_lock_addr}
use dstm_p.Tx.State.{
  Entry, Config, State, Run, ok, aborted, out_of_rounds, Cmd, and_then, met, abort, add_version,
  read_cell,
}
use dstm_p.Tx.Access.{block_lb, word_at, filled, accept, read_new, read_from, read_valid, read}
use dstm_p.Tx.Frame.{Ends-ok, read_cell-Ends}
use dstm_p.Tx.Hidden.{Sets-Stable, accept-Ends}

-- A chain that returned: each part did.
abbrev Steps : {A B : Type 0} → Run A → (A → Cmd B) → B → State → Type 0
Steps {A} r k b t = (a : A) × (s : State) × (r ≡ ok a s) × (k a s ≡ ok b t)

and_then-Steps :
    {A B : Type 0} (r : Run A) (k : A → Cmd B) (b : B) (t : State)
    → and_then r k ≡ ok b t
    → Steps r k b t
and_then-Steps (ok a s) k b t h = (a, s, refl, h)
and_then-Steps (aborted c s) k b t h = cc
and_then-Steps out_of_rounds k b t h = cc

ok-value : {A : Type 0} (a b : A) (s t : State) → ok a s ≡ ok b t → (a ≡ b) × (s ≡ t)
ok-value a b s t h = (cc, cc)

-- The write set has no entry of the object, and the read set one with value `v` at the address.
abbrev Seen : ℕ → ℕ → State → Type 0
Seen addr v s =
    (find (block_lb addr) s.tx.write_set ≡ none)
    × (e : Entry) × (find (block_lb addr) s.tx.read_set ≡ some e)
    × (word_at addr e.cell ≡ v)

Seen-along : (addr v v' : ℕ) (s t : State) → v ≡ v' → s ≡ t → Seen addr v s → Seen addr v' t
Seen-along addr v v' s t e q h = subst (Seen addr v') q (subst (λ (w : ℕ). Seen addr w s) e h)

offset :
    (addr : ℕ) → addr_from_address (addr - block_lb addr) ≡ addr_from_address addr - low_bound addr
offset addr = omega arith

module _ (cfg : Config) where
  pub read_cell-some :
      (addr lock : ℕ) (s s1 : State) (r : CellRead)
      → read_cell cfg addr lock s ≡ ok r s1
      → Cache.read_cell cfg.gasnet
          (λ t. met cfg s.world (t - s.world.now))
          cfg.rounds
          s.world.now
          addr
          lock
          true
        ≡ some r
  unfolding read_cell
  read_cell-some addr lock s s1 r h =
      elim (Option-cases (
        Cache.read_cell cfg.gasnet (λ t. met cfg s.world (t - s.world.now)) cfg.rounds s.world.now
          addr lock true)) [
            | inl e ↦ cc (rw (read_cell, e) at h)
            | inr (r', e) ↦ e ∙ ap some (ok-value _ _ _ _ (rw (read_cell, e) at h)).0
          ]

  -- What is accepted was not locked.
  pub accept-free : (b v : ℕ) (s t : State) → accept cfg b v s ≡ ok tt t → is_locked v ≡ false
  unfolding accept add_version abort
  accept-free b v s t h = elim (Bool-cases (is_locked v)) [ inl l ↦ cc (rw l at h) | inr f ↦ f ]

  pub filled-word :
      (addr lock : ℕ) (s s1 : State) (r : CellRead)
      → read_cell cfg addr lock s ≡ ok r s1
      → is_locked r.version ≡ false
      → word_at addr (filled cfg r).cell ≡ r.value
  filled-word addr lock s s1 r h free =
      let (b, copied, value) =
        read_cell_copied cfg.gasnet (λ t. met cfg s.world (t - s.world.now)) addr lock cfg.rounds
          s.world.now r (read_cell-some addr lock s s1 r h) free in
      rw copied (ap b (offset addr) ∙ sym value)

  read_new-Seen :
      (addr v : ℕ) (s t : State)
      → find (block_lb addr) s.tx.write_set ≡ none
      → read_new cfg addr s ≡ ok v t
      → Seen addr v t
  unfolding read_new
  read_new-Seen addr v s t absent h =
      let rs0 = insert (block_lb addr) cfg.fresh s.tx.read_set in
      let s0 = record s { tx = record (s.tx) { read_set = rs0 } } in
      let (r, s1, got, rest) =
        and_then-Steps (read_cell cfg addr (object_lock_addr cfg.mgr addr) s0) _ v t h in
      let sets1 =
        Ends-ok
          (read_cell-Ends cfg {Q = λ _. Unit {0}} (Sets-Stable cfg rs0 s.tx.write_set) addr
            (object_lock_addr cfg.mgr addr) s0 (refl, refl))
          got in
      let rs2 = insert (block_lb addr) (filled cfg r) s1.tx.read_set in
      let s2 = record s1 { tx = record (s1.tx) { read_set = rs2 } } in
      let (_, s3, accepted, last) =
        and_then-Steps (accept cfg (block_lb addr) r.version s2) _ v t rest in
      let sets3 =
        Ends-ok
          (accept-Ends cfg {Q = λ _. Unit {0}} (Sets-Stable cfg rs2 s.tx.write_set) (λ s c h. tt)
            (block_lb addr) r.version s2 (refl, sets1.1))
          accepted in
      let (value, state) = ok-value r.value v s3 t last in
      Seen-along addr r.value v s3 t value state (
        rw sets3.1 absent,
        filled cfg r,
        rw sets3.0 (find-insert_self (block_lb addr) (filled cfg r) s1.tx.read_set),
        filled-word addr (object_lock_addr cfg.mgr addr) s0 s1 r got
            (accept-free (block_lb addr) r.version s2 s3 accepted),
      )

  -- A read that returned returns the same again, and changes nothing, whatever other nodes did
  -- during the first.
  pub read-read :
      (addr v : ℕ) (s s' : State) → read cfg addr s ≡ ok v s' → read cfg addr s' ≡ ok v s'
  unfolding read read_valid read_from abort
  read-read addr v s s' h = elim (Bool-cases (addr == 0)) [
    | inl null ↦ cc (rw null at h)
    | inr good ↦ elim (Option-cases (find (block_lb addr) s.tx.write_set)) [
      | inr (e, found) ↦
          let (value, state) = ok-value _ v s s' (rw (good, found) at h) in
          rw (← state, good, found, value)
      | inl absent ↦ elim (Option-cases (find (block_lb addr) s.tx.read_set)) [
        | inr (e, found) ↦
            let (value, state) = ok-value _ v s s' (rw (good, absent, found) at h) in
            rw (← state, good, absent, found, value)
        | inl new ↦
            let (absent', e, found, value) =
              read_new-Seen addr v s s' absent (rw (good, absent, new) at h) in
            rw (good, absent', found, value)
      ]
    ]
  ]
