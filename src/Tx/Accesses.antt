-- ===== src/Tx/Accesses.antt =====
-- Reads and writes come to an end.
use dstm_p.Common.{
  ℕ, zero, suc, ◌+◌, ◌-◌, ◌<◌, ◌≡◌, refl, sym, ◌∙◌, ap, Bool, true, false, Option, none, some, [],
  ◌∷◌, is_some, arith, ◌^◌, ◌%◌,
}
use dstm_p.Timestamp.{is_locked, version_ts}
use dstm_p.Network.{Segments}
use dstm_p.Clock
use dstm_p.Cache
use dstm_p.Cache.ReadCell.{view, read_cell_returns}
use dstm_p.MemMgr.{object_lock_addr}
use dstm_p.Tx.State.{
  Entry, Entries, Config, State, pure, met, abort, increase_clock, read_cell, add_version,
}
use dstm_p.Tx.Validate.{check_entry, validate_set, validate_sets, validate}
use dstm_p.Tx.Access.{
  block_lb, accept_unlocked, accept, read_new, read_from, read_valid, read, enter, write_new,
  store_word, write_to, write_valid, write,
}
use dstm_p.Tx.Hidden.{met-quiet}
use dstm_p.Tx.Completes.{
  Completes, returned, left_by_abort, Completes-bind, Completes-if, check_entry-Completes,
}

module _ (cfg : Config) where
  validate_set-Completes : (v : ℕ) (es : Entries) (s : State) → Completes (validate_set cfg v es s)
  unfolding validate_set
  validate_set-Completes v [] s = returned
  validate_set-Completes v ((b, e) ∷ es) s =
      Completes-bind
        (Completes-if _ (check_entry cfg b e.ts) (pure true) s (check_entry-Completes cfg b e.ts s)
          returned)
        λ good s1.
          Completes-if good (validate_set cfg v es) (pure false) s1 (validate_set-Completes v es s1)
            returned

  validate-Completes : (v : ℕ) (s : State) → Completes (validate cfg v s)
  unfolding validate validate_sets
  validate-Completes v s =
      Completes-if _ (validate_sets cfg v s.tx) (pure true) s
        (Completes-bind (validate_set-Completes v s.tx.read_set s) λ reads s1.
          Completes-bind
            (Completes-if reads (validate_set cfg v s.tx.write_set) (pure false) s1
              (validate_set-Completes v s.tx.write_set s1) returned)
            λ writes s2. returned)
        returned

  module _ (calm : (t c : ℕ) → cfg.env_clock t c ≡ c) where
    pub clock_round :
        (fuel tries new c now : ℕ)
        → 0 < fuel
        → is_some (Clock.increase_clock cfg.gasnet cfg.env_clock fuel tries new c now) ≡ true
    unfolding Clock.increase_clock
    clock_round zero tries new c now lt = absurd (omega arith)
    clock_round (suc fuel) tries new c now lt =
        rw (calm now c, calm (now + 1) c)
          (ground (arith, cfg.gasnet.cas_law c c ((c + ((new + 2 ^ 64 - c) % 2 ^ 64)) % 2 ^ 64)))

    increase_clock-Completes : (v : ℕ) (s : State) → Completes (increase_clock cfg v s)
    unfolding increase_clock
    increase_clock-Completes v s =
        go (Clock.increase_clock cfg.gasnet cfg.env_clock (v + 1) 0 v s.world.clock s.world.now)
          refl
      where
        go :
            (o : Option (Clock.Ticked Bool))
            → Clock.increase_clock cfg.gasnet cfg.env_clock (v + 1) 0 v s.world.clock s.world.now
              ≡ o
            → Completes (increase_clock cfg v s)
        go none e =
            absurd (ground (arith, clock_round (v + 1) 0 v s.world.clock s.world.now (omega arith)))
        go (some r) e = rw (e, increase_clock) returned

    accept-Completes : (b v : ℕ) (s : State) → Completes (accept cfg b v s)
    unfolding accept accept_unlocked abort add_version
    accept-Completes b v s =
        Completes-if (is_locked v) (abort v) (accept_unlocked cfg v) _ left_by_abort (
          Completes-bind (increase_clock-Completes (version_ts v) _) λ _ s2.
            Completes-bind (validate-Completes v s2)
              λ good s3. Completes-if good (pure tt) (abort _) s3 returned left_by_abort)

    module _ (quiet : (t : ℕ) (m : Segments) → cfg.env t m ≡ m) (some_rounds : 0 < cfg.rounds) where
      read_cell-Completes : (a l : ℕ) (s : State) → Completes (read_cell cfg a l s)
      unfolding read_cell
      read_cell-Completes a l s = go _ refl
        where
          go :
              (o : Option Cache.CellRead)
              → Cache.read_cell cfg.gasnet
                  (λ t. met cfg s.world (t - s.world.now))
                  cfg.rounds
                  s.world.now
                  a
                  l
                  true
                ≡ o
              → Completes (read_cell cfg a l s)
          go none e = absurd (
              ground (
                arith,
                read_cell_returns cfg.gasnet (λ t. met cfg s.world (t - s.world.now)) a l cfg.rounds
                    s.world.now s.world.now true
                    (λ u le.
                      ap (λ (m : Segments). (view a l m).lock)
                        (met-quiet cfg s.world (u - s.world.now) quiet
                          ∙ sym (met-quiet cfg s.world (s.world.now - s.world.now) quiet)))
                    (omega arith) some_rounds,
              ))
          go (some r) e = rw (e, read_cell) returned

      read_from-Completes :
          (a : ℕ) (p q : Option Entry) (s : State) → Completes (read_from cfg a p q s)
      unfolding read_from read_new
      read_from-Completes a (some e) q s = returned
      read_from-Completes a none (some e) s = returned
      read_from-Completes a none none s =
          Completes-bind (read_cell-Completes a (object_lock_addr cfg.mgr a) _)
            λ r s1. Completes-bind (accept-Completes (block_lb a) r.version _) λ _ s2. returned

      enter-Completes : (a : ℕ) (p : Option Entry) (s : State) → Completes (enter cfg a p s)
      unfolding enter
      enter-Completes a none s =
          Completes-bind (read_cell-Completes a (object_lock_addr cfg.mgr a) s)
            λ r s1. accept-Completes (block_lb a) r.version _
      enter-Completes a (some e) s = returned

      write_to-Completes :
          (a v : ℕ) (p : Option Entry) (s : State) → Completes (write_to cfg a v p s)
      unfolding write_to write_new store_word
      write_to-Completes a v (some e) s = returned
      write_to-Completes a v none s = Completes-bind (enter-Completes a _ _) λ _ s1. returned

      pub read-Completes : (a : ℕ) (s : State) → Completes (read cfg a s)
      unfolding read read_valid abort
      read-Completes a s =
          Completes-if _ (abort _) (read_valid cfg a) s left_by_abort (read_from-Completes a _ _ s)

      pub write-Completes : (a v : ℕ) (s : State) → Completes (write cfg a v s)
      unfolding write write_valid abort
      write-Completes a v s =
          Completes-if _ (abort _) (write_valid cfg a v) s left_by_abort
            (write_to-Completes a v _ s)
