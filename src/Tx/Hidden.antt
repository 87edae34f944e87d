-- ===== src/Tx/Hidden.antt =====
-- Nobody else sees what a transaction reads and writes before it commits.
use dstm_p.Common.{ℕ, zero, suc, ◌≡◌, refl, ◌∙◌, Option, none, some, ◌==◌, find, insert}
use dstm_p.Timestamp.{is_locked, version_ts}
use dstm_p.Network.{Segments}
use dstm_p.Tx.State.{Entry, Entries, World, Config, State, pure, met, abort}
use dstm_p.Tx.Access.{
  block_lb, filled, accept_unlocked, accept, read_new, read_from, read_valid, read, enter,
  write_new, store_word, write_to, write_valid, write,
}
use dstm_p.Tx.Frame.{
  Ends, returns, Ends-bind, Ends-if, Stable, abort-Ends, Gone, add_version-Ends,
  increase_clock-Ends, validate-Ends, read_cell-Ends,
}

module _ (cfg : Config) {P Q : State → Type 0} (st : Stable cfg P) (gone : Gone P Q) where
  pub accept-Ends : (b v : ℕ) (s : State) → P s → Ends P Q (accept cfg b v s)
  unfolding accept accept_unlocked
  accept-Ends b v s h = Ends-bind (add_version-Ends cfg st b v s h) λ _ s1 h1.
      Ends-if (is_locked v) (abort v) (accept_unlocked cfg v) s1 (abort-Ends gone v s1 h1) (
        Ends-bind (increase_clock-Ends cfg st (version_ts v) s1 h1) λ _ s2 h2.
          Ends-bind (validate-Ends cfg st v s2 h2) λ good s3 h3.
            Ends-if good (pure tt) (abort _) s3 (returns h3) (abort-Ends gone _ s3 h3))

-- The sets are these; an abort may do as it likes.
abbrev pub Sets : Entries → Entries → State → Type 0
Sets rs ws s = (s.tx.read_set ≡ rs) × (s.tx.write_set ≡ ws)

pub Sets-Stable : (cfg : Config) (rs ws : Entries) → Stable cfg (Sets rs ws)
Sets-Stable cfg rs ws = record {
  moved = λ s k n h. h;
  cached = λ s vs h. h;
  clocked = λ s c n h. h;
  validated = λ s f h. h;
}

-- Memory is `m`, where the others leave it alone.
abbrev Memory : Segments → State → Type 0
Memory m s = s.world.seg ≡ m

pub met-quiet :
    (cfg : Config) (w : World) (k : ℕ)
    → ((t : ℕ) (m : Segments) → cfg.env t m ≡ m)
    → met cfg w k ≡ w.seg
met-quiet cfg w zero quiet = quiet _ _
met-quiet cfg w (suc k) quiet = quiet _ _ ∙ met-quiet cfg w k quiet

pub Memory-Stable :
    (cfg : Config) (m : Segments)
    → ((t : ℕ) (m : Segments) → cfg.env t m ≡ m)
    → Stable cfg (Memory m)
Memory-Stable cfg m quiet = record {
  moved = λ s k n h. met-quiet cfg s.world k quiet ∙ h;
  cached = λ s vs h. h;
  clocked = λ s c n h. h;
  validated = λ s f h. h;
}

module _ (cfg : Config) (quiet : (t : ℕ) (m : Segments) → cfg.env t m ≡ m) (m : Segments) where
  read_new_hidden :
      (addr : ℕ) (s : State) → Memory m s → Ends (Memory m) (Memory m) (read_new cfg addr s)
  unfolding read_new
  read_new_hidden addr s h =
      Ends-bind
        (read_cell-Ends cfg (Memory-Stable cfg m quiet) addr _
          (record s {
            tx = record (s.tx) { read_set = insert (block_lb addr) cfg.fresh (s.tx).read_set };
          })
          h)
        λ r s1 h1.
          Ends-bind
            (accept-Ends cfg (Memory-Stable cfg m quiet) (λ s c h. h) (block_lb addr) r.version
              (record s1 {
                tx = record (s1.tx) {
                  read_set = insert (block_lb addr) (filled cfg r) (s1.tx).read_set;
                };
              })
              h1)
            λ _ s2 h2. returns h2

  read_from_hidden :
      (addr : ℕ) (o p : Option Entry) (s : State)
      → Memory m s
      → Ends (Memory m) (Memory m) (read_from cfg addr o p s)
  unfolding read_from
  read_from_hidden addr (some e) p s h = returns h
  read_from_hidden addr none (some e) s h = returns h
  read_from_hidden addr none none s h = read_new_hidden addr s h

  enter_hidden :
      (addr : ℕ) (o : Option Entry) (s : State)
      → Memory m s
      → Ends (Memory m) (Memory m) (enter cfg addr o s)
  unfolding enter
  enter_hidden addr (some e) s h = returns h
  enter_hidden addr none s h =
      Ends-bind (read_cell-Ends cfg (Memory-Stable cfg m quiet) addr _ s h) λ r s1 h1.
        accept-Ends cfg (Memory-Stable cfg m quiet) (λ s c h. h) (block_lb addr) r.version
          (record s1 {
            tx = record (s1.tx) {
              write_set = insert (block_lb addr) (filled cfg r) (s1.tx).write_set;
            };
          })
          h1

  write_to_hidden :
      (addr v : ℕ) (o : Option Entry) (s : State)
      → Memory m s
      → Ends (Memory m) (Memory m) (write_to cfg addr v o s)
  unfolding write_to write_new store_word
  write_to_hidden addr v (some e) s h = returns h
  write_to_hidden addr v none s h =
      Ends-bind {k = λ _. store_word addr v}
        (enter_hidden addr (find (block_lb addr) s.tx.read_set)
          (record s {
            tx = record (s.tx) { write_set = insert (block_lb addr) cfg.fresh (s.tx).write_set };
          })
          h)
        λ _ s1 h1. returns h1

-- While others leave memory alone, a read and a write leave it alone too, however they end: a
-- transaction's writes stay in its write set.
pub access_hidden :
    (cfg : Config) (addr v : ℕ) (s : State)
    → ((t : ℕ) (m : Segments) → cfg.env t m ≡ m)
    → Ends (Memory s.world.seg) (Memory s.world.seg) (read cfg addr s)
      × Ends (Memory s.world.seg) (Memory s.world.seg) (write cfg addr v s)
unfolding read read_valid write write_valid
access_hidden cfg addr v s quiet = (
  Ends-if (addr == 0) (abort _) (read_valid cfg addr) s (abort-Ends (λ s c h. h) _ s refl)
      (read_from_hidden cfg quiet _ addr _ _ s refl),
  Ends-if (addr == 0) (abort _) (write_valid cfg addr v) s (abort-Ends (λ s c h. h) _ s refl)
      (write_to_hidden cfg quiet _ addr v _ s refl),
)
