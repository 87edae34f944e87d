-- ===== src/Cache/ReadCell.antt =====
-- `readCell`: it ends, and what it copies is one committed state of the object.
use dstm_p.Common.{
  ℕ, zero, suc, ◌+◌, ◌-◌, ◌*◌, ◌/◌, ◌^◌, ◌≤◌, ◌<◌, ◌≡◌, sym, ◌∙◌, ap, inl, inr, Bool, true, false,
  some, ltb, if◌then◌else◌, arith, Bool-cases, is_some,
}
use dstm_p.Timestamp.{
  node_from_address, addr_from_address, version_ts, is_locked, is_timestamps_equivalent,
}
use dstm_p.Network.{Segments, Block, Gasnet}
use dstm_p.MemMgr.{cdu_size}
use dstm_p.Cache.{CellRead, low_bound, fetch, copy_cell, read_cell}
use dstm_p.Cache.Snapshot.{Object, Phase, History, unchanged}

-- The object that holds address `addr`, with the lock at `lock_addr`, in a memory.
abbrev pub view : ℕ → ℕ → Segments → Object
view addr lock_addr s = record {
  lock = s (node_from_address addr) (addr_from_address lock_addr);
  cell = λ o. if ltb o (2 ^ cdu_size) then s (node_from_address addr) (low_bound addr + o) else 0;
}

-- `r` is an unlocked version and the contents that the object had at some moment `T` under it, with
-- the word at `addr` as its value.
pub record IsState (hist : ℕ → Segments) (addr lock_addr : ℕ) (r : CellRead) : Type 0 where
  pub moment : ℕ
  pub block : Block
  pub copied : r.copied ≡ some block
  pub version : (view addr lock_addr (hist moment)).lock ≡ r.version
  pub contents : (o : ℕ) → o < 2 ^ cdu_size → block o ≡ (view addr lock_addr (hist moment)).cell o
  pub value : r.value ≡ block (addr_from_address addr - low_bound addr)

module _ (g : Gasnet) where
  pub fetch_lem :
      (s : Segments) (node a nbytes o : ℕ) → o < nbytes → fetch g s node a nbytes o ≡ s node (a + o)
  unfolding fetch
  fetch_lem s node a nbytes o h = ground (arith, g.get_law s node a nbytes o)

  pub fetch-word : (s : Segments) (node a : ℕ) → fetch g s node a 8 0 ≡ s node a
  fetch-word s node a = fetch_lem s node a 8 0 (omega arith) ∙ ap (s node) (omega arith)

some-eq : (a b : CellRead) → some a ≡ some b → a ≡ b
some-eq a b h = cc

equivalent-version : (a b : ℕ) → is_timestamps_equivalent a b ≡ true → version_ts b ≡ version_ts a
unfolding is_timestamps_equivalent
equivalent-version a b h = ground arith

module _ (g : Gasnet) (hist : ℕ → Segments) (addr lock_addr : ℕ) where
  abbrev obj : ℕ → Object
  obj t = view addr lock_addr (hist t)

  view-cell :
      (t o : ℕ)
      → o < 2 ^ cdu_size
      → (obj t).cell o ≡ hist t (node_from_address addr) (low_bound addr + o)
  view-cell t o h = ground arith

  -- The words that a round copies are those of the moment at which it began.
  copy-cell :
      {phase : ℕ → Phase} (h : History obj phase) (t : ℕ)
      → is_locked (obj t).lock ≡ false
      → is_locked (obj (t + 9)).lock ≡ false
      → version_ts (obj (t + 9)).lock ≡ version_ts (obj t).lock
      → (o : ℕ) → o < 2 ^ cdu_size
      → copy_cell g hist (t + 1) addr o ≡ (obj t).cell o
  unfolding copy_cell
  copy-cell h t free free' v o lt =
      fetch_lem g (hist (t + 1 + o / 8)) (node_from_address addr) (low_bound addr) (2 ^ cdu_size) o
        lt
      ∙ sym (view-cell (t + 1 + o / 8) o lt)
      ∙ ap (λ (c : Block). c o)
          (unchanged h t (t + 1 + o / 8) (t + 9) (omega arith) (omega arith) free free' v)

  round-IsState :
      {phase : ℕ → Phase} (h : History obj phase) (t n : ℕ) (r : CellRead)
      → is_locked (fetch g (hist t) (node_from_address addr) (addr_from_address lock_addr) 8 0)
        ≡ false
      → is_locked
          (fetch g (hist (t + 9)) (node_from_address addr) (addr_from_address lock_addr) 8 0)
        ≡ false
      → is_timestamps_equivalent
          (fetch g (hist t) (node_from_address addr) (addr_from_address lock_addr) 8 0)
          (fetch g (hist (t + 9)) (node_from_address addr) (addr_from_address lock_addr) 8 0)
        ≡ true
      → record {
        version = fetch g (hist t) (node_from_address addr) (addr_from_address lock_addr) 8 0;
        value = copy_cell g hist (t + 1) addr (addr_from_address addr - low_bound addr);
        copied = some (copy_cell g hist (t + 1) addr);
        now = n;
      }
        ≡ r
      → IsState hist addr lock_addr r
  round-IsState h t n r f1 f2 q e = record {
    moment = t;
    block = copy_cell g hist (t + 1) addr;
    copied = sym (ap (λ (x : CellRead). x.copied) e);
    version = sym (word t) ∙ ap (λ (x : CellRead). x.version) e;
    contents =
        copy-cell h t (rw (word t) at f1) (rw (word (t + 9)) at f2)
          (rw (word t, word (t + 9)) at (equivalent-version _ _ q));
    value = sym (ap (λ (x : CellRead). x.value) e);
  }
    where
      word :
          (u : ℕ)
          → fetch g (hist u) (node_from_address addr) (addr_from_address lock_addr) 8 0
            ≡ (obj u).lock
      word u = fetch-word g (hist u) (node_from_address addr) (addr_from_address lock_addr)

  -- Whatever other nodes do by the commit protocol while it runs, but for a grant of the lock for a
  -- version older than the object's, a `readCell` with a copy that returns an unlocked version returns a version, contents and value that the object had at one moment.
  pub read_cell-IsState :
      {phase : ℕ → Phase} (h : History obj phase) (fuel t : ℕ) (r : CellRead)
      → read_cell g hist fuel t addr lock_addr true ≡ some r
      → is_locked r.version ≡ false
      → IsState hist addr lock_addr r
  unfolding read_cell
  read_cell-IsState h zero t r e free = cc
  read_cell-IsState h (suc fuel) t r e free = elim (Bool-cases (is_locked v1)) [
    | inl l1 ↦ ground arith
    | inr f1 ↦ elim (Bool-cases (is_locked v2)) [
      | inl l2 ↦ ground arith
      | inr f2 ↦ elim (Bool-cases (is_timestamps_equivalent v1 v2)) [
        | inl q ↦ round-IsState h t (t + 10) r f1 f2 q (some-eq _ r (rw (f1, f2, q) at e))
        | inr q ↦ read_cell-IsState h fuel (t + 10) r (rw (f1, f2, q) at e) free
      ]
    ]
  ]
    where
      v1 : ℕ
      v1 = fetch g (hist t) (node_from_address addr) (addr_from_address lock_addr) 8 0

      v2 : ℕ
      v2 = fetch g (hist (t + 9)) (node_from_address addr) (addr_from_address lock_addr) 8 0

  -- An unlocked version comes with a copy, and the value is the word of the copy at the address.
  pub read_cell_copied :
      (fuel t : ℕ) (r : CellRead)
      → read_cell g hist fuel t addr lock_addr true ≡ some r
      → is_locked r.version ≡ false
      → (b : Block) × (r.copied ≡ some b) × (r.value ≡ b (addr_from_address addr - low_bound addr))
  unfolding read_cell
  read_cell_copied zero t r e free = cc
  read_cell_copied (suc fuel) t r e free = elim (Bool-cases (is_locked v1)) [
    | inl l1 ↦ ground arith
    | inr f1 ↦ elim (Bool-cases (is_locked v2)) [
      | inl l2 ↦ ground arith
      | inr f2 ↦ elim (Bool-cases (is_timestamps_equivalent v1 v2)) [
        | inl q ↦
            let same = some-eq _ r (rw (f1, f2, q) at e) in
            (
              copy_cell g hist (t + 1) addr,
              sym (ap (λ (x : CellRead). x.copied) same),
              sym (ap (λ (x : CellRead). x.value) same),
            )
        | inr q ↦ read_cell_copied fuel (t + 10) r (rw (f1, f2, q) at e) free
      ]
    ]
  ]
    where
      v1 : ℕ
      v1 = fetch g (hist t) (node_from_address addr) (addr_from_address lock_addr) 8 0

      v2 : ℕ
      v2 = fetch g (hist (t + 9)) (node_from_address addr) (addr_from_address lock_addr) 8 0

  -- `readCell` returns when from some access on, which its rounds pass by a round, the lock word stands
  -- still, whether it is found locked or not.
  pub read_cell_returns :
      (fuel t quiet_from : ℕ) (copy : Bool)
      → ((u : ℕ) → quiet_from ≤ u → (obj u).lock ≡ (obj quiet_from).lock)
      → quiet_from + 10 ≤ t + 10 * fuel
      → 0 < fuel
      → is_some (read_cell g hist fuel t addr lock_addr copy) ≡ true
  unfolding read_cell is_timestamps_equivalent
  read_cell_returns zero t quiet_from copy quiet enough some_fuel = absurd (omega arith)
  read_cell_returns (suc fuel) t quiet_from copy quiet enough some_fuel = ground (
    arith,
    quiet t,
    quiet (t + 9),
    fetch-word g (hist t) (node_from_address addr) (addr_from_address lock_addr),
    fetch-word g (hist (t + 9)) (node_from_address addr) (addr_from_address lock_addr),
    read_cell_returns fuel (t + 10) quiet_from copy quiet,
  )
