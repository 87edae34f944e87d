-- ===== src/Tx/Sim.antt =====
-- A transaction beside a memory that its writes go to at once.
use dstm_p.Common.{
  ℕ, ◌+◌, ◌-◌, ◌%◌, ◌^◌, ◌<◌, ◌≡◌, refl, ◌∙◌, false, ◌&&◌, none, some, List, [], ◌∷◌, ◌==◌,
  if◌then◌else◌, arith, Bool-cases, inl, inr, All-insert, find, insert, erase, find-insert,
  find-erase,
}
use dstm_p.Timestamp.{node_from_address, addr_from_address}
use dstm_p.Network.{Segments}
use dstm_p.MemMgr.{cdu_size}
use dstm_p.Cache.{low_bound}
use dstm_p.Tx.State.{Entry, Entries}
use dstm_p.Tx.Access.{block_lb, word_at, set_word, stored}
use dstm_p.Tx.Placed.{IsObject, Distinct, word_of}
use dstm_p.Tx.Requests.{AllObjects}

-- The address of a word of an object.
pub record IsWord (segs : List ℕ) (a : ℕ) : Type 0 where
  pub object : IsObject segs (block_lb a)
  pub aligned : a % 8 ≡ 0

-- The word at a global address, and memory after a write of it.
abbrev pub word : Segments → ℕ → ℕ
word m a = m (node_from_address a) (addr_from_address a)

abbrev pub set_memory : Segments → ℕ → ℕ → Segments
set_memory m a v n x = if n == node_from_address a && x == addr_from_address a then v else m n x

abbrev pub offset : ℕ → ℕ
offset a = addr_from_address (a - block_lb a)

-- In the memory `m`, with the sets `rs` and `ws`, the transaction's view is the memory `m'`.
pub record Sim (segs : List ℕ) (m m' : Segments) (rs ws : Entries) : Type 0 where
  pub objects : AllObjects segs ws
  pub distinct : Distinct ws
  pub reads :
      (b o : ℕ) (e : Entry)
      → find b rs ≡ some e
      → o < 2 ^ cdu_size
      → e.cell o ≡ m (node_from_address b) (addr_from_address b + o)
  pub overlay :
      (b o : ℕ)
      → IsObject segs b
      → o < 2 ^ cdu_size
      → word_of (find b ws) o (m (node_from_address b) (addr_from_address b + o))
        ≡ m' (node_from_address b) (addr_from_address b + o)

pub word-block :
    (segs : List ℕ) (a : ℕ)
    → IsWord segs a
    → (offset a < 2 ^ cdu_size)
      × (node_from_address (block_lb a) ≡ node_from_address a)
      × (addr_from_address (block_lb a) + offset a ≡ addr_from_address a)
      × (low_bound a ≡ addr_from_address (block_lb a))
      × (addr_from_address a - low_bound a ≡ offset a)
word-block segs a ia = omega arith

Distinct-insert : (b : ℕ) (e : Entry) (ws : Entries) → Distinct ws → Distinct (insert b e ws)
unfolding insert find
Distinct-insert b e [] d = (refl, tt)
Distinct-insert b e ((j, w) ∷ ws) d = elim (Bool-cases (j == b)) [
  | inl q ↦ let same : j ≡ b = ground arith in rw q (rw (← same) d.0, d.1)
  | inr q ↦ rw q (find-insert b j e ws ∙ ground (arith, d.0), Distinct-insert b e ws d.1)
]

module _ (segs : List ℕ) (m m' : Segments) (rs ws : Entries) (sim : Sim segs m m' rs ws) where
  -- An entry of the write set, or else of the read set, has the word of the view.
  pub written-word :
      (a : ℕ) (e : Entry)
      → IsWord segs a
      → find (block_lb a) ws ≡ some e
      → word_at a e.cell ≡ word m' a
  written-word a e ia found =
      let (lt, node, addr, _, _) = word-block segs a ia in
      let seen = sim.overlay (block_lb a) (offset a) ia.object lt in
      (rw (found, node, addr) at seen)

  pub unwritten :
      (b o : ℕ)
      → IsObject segs b
      → o < 2 ^ cdu_size
      → find b ws ≡ none
      → m (node_from_address b) (addr_from_address b + o)
        ≡ m' (node_from_address b) (addr_from_address b + o)
  unwritten b o ib lt absent = rw absent at (sim.overlay b o ib lt)

  pub read-word :
      (a : ℕ) (e : Entry)
      → IsWord segs a
      → find (block_lb a) ws ≡ none
      → find (block_lb a) rs ≡ some e
      → word_at a e.cell ≡ word m' a
  read-word a e ia absent found =
      let (lt, node, addr, _, _) = word-block segs a ia in
      rw (node, addr) at
        (sim.reads (block_lb a) (offset a) e found lt
          ∙ unwritten (block_lb a) (offset a) ia.object lt absent)

  -- A first read adds an entry with the object as it is in memory.
  pub Sim-read :
      (b : ℕ) (e f : Entry)
      → ((o : ℕ) → o < 2 ^ cdu_size → e.cell o ≡ m (node_from_address b) (addr_from_address b + o))
      → Sim segs m m' (insert b e (insert b f rs)) ws
  Sim-read b e f copy = record {
    objects = sim.objects;
    distinct = sim.distinct;
    reads = λ c o g found lt. elim (Bool-cases (b == c)) [
      | inl q ↦
          let same : b ≡ c = ground arith in
          let entry : e ≡ g = ground (arith, find-insert b c e (insert b f rs)) in
          rw (← same, ← entry) (copy o lt)
      | inr q ↦
          sim.reads c o g (ground (arith, find-insert b c e (insert b f rs), find-insert b c f rs))
            lt
    ];
    overlay = sim.overlay;
  }

  -- A first write adds an entry with the object as it is in memory.
  pub Sim-enter :
      (b : ℕ) (e f : Entry)
      → IsObject segs b
      → find b ws ≡ none
      → ((o : ℕ) → o < 2 ^ cdu_size → e.cell o ≡ m (node_from_address b) (addr_from_address b + o))
      → Sim segs m m' rs (insert b e (insert b f ws))
  Sim-enter b e f ib absent copy = record {
    objects =
        All-insert (λ (p : ℕ × Entry). IsObject segs p.0) b e (insert b f ws)
          (All-insert (λ (p : ℕ × Entry). IsObject segs p.0) b f ws sim.objects ib) ib;
    distinct = Distinct-insert b e (insert b f ws) (Distinct-insert b f ws sim.distinct);
    reads = sim.reads;
    overlay = λ c o ic lt. elim (Bool-cases (b == c)) [
      | inl q ↦
          let same : b ≡ c = ground arith in
          rw (find-insert b c e (insert b f ws), q, ← same) (copy o lt ∙ unwritten b o ib lt absent)
      | inr q ↦
          rw (find-insert b c e (insert b f ws), q, find-insert b c f ws, q) (sim.overlay c o ic lt)
    ];
  }

  -- The entry is no longer in the read set.
  pub Sim-erase : (b : ℕ) → Sim segs m m' (erase b rs) ws
  Sim-erase b = record {
    objects = sim.objects;
    distinct = sim.distinct;
    reads = λ c o f found lt. sim.reads c o f (ground (arith, find-erase b c rs)) lt;
    overlay = sim.overlay;
  }

  -- A word is written in the entry of its object.
  pub Sim-store :
      (a v : ℕ) (e : Entry)
      → IsWord segs a
      → find (block_lb a) ws ≡ some e
      → Sim segs m (set_memory m' a v) rs (stored a v (find (block_lb a) ws) ws)
  Sim-store a v e ia found =
      let b = block_lb a in
      let (lt0, node, addr, _, _) = word-block segs a ia in
      rw found (record {
        objects =
            All-insert (λ (p : ℕ × Entry). IsObject segs p.0) b (set_word a v e) ws sim.objects
              ia.object;
        distinct = Distinct-insert b (set_word a v e) ws sim.distinct;
        reads = sim.reads;
        overlay = λ c o ic lt. elim (Bool-cases (b == c)) [
          | inl q ↦
              let same : b ≡ c = ground arith in
              let old = sim.overlay b o ia.object lt in
              rw (find-insert b c (set_word a v e) ws, q, ← same, node)
                (ground (arith, addr, rw (found, node) at old))
          | inr q ↦
              rw (find-insert b c (set_word a v e) ws, q)
                (sim.overlay c o ic lt
                  ∙ other (node_from_address c) (addr_from_address c + o)
                      (ground (arith, apart c o ic lt q lt0 node addr)))
        ];
      })
    where
      other :
          (n x : ℕ)
          → (n == node_from_address a && x == addr_from_address a) ≡ false
          → m' n x ≡ set_memory m' a v n x
      other n x h = rw h

      apart :
          (c o : ℕ)
          → IsObject segs c
          → o < 2 ^ cdu_size
          → (block_lb a == c) ≡ false
          → offset a < 2 ^ cdu_size
          → node_from_address (block_lb a) ≡ node_from_address a
          → addr_from_address (block_lb a) + offset a ≡ addr_from_address a
          → (node_from_address c == node_from_address a
              && addr_from_address c + o == addr_from_address a)
            ≡ false
      apart c o ic lt q lt0 node addr =
          ground (arith, ic.unlocked, ic.aligned, ia.object.unlocked, ia.object.aligned)
