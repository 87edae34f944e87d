-- ===== src/Network.antt =====
-- What the program takes from GASNet: one-sided access to the memory segments of all nodes, and an
-- atomic compare-and-swap on local memory. The laws state the documented effect of each call.
use dstm_p.Common.{ℕ, ◌+◌, ◌-◌, ◌<◌, ◌≡◌, Bool, true, false, ◌&&◌, ltb, leb, ◌==◌, if◌then◌else◌}

-- The memory of each node: the 64-bit word at each byte address. All addresses that the code forms
-- are multiples of eight.
abbrev pub Segments : Type 0
Segments = ℕ → ℕ → ℕ

-- A run of bytes outside the segments, by offset.
abbrev pub Block : Type 0
Block = ℕ → ℕ

-- `nbytes` bytes of `b` copied to address `a` of node `n`.
abbrev pub copy_to : Segments → ℕ → ℕ → Block → ℕ → Segments
copy_to s n a b nbytes m x = if m == n && (leb a x && ltb x (a + nbytes)) then b (x - a) else s m x

-- `*(uint64_t*)a = v` on node `n`.
abbrev pub store : Segments → ℕ → ℕ → ℕ → Segments
store s n a v = copy_to s n a (λ _. v) 8

pub record Gasnet : Type 0 where
  -- gasnet_mynode()
  pub mynode : ℕ
  -- gasnet_get(dst, node, src, nbytes): the bytes that land at `dst`
  pub get : Segments → ℕ → ℕ → ℕ → Block
  pub get_law :
      (s : Segments) (node src nbytes o : ℕ)
      → o < nbytes
      → get s node src nbytes o ≡ s node (src + o)
  -- gasnet_put(node, dst, src, nbytes)
  pub put : Segments → ℕ → ℕ → Block → ℕ → Segments
  pub put_law :
      (s : Segments) (node dst : ℕ) (src : Block) (nbytes : ℕ)
      → put s node dst src nbytes ≡ copy_to s node dst src nbytes
  -- gasnett_atomic64_compare_and_swap(p, old, new): whether it swapped, and the word at `p` after it,
  -- given the word at `p` when it runs
  pub cas : ℕ → ℕ → ℕ → Bool × ℕ
  pub cas_law :
      (word old new : ℕ) → cas word old new ≡ (if word == old then (true, new) else (false, word))

-- One instance, which does what the laws say: the parameter can be met.
abbrev pub flat : ℕ → Gasnet
flat me = record {
  mynode = me;
  get = λ s n a k o. s n (a + o);
  get_law = λ s n a k o h. mathlib.Core.Path.refl;
  put = copy_to;
  put_law = λ s n a b k. mathlib.Core.Path.refl;
  cas = λ word old new. if word == old then (true, new) else (false, word);
  cas_law = λ word old new. mathlib.Core.Path.refl;
}
