-- ===== src/Interface/Blocks.antt =====
-- Blocks put together from smaller ones, and what they do to plain memory that is a function of the
-- global address.
use dstm_p.Common.{ℕ, ◌^◌, ◌<◌, ◌≡◌, refl, ◌≢◌, sym, subst, ◌&&◌, List, ◌==◌, if◌then◌else◌, arith}
use dstm_p.Timestamp.{node_from_address, addr_from_address}
use dstm_p.Network.{Segments}
use dstm_p.Tx.Sim.{IsWord, word, set_memory}
use dstm_p.Interface.Serial.{exec, IsSafe}
use dstm_p.Interface.{Body, result, loads, stores}

infixl 5 ◌>>=◌ ◌>>◌
abbrev pub ◌>>=◌ : {A B : Type 0} → Body A → (A → Body B) → Body B
result a >>= k = k a
loads addr f >>= k = loads addr λ v. f v >>= k
stores addr value b >>= k = stores addr value (b >>= k)

abbrev pub ◌>>◌ : {A B : Type 0} → Body A → Body B → Body B
b >> c = b >>= λ _. c

-- LOAD and STORE of a word.
abbrev pub load : ℕ → Body ℕ
load addr = loads addr λ v. result v

abbrev pub store : ℕ → ℕ → Body (Unit {0})
store addr value = stores addr value (result tt)

-- Memory by global address, and a write to it.
abbrev pub Plain : Type 0
Plain = ℕ → ℕ

abbrev pub update : Plain → ℕ → ℕ → Plain
update h a v = λ x. if x == a then v else h x

pub update-ne : (h : Plain) (a v x : ℕ) → a ≢ x → update h a v x ≡ h x
update-ne h a v x d = ground arith

pub update_self : (h : Plain) (a v : ℕ) → update h a v a ≡ v
update_self h a v = ground arith

-- Run on the memory `h`, the block accesses addresses with `P` alone and ends with `Q`.
abbrev pub Ensures : {A : Type 0} → (ℕ → Type 0) → (A → Plain → Type 0) → Body A → Plain → Type 0
Ensures P Q (result a) h = Q a h
Ensures P Q (loads addr k) h = P addr × Ensures P Q (k (h addr)) h
Ensures P Q (stores addr value b) h = P addr × Ensures P Q b (update h addr value)

module _ {A : Type 0} (P : ℕ → Type 0) (Q : A → Plain → Type 0) where
  pub Ensures-bind :
      {B : Type 0} (R : B → Plain → Type 0) (b : Body A) (k : A → Body B) (h : Plain)
      → Ensures P Q b h
      → ((a : A) (h1 : Plain) → Q a h1 → Ensures P R (k a) h1)
      → Ensures P R (b >>= k) h
  Ensures-bind R (result a) k h e next = next a h e
  Ensures-bind R (loads addr f) k h e next = (e.0, Ensures-bind R (f (h addr)) k h e.1 next)
  Ensures-bind R (stores addr value b) k h e next =
      (e.0, Ensures-bind R b k (update h addr value) e.1 next)

  pub Ensures-weaken :
      (R : A → Plain → Type 0) (b : Body A) (h : Plain)
      → Ensures P Q b h
      → ((a : A) (h1 : Plain) → Q a h1 → R a h1)
      → Ensures P R b h
  Ensures-weaken R (result a) h e f = f a h e
  Ensures-weaken R (loads addr k) h e f = (e.0, Ensures-weaken R (k (h addr)) h e.1 f)
  Ensures-weaken R (stores addr value b) h e f =
      (e.0, Ensures-weaken R b (update h addr value) e.1 f)

-- The words of objects are in `m` as in `h`.
abbrev pub Agrees : List ℕ → Segments → Plain → Type 0
Agrees segs m h = (a : ℕ) → IsWord segs a → word m a ≡ h a

same_place :
    (segs : List ℕ) (a b : ℕ)
    → IsWord segs a
    → IsWord segs b
    → (node_from_address a == node_from_address b && addr_from_address a == addr_from_address b)
      ≡ (a == b)
same_place segs a b ia ib =
    let la : a < 2 ^ 63 = omega (arith, ia.object.unlocked) in
    let lb : b < 2 ^ 63 = omega (arith, ib.object.unlocked) in ground (arith, la, lb)

Agrees-store :
    (segs : List ℕ) (m : Segments) (h : Plain) (a v : ℕ)
    → IsWord segs a
    → Agrees segs m h
    → Agrees segs (set_memory m a v) (update h a v)
Agrees-store segs m h a v ia same b ib = rw (same_place segs b a ib ia, same b ib) refl

-- A block that is right on plain memory is safe, and right on the memory of the nodes.
pub exec-Ensures :
    {A : Type 0} (Q : A → Plain → Type 0) (segs : List ℕ) (b : Body A) (m : Segments) (h : Plain)
    → Agrees segs m h
    → Ensures (IsWord segs) Q b h
    → IsSafe segs b m × ((h1 : Plain) × Q (exec b m).0 h1 × Agrees segs (exec b m).1 h1)
exec-Ensures Q segs (result a) m h same e = (tt, (h, e, same))
exec-Ensures Q segs (loads addr k) m h same e =
    let at : Ensures (IsWord segs) Q (k (word m addr)) h =
      subst (λ v. Ensures (IsWord segs) Q (k v) h) (sym (same addr e.0)) e.1 in
    let (safe, r) = exec-Ensures Q segs (k (word m addr)) m h same at in ((e.0, safe), r)
exec-Ensures Q segs (stores addr value b) m h same e =
    let (safe, r) =
      exec-Ensures Q segs b (set_memory m addr value) (update h addr value)
        (Agrees-store segs m h addr value e.0 same) e.1 in
    ((e.0, safe), r)
