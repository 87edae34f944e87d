-- ===== src/Common/Dict.antt =====
-- `boost::unordered_map<uintptr_t, V>`: an association list. The iteration order of the real map is
-- unspecified; here it is the order of the list, and no theorem assumes anything of that order.
use Prim.Native.Nat.{ℕ}
use mathlib.Core.Path.{◌≡◌, refl}
use mathlib.Core.Bool.{Bool, true, false}
use mathlib.Core.Option.{Option, none, some}
use mathlib.Core.Logic.{inl, inr}
use mathlib.Core.List.{List, [], ◌∷◌}
use native.Mathlib.Omega.{arith}
use dstm_p.Common.Tests.{◌==◌, if◌then◌else◌, Bool-cases}
use dstm_p.Common.Lists.{All}

abbrev pub is_some {ℓ} : {A : Type ℓ} → Option A → Bool
is_some none = false
is_some (some x) = true

module _ {ℓ} {V : Type ℓ} where
  -- `m.find(k)`
  unfoldable pub find : ℕ → List (ℕ × V) → Option V
  find k [] = none
  find k ((j, v) ∷ m) = let rest = find k m in if j == k then some v else rest

  -- `m[k] = v`
  unfoldable pub insert : ℕ → V → List (ℕ × V) → List (ℕ × V)
  insert k v [] = (k, v) ∷ []
  insert k v ((j, w) ∷ m) = let rest = insert k v m in if j == k then (k, v) ∷ m else (j, w) ∷ rest

  -- `m.erase(k)`
  unfoldable pub erase : ℕ → List (ℕ × V) → List (ℕ × V)
  erase k [] = []
  erase k ((j, w) ∷ m) = let rest = erase k m in if j == k then rest else (j, w) ∷ rest

  pub find-insert :
      (k j : ℕ) (v : V) (m : List (ℕ × V))
      → find j (insert k v m) ≡ (if k == j then some v else find j m)
  unfolding find insert
  find-insert k j v [] = refl
  find-insert k j v ((i, w) ∷ m) = ground (arith, find-insert k j v m)

  pub find-insert_self : (k : ℕ) (v : V) (m : List (ℕ × V)) → find k (insert k v m) ≡ some v
  find-insert_self k v m = ground (arith, find-insert k k v m)

  pub insert-insert :
      (k : ℕ) (v w : V) (m : List (ℕ × V)) → insert k w (insert k v m) ≡ insert k w m
  unfolding insert
  insert-insert k v w [] = ground arith
  insert-insert k v w ((i, u) ∷ m) = ground (arith, insert-insert k v w m)

  pub find-erase :
      (k j : ℕ) (m : List (ℕ × V)) → find j (erase k m) ≡ (if k == j then none else find j m)
  unfolding find erase
  find-erase k j [] = ground arith
  find-erase k j ((i, w) ∷ m) = ground (arith, find-erase k j m)

  module _ {κ} (P : ℕ × V → Type κ) where
    pub All-insert : (k : ℕ) (v : V) (m : List (ℕ × V)) → All P m → P (k, v) → All P (insert k v m)
    unfolding insert
    All-insert k v [] h p = (p, tt)
    All-insert k v ((j, w) ∷ m) h p = elim (Bool-cases (j == k)) [
      | inl e ↦ rw e (p, h.1)
      | inr e ↦ rw e (h.0, All-insert k v m h.1 p)
    ]

    pub All-erase : (k : ℕ) (m : List (ℕ × V)) → All P m → All P (erase k m)
    unfolding erase
    All-erase k [] h = tt
    All-erase k ((j, w) ∷ m) h = elim (Bool-cases (j == k)) [
      | inl e ↦ rw e (All-erase k m h.1)
      | inr e ↦ rw e (h.0, All-erase k m h.1)
    ]

    -- What holds of all entries holds of the one that is found.
    pub All-find : (k : ℕ) {v : V} (m : List (ℕ × V)) → All P m → find k m ≡ some v → P (k, v)
    unfolding find
    All-find k [] h e = cc
    All-find k {v} ((j, w) ∷ m) h e = elim (Bool-cases (j == k)) [
      | inl q ↦
          let same : j ≡ k = ground arith in
          let val : w ≡ v = ground arith in rw (← same, ← val) h.0
      | inr q ↦ All-find k m h.1 (ground arith)
    ]
