-- ===== src/Cache/Table.antt =====
-- The table of versions that a node has seen.
use dstm_p.Common.{
  ℕ, ◌≤◌, ◌≡◌, false, Option, none, some, ◌==◌, find, insert, find-insert, All, All-insert, arith,
  Bool-cases, Option-cases, inl, inr,
}
use dstm_p.Timestamp.{version_ts, is_locked, is_timestamp_greater}
use dstm_p.Cache.{Versions, add_version_to_cache, get_cached_version}

-- No version of the table is locked.
abbrev pub Unlocked : Versions → Type 0
Unlocked = All (λ (p : ℕ × ℕ). is_locked p.1 ≡ false)

grown :
    (addr version a : ℕ) (m : Versions) (o : Option ℕ)
    → find addr m ≡ o
    → (version_ts (elim o as (λ _. ℕ) [ some v ↦ v | none ↦ 0 ]) ≤ version_ts version)
    → version_ts (get_cached_version a m)
      ≤ version_ts (get_cached_version a (insert addr version m))
unfolding get_cached_version
grown addr version a m none e le =
    rw (get_cached_version, find-insert addr a version m)
      (elim (Bool-cases (addr == a)) [
        | inl q ↦ let same : addr ≡ a = ground arith in rw (q, ← same, get_cached_version, e) le
        | inr q ↦ rw q (omega arith)
      ])
grown addr version a m (some old) e le =
    rw (get_cached_version, find-insert addr a version m)
      (elim (Bool-cases (addr == a)) [
        | inl q ↦ let same : addr ≡ a = ground arith in rw (q, ← same, get_cached_version, e) le
        | inr q ↦ rw q (omega arith)
      ])

-- Adding any version for any object keeps the table free of locked versions, and takes no cached
-- version back to a lower one.
pub add_version_to_cache_grows :
    (addr version : ℕ) (m : Versions)
    → Unlocked m
    → Unlocked (add_version_to_cache addr version m)
      × ((a : ℕ)
          → version_ts (get_cached_version a m)
            ≤ version_ts (get_cached_version a (add_version_to_cache addr version m)))
unfolding add_version_to_cache is_timestamp_greater
add_version_to_cache_grows addr version m unlocked = elim (Bool-cases (is_locked version)) [
  | inl l ↦ rw l (unlocked, λ a. omega arith)
  | inr f ↦ elim (Option-cases (find addr m)) [
    | inl e ↦
        rw (f, e)
          (
            All-insert (λ (p : ℕ × ℕ). is_locked p.1 ≡ false) addr version m unlocked f,
            λ a. grown addr version a m none e (omega arith),
          )
    | inr (old, e) ↦ elim (Bool-cases (is_timestamp_greater version old)) [
      | inl g ↦
          rw (f, e, g)
            (
              All-insert (λ (p : ℕ × ℕ). is_locked p.1 ≡ false) addr version m unlocked f,
              λ a. grown addr version a m (some old) e (ground arith),
            )
      | inr g ↦ rw (f, e, g, f) (unlocked, λ a. omega arith)
    ]
  ]
]
